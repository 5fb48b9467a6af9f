-- ===== src/Shell/Line.antt =====
-- What the terminal shows is the line.
use osmium.Prelude.{
  ℕ, zero, suc, ◌≤◌, ◌<◌, ◌≡◌, ◌≢◌, refl, ap, ap₂, subst, ◌∙◌, ◌⊎◌, inl, inr, ◌&&◌, ◌||◌, ltb, leb,
  ◌==◌, if◌then◌else◌, Option, none, some, List, [], ◌∷◌, ◌++◌, length, replicate, drop, arith,
  Bool-cases, length-append, ne→==_false, eq→==, ℕ_discrete,
}
use osmium.Shell.{Editor, pop, erase, backspace, type_byte, edit, edit_line, read_line, max_line}

-- A line of a terminal: what stands left of the cursor, and from the cursor on.
pub record Screen : Type 0 where
  pub left : List ℕ
  pub right : List ℕ

abbrev last : List ℕ → ℕ
last [] = 0
last (b ∷ []) = b
last (b ∷ c ∷ bs) = last (c ∷ bs)

-- A backspace moves the cursor, and any other byte is written over what is there.
pub show : ℕ → Screen → Screen
show b s =
    if b == 8
    then elim s.left [
      | [] ↦ s
      | c ∷ cs ↦ record { left = pop (c ∷ cs); right = last (c ∷ cs) ∷ s.right }
    ]
    else record { left = s.left ++ b ∷ []; right = drop 1 s.right }

pub feed : List ℕ → Screen → Screen
feed [] s = s
feed (b ∷ bs) s = feed bs (show b s)

feed-append : (xs ys : List ℕ) (s : Screen) → feed (xs ++ ys) s ≡ feed ys (feed xs s)
unfolding feed
feed-append [] ys s = refl
feed-append (x ∷ xs) ys s = feed-append xs ys (show x s)

abbrev pub empty_screen : Screen
empty_screen = record { left = []; right = [] }

abbrev pub Printable : List ℕ → Type 0
Printable [] = Unit {0}
Printable (b ∷ bs) = (32 ≤ b) × (b ≤ 126) × Printable bs

-- The terminal shows the line, with blanks from the cursor on, and the line is printable and not too
-- long.
pub record Shows (ed : Editor) : Type 0 where
  pub blanks : ℕ
  pub screen : feed ed.echo empty_screen ≡ record { left = ed.line; right = replicate blanks 32 }
  pub printable : Printable ed.line
  pub short : length ed.line ≤ max_line

pop-append : (b : ℕ) (bs : List ℕ) → pop (bs ++ b ∷ []) ≡ bs
pop-append b [] = refl
pop-append b (c ∷ []) = refl
pop-append b (c ∷ d ∷ bs) = ap (λ l. c ∷ l) (pop-append b (d ∷ bs))

last-append : (b : ℕ) (bs : List ℕ) → last (bs ++ b ∷ []) ≡ b
last-append b [] = refl
last-append b (c ∷ []) = refl
last-append b (c ∷ d ∷ bs) = last-append b (d ∷ bs)

length-pop : (bs : List ℕ) → length (pop bs) ≤ length bs
length-pop [] = omega arith
length-pop (b ∷ []) = omega arith
length-pop (b ∷ c ∷ bs) = omega (arith, length-pop (c ∷ bs))

Printable-pop : (bs : List ℕ) → Printable bs → Printable (pop bs)
Printable-pop [] p = tt
Printable-pop (b ∷ []) p = tt
Printable-pop (b ∷ c ∷ bs) (lo, hi, p) = (lo, hi, Printable-pop (c ∷ bs) p)

Printable-append :
    (b : ℕ) (bs : List ℕ) → 32 ≤ b → b ≤ 126 → Printable bs → Printable (bs ++ b ∷ [])
Printable-append b [] lo hi p = (lo, hi, tt)
Printable-append b (c ∷ bs) lo hi (lo', hi', p) = (lo', hi', Printable-append b bs lo hi p)

-- A backspace where something stands left of the cursor.
show-back :
    (b : ℕ) (bs right : List ℕ)
    → show 8 (record { left = bs ++ b ∷ []; right = right })
      ≡ record { left = bs; right = b ∷ right }
unfolding show
show-back b [] right = refl
show-back b (c ∷ bs) right =
    ap₂ (λ l m. record { left = l; right = m ∷ right }) (pop-append b (c ∷ bs))
      (last-append b (c ∷ bs))

feed-erase :
    (c : ℕ) (cs right : List ℕ)
    → feed erase (record { left = c ∷ cs; right = right })
      ≡ record { left = pop (c ∷ cs); right = 32 ∷ right }
unfolding feed show
feed-erase c cs right = show-back 32 (pop (c ∷ cs)) right

backspace-Shows : (ed : Editor) → Shows ed → Shows (backspace ed)
unfolding backspace
backspace-Shows ed v = go ed.line refl
  where
    go : (line : List ℕ) → ed.line ≡ line → Shows (backspace ed)
    go [] e = rw (e, backspace) v
    go (c ∷ cs) e =
        rw (e, backspace)
          (record {
            blanks = suc v.blanks;
            screen =
                feed-append ed.echo erase empty_screen
                ∙ ap (feed erase)
                    (v.screen ∙ ap (λ l. record { left = l; right = replicate v.blanks 32 }) e)
                ∙ feed-erase c cs (replicate v.blanks 32);
            printable = Printable-pop (c ∷ cs) (subst (λ l. Printable l) e v.printable);
            short = omega (arith, length-pop (c ∷ cs), v.short, ap length e);
          })

drop-blanks : (n : ℕ) → (m : ℕ) × (drop 1 (replicate {A = ℕ} n 32) ≡ replicate m 32)
drop-blanks zero = (0, refl)
drop-blanks (suc n) = (n, refl)

show-byte :
    (b : ℕ) (left right : List ℕ)
    → b ≢ 8
    → show b (record { left = left; right = right })
      ≡ record { left = left ++ b ∷ []; right = drop 1 right }
unfolding show
show-byte b left right ne = rw (ne→==_false b 8 ne) refl

type_byte-Shows :
    (b : ℕ) (ed : Editor)
    → 32 ≤ b
    → b ≤ 126
    → length ed.line < max_line
    → Shows ed
    → Shows (type_byte b ed)
unfolding type_byte feed
type_byte-Shows b ed lo hi room v =
    let (m, fewer) = drop-blanks v.blanks in
    record {
      blanks = m;
      screen =
          feed-append ed.echo (b ∷ []) empty_screen
          ∙ ap (show b) v.screen
          ∙ show-byte b ed.line (replicate v.blanks 32) (λ e. omega (arith, e))
          ∙ ap (λ r. record { left = ed.line ++ b ∷ []; right = r }) fewer;
      printable = Printable-append b ed.line lo hi v.printable;
      short = omega (arith, length-append ed.line (b ∷ []));
    }

edit-Shows : (b : ℕ) (ed : Editor) → Shows ed → Shows (edit b ed)
unfolding edit
edit-Shows b ed v = elim (Bool-cases ((b == 0x7f) || (b == 8))) [
  | inl erases ↦ rw (erases, edit) (backspace-Shows ed v)
  | inr other ↦ elim (Bool-cases (leb 0x20 b && leb b 0x7e && ltb (length ed.line) max_line)) [
    | inl fits ↦
        rw (other, fits, edit) (type_byte-Shows b ed (ground arith) (ground arith) (ground arith) v)
    | inr ignored ↦ rw (other, ignored, edit) v
  ]
]

abbrev pub NoNewline : List ℕ → Type 0
NoNewline [] = Unit {0}
NoNewline (b ∷ bs) = (b ≢ 10) × NoNewline bs

-- What the loop makes of the keys.
abbrev pub LineRead : List ℕ → Option (Editor × List ℕ) → Type 0
LineRead keys r =
    ((r ≡ none) × NoNewline keys)
    ⊎ ((ed : Editor) × (typed : List ℕ) × (rest : List ℕ) × Shows ed
        × NoNewline typed
        × (keys ≡ typed ++ 10 ∷ rest)
        × (r ≡ some (record ed { echo = ed.echo ++ 10 ∷ [] }, rest)))

edit_line-LineRead : (keys : List ℕ) (ed : Editor) → Shows ed → LineRead keys (edit_line keys ed)
unfolding edit_line
edit_line-LineRead [] ed v = inl (refl, tt)
edit_line-LineRead (b ∷ keys) ed v = elim (ℕ_discrete b 10) [
  | yes is ↦ inr (ed, [], keys, v, tt, ap (λ c. c ∷ keys) is, rw (eq→== b 10 is, edit_line) refl)
  | no ne ↦
      let step : edit_line (b ∷ keys) ed ≡ edit_line keys (edit b ed) =
        rw (ne→==_false b 10 ne, edit_line) refl in
      elim (edit_line-LineRead keys (edit b ed) (edit-Shows b ed v)) [
        | inl (waits, others) ↦ inl (step ∙ waits, (ne, others))
        | inr (ed', typed, rest, v', clean, split, is) ↦
            inr (ed', b ∷ typed, rest, v', (ne, clean), ap (λ l. b ∷ l) split, step ∙ is)
      ]
]

-- Reading a line takes the keys up to the first newline, or waits where there is none. What a
-- terminal shows of the echo sent before the newline is then the line, with the cursor at its end and only
-- blanks behind it, whatever was typed and erased; the line is printable ASCII of at most 128 bytes.
pub read_line-LineRead : (keys : List ℕ) → LineRead keys (read_line keys)
unfolding read_line feed
read_line-LineRead keys =
    edit_line-LineRead keys (record { line = []; echo = [] })
      (record { blanks = 0; screen = refl; printable = tt; short = omega arith })
