-- ===== src/Console/Laws.antt =====
-- The ring buffer is a queue of at most 256 bytes that drops what does not fit.
use osmium.Prelude.{
  ℕ, zero, suc, ◌+◌, ◌-◌, ◌%◌, ◌≤◌, ◌<◌, ◌≡◌, refl, ap, ap₂, ◌∙◌, false, ltb, none, some, List, [],
  ◌∷◌, ◌++◌, length, get_or, set, arith, length-set, get_or-set_self, get_or-set_ne, dec_lt, lt→ltb,
  le→ltb_false, eq→==, ne→==_false, ◌⊎◌, inl, inr, if◌then◌else◌,
}
use osmium.Machine.{ok, add, usize_max}
use osmium.Machine.Returns.{Returns, returns, Returns-eq}
use osmium.Sched.{Scheduler, wakeup, sleeps_on, Process}
use osmium.Sched.Slots.{At}
use osmium.Sched.Wake.{wakeup-exact}
use osmium.Console.{Input, input_cap, push_input, on_input, getchar, normalize}

-- The `n` bytes from index `r` on.
pub queue : List ℕ → ℕ → ℕ → List ℕ
queue buf r zero = []
queue buf r (suc n) = get_or buf (r % input_cap) 0 ∷ queue buf (r + 1) n

abbrev pub contents : Input → List ℕ
contents i = queue i.buf i.r (i.w - i.r)

pub record IsValid (i : Input) : Type 0 where
  pub size : length i.buf ≡ input_cap
  pub order : i.r ≤ i.w
  pub level : i.w - i.r ≤ input_cap

length-queue : (buf : List ℕ) (r n : ℕ) → length (queue buf r n) ≡ n
unfolding queue
length-queue buf r zero = refl
length-queue buf r (suc n) = ap suc (length-queue buf (r + 1) n)

queue-set :
    (buf : List ℕ) (w b r n : ℕ)
    → r + n ≤ w
    → w < r + input_cap
    → queue (set buf (w % input_cap) b) r n ≡ queue buf r n
unfolding queue
queue-set buf w b r zero low high = refl
queue-set buf w b r (suc n) low high =
    ap₂ (λ x xs. x ∷ xs)
      (get_or-set_ne buf {i = w % input_cap} {j = r % input_cap} b 0
        (λ e. absurd (omega (arith, e))))
      (queue-set buf w b (r + 1) n (omega arith) (omega arith))

queue-last :
    (buf : List ℕ) (b r n : ℕ)
    → length buf ≡ input_cap
    → n < input_cap
    → queue (set buf ((r + n) % input_cap) b) r (suc n) ≡ queue buf r n ++ b ∷ []
unfolding queue
queue-last buf b r zero size l =
    ap (λ x. x ∷ [])
      (rw (plus_zero r) (get_or-set_self buf (r % input_cap) b 0 (omega (arith, size))))
  where
    plus_zero : (r : ℕ) → r + 0 ≡ r
    plus_zero r = omega arith
queue-last buf b r (suc n) size l =
    ap₂ (λ x xs. x ∷ xs)
      (get_or-set_ne buf {i = (r + suc n) % input_cap} {j = r % input_cap} b 0
        (λ e. absurd (omega (arith, e))))
      (ap (λ k. queue (set buf (k % input_cap) b) (r + 1) (suc n)) (shift r n)
        ∙ queue-last buf b (r + 1) n size (omega arith))
  where
    shift : (r n : ℕ) → r + suc n ≡ r + 1 + n
    shift r n = omega arith

push_input-fits :
    (b : ℕ) (i : Input)
    → i.r ≤ i.w
    → i.w - i.r < input_cap
    → i.w < usize_max
    → push_input b i ≡ ok (record i { buf = set i.buf (i.w % input_cap) b; w = i.w + 1 })
unfolding push_input
push_input-fits b i order level top = ground arith

push_input-full : (b : ℕ) (i : Input) → i.r ≤ i.w → input_cap ≤ i.w - i.r → push_input b i ≡ ok i
unfolding push_input
push_input-full b i order level = ground arith

-- On a valid ring buffer whose write position does not come to overflow, a byte that is received goes
-- to the end of the queue, with a carriage return turned into a newline, or is dropped if the queue
-- holds 256 bytes; no reader is left asleep on the buffer. The write position moves by at most one.
pub on_input-queue :
    (chan byte : ℕ) {i : Input} (s : Scheduler)
    → IsValid i
    → i.w < usize_max
    → Returns
        (λ (i', s').
          IsValid i'
          × (contents i' ≡ (
              if ltb (length (contents i)) input_cap
              then contents i ++ normalize byte ∷ []
              else contents i))
          × ((k : ℕ) (q : Process) → At s'.procs k q → sleeps_on chan q.state ≡ false)
          × (i'.w ≤ i.w + 1))
        (on_input chan byte (i, s))
unfolding on_input
on_input-queue chan byte {i} s v top = elim (dec_lt (i.w - i.r) input_cap) [
  | yes l ↦
      rw
        (
          push_input-fits (normalize byte) i v.order l top,
          length-queue i.buf i.r (i.w - i.r),
          lt→ltb (i.w - i.r) input_cap l,
        )
        (returns (
          record {
            size = length-set i.buf (i.w % input_cap) (normalize byte) ∙ v.size;
            order = omega (arith, v.order);
            level = omega (arith, v.order);
          },
          added l,
          awake,
          omega arith,
        ))
  | no l ↦
      rw
        (
          push_input-full (normalize byte) i v.order (omega arith),
          length-queue i.buf i.r (i.w - i.r),
          le→ltb_false (i.w - i.r) input_cap (omega arith),
        )
        (returns (v, refl, awake, omega arith))
]
  where
    awake : (k : ℕ) (q : Process) → At (wakeup chan s).procs k q → sleeps_on chan q.state ≡ false
    awake k q a = (wakeup-exact chan s k q a).0

    added :
        i.w - i.r < input_cap
        → queue (set i.buf (i.w % input_cap) (normalize byte)) i.r (i.w + 1 - i.r)
          ≡ queue i.buf i.r (i.w - i.r) ++ normalize byte ∷ []
    added l =
        let n : i.w + 1 - i.r ≡ suc (i.w - i.r) = omega (arith, v.order) in
        let at : i.w ≡ i.r + (i.w - i.r) = omega (arith, v.order) in
        rw n (
          ap (λ k. queue (set i.buf (k % input_cap) (normalize byte)) i.r (suc (i.w - i.r))) at
          ∙ queue-last i.buf (normalize byte) i.r (i.w - i.r) v.size l)

queue-suc :
    (buf : List ℕ) (r n : ℕ)
    → queue buf r (suc n) ≡ get_or buf (r % input_cap) 0 ∷ queue buf (r + 1) n
unfolding queue
queue-suc buf r n = refl

queue-zero : (buf : List ℕ) (r : ℕ) → queue buf r zero ≡ []
unfolding queue
queue-zero buf r = refl

getchar-some :
    (i : Input)
    → i.r < i.w
    → i.w ≤ usize_max
    → getchar i ≡ ok (some (get_or i.buf (i.r % input_cap) 0), record i { r = i.r + 1 })
unfolding getchar
getchar-some i l top =
    let e : add i.r 1 ≡ ok (i.r + 1) = ground arith in
    rw (ne→==_false i.r i.w (omega arith), e, getchar) refl

getchar-none : (i : Input) → i.r ≡ i.w → getchar i ≡ ok (none, i)
unfolding getchar
getchar-none i same = rw (eq→== i.r i.w same, getchar) refl

-- `getchar` takes the byte at the front of the queue, and none only if the queue is empty.
pub getchar-queue :
    {i : Input}
    → IsValid i
    → i.w ≤ usize_max
    → Returns
        (λ (r, i').
          IsValid i'
          × (((r ≡ none) × (contents i ≡ []) × (i' ≡ i))
              ⊎ ((b : ℕ) × (r ≡ some b) × (contents i ≡ b ∷ contents i'))))
        (getchar i)
getchar-queue {i} v top = elim (dec_lt i.r i.w) [
  | yes l ↦ Returns-eq (getchar-some i l top) (
    record { size = v.size; order = omega arith; level = omega (arith, v.level) },
    inr (get_or i.buf (i.r % input_cap) 0, refl, taken l),
  )
  | no l ↦
      let same : i.r ≡ i.w = omega (arith, v.order) in
      Returns-eq (getchar-none i same) (v, inl (refl, nothing same, refl))
]
  where
    taken :
        i.r < i.w
        → queue i.buf i.r (i.w - i.r)
          ≡ get_or i.buf (i.r % input_cap) 0 ∷ queue i.buf (i.r + 1) (i.w - (i.r + 1))
    taken l =
        let n : i.w - i.r ≡ suc (i.w - (i.r + 1)) = omega arith in
        rw n (queue-suc i.buf i.r (i.w - (i.r + 1)))

    nothing : i.r ≡ i.w → queue i.buf i.r (i.w - i.r) ≡ []
    nothing same = let n : i.w - i.r ≡ 0 = omega arith in rw n (queue-zero i.buf i.r)
