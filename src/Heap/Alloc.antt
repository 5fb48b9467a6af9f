-- ===== src/Heap/Alloc.antt =====
-- `alloc_inner` on the list in memory takes what `take_first` takes from the list of blocks.
use osmium.Prelude.{
  ℕ, zero, suc, ◌+◌, ◌-◌, ◌^◌, ◌≤◌, ◌<◌, ◌≡◌, ◌≢◌, refl, ◌⊎◌, inl, inr, Bool, true, false, List, [],
  ◌∷◌, ◌++◌, arith, if◌then◌else◌, ◌==◌, leb, length, Option, none, some, Bool-cases, ◌∙◌, le→leb,
  lt→leb_false, leb→le,
}
use osmium.Machine.{null, ok, add, sub, usize_max}
use osmium.Machine.Returns
use osmium.Machine.Returns.{Returns, returns, Returns-eq}
use osmium.Heap.{Heap, rewire, link, carve, search_fit}
use osmium.Heap.Spec.{Block, Apart, pieces, taken, Taken, take_first, round_up, sizes, Outside}
use osmium.Heap.Spec.Laws.{IsTaken, taken-IsTaken}
use osmium.Heap.Layout.{IsFit, align_up-round_up}
use osmium.Heap.Blocks.{Blocks}
use osmium.Heap.Carve.{
  reads, carved, head-carved, free_bytes-carved, Cut, carved-frame, carved-header, carved-Blocks,
  kept,
}

-- The two choices that `carve` makes.
abbrev keeps_front : (need align s n : ℕ) → Bool
keeps_front need align s n = leb 32 (round_up (s + 16) align - 16 - s)

abbrev keeps_back : (need align s n : ℕ) → Bool
keeps_back need align s n = leb 32 (s + n - (round_up (s + 16) align + need))

free_bytes-rewire :
    (kf kb : Bool) (prev cur gap end stop : ℕ) (h : Heap)
    → (rewire kf kb prev cur gap end stop h).free_bytes ≡ h.free_bytes
unfolding rewire link
free_bytes-rewire kf kb prev cur gap end stop h = elim (Bool-cases (prev == null)) [
  | inl e ↦ rw e
  | inr e ↦ rw e
]

module _ (prev s n u ue : ℕ) (h : Heap) where
  -- What is left of `carve` once its two choices are made.
  finish :
      (kf kb : Bool) (start end : ℕ)
      → leb 32 (u - 16 - s) ≡ kf
      → leb 32 (s + n - ue) ≡ kb
      → (if kf then u - 16 else s) ≡ start
      → (if kb then ue else s + n) ≡ end
      → s + 16 ≤ u
      → u ≤ ue
      → ue ≤ s + n
      → s + n ≤ usize_max
      → n ≤ h.free_bytes
      → carve prev s (s + n) u ue h ≡ ok (u, carved kf kb prev s n u start end h)
  unfolding carve carved
  finish kf kb start end ef eb es ee low pos fit top enough =
      let header : sub u 16 ≡ ok (u - 16) = ground arith in
      let gap : sub (u - 16) s ≡ ok (u - 16 - s) = ground arith in
      let back : sub (s + n) ue ≡ ok (s + n - ue) = ground arith in
      let first : (if kf then add s (u - 16 - s) else ok s) ≡ ok start = ground arith in
      let size : sub end start ≡ ok (end - start) = ground arith in
      let left : sub h.free_bytes (end - start) ≡ ok (h.free_bytes - (end - start)) =
        ground arith in
      rw (header, gap, back, ef, eb, first, ee, size, free_bytes-rewire kf kb, left)

  carve_eq :
      s + 16 ≤ u
      → u ≤ ue
      → ue ≤ s + n
      → s + n ≤ usize_max
      → n ≤ h.free_bytes
      → let kf = leb 32 (u - 16 - s) in
        let kb = leb 32 (s + n - ue) in
        carve prev s (s + n) u ue h
        ≡ ok (u, carved kf kb prev s n u (if kf then u - 16 else s) (if kb then ue else s + n) h)
  carve_eq = finish _ _ _ _ refl refl refl refl

module _ (need align s n : ℕ) (fits : round_up (s + 16) align + need ≤ s + n) where
  kept-pieces :
      (bs : List Block)
      → 0 < need
      → s + 16 ≤ round_up (s + 16) align
      → let t = taken need align (s, n) in
        kept (keeps_front need align s n) (keeps_back need align s n) s n t.start t.end bs
        ≡ pieces (s, n) t.start t.end ++ bs
  unfolding kept pieces taken
  kept-pieces bs pos low = ground arith

  taken-user : (taken need align (s, n)).user ≡ round_up (s + 16) align
  unfolding taken
  taken-user = refl

  taken-Cut :
      (prev : ℕ)
      → IsTaken need align (s, n) (taken need align (s, n))
      → 0 < need
      → (prev ≡ null) ⊎ (prev + 16 ≤ s)
      → s ≢ null
      → let t = taken need align (s, n) in
        Cut (keeps_front need align s n) (keeps_back need align s n) prev s n t.user t.start t.end
  unfolding taken
  taken-Cut prev k pos ahead live = record {
    ahead = ahead;
    header = k.header;
    payload = omega (arith, k.payload);
    within = k.within;
    front = ground (arith, k.header);
    back = ground (arith, k.payload);
    live = live;
  }

  carve-carved :
      (prev : ℕ) (h : Heap)
      → IsTaken need align (s, n) (taken need align (s, n))
      → s + n ≤ usize_max
      → n ≤ h.free_bytes
      → let t = taken need align (s, n) in
        carve prev s (s + n) t.user (t.user + need) h
        ≡ ok (
          t.user,
          carved
              (keeps_front need align s n)
              (keeps_back need align s n)
              prev
              s
              n
              t.user
              t.start
              t.end
              h,
        )
  unfolding taken
  carve-carved prev h k top enough =
      carve_eq prev s n (round_up (s + 16) align) (round_up (s + 16) align + need) h
        (omega (arith, k)) (omega (arith, k)) (omega (arith, k)) top enough

pub Outside-of_Apart : (a lo hi : ℕ) (bs : List Block) → a ≤ lo → Apart lo hi bs → Outside a bs
Outside-of_Apart a lo hi [] h p = tt
Outside-of_Apart a lo hi ((s, n) ∷ bs) h p =
    (omega (arith, p.0), Outside-of_Apart a (s + n) hi bs (omega (arith, p.0)) p.5)

-- What a walk that starts behind `prev` has done to the heap when it takes `t`.
pub record Allocated (prev : ℕ) (h : Heap) (bs : List Block) (t : Taken) (bs' : List Block) (p : ℕ)
    (h' : Heap) : Type 0 where
  pub user : p ≡ t.user
  pub blocks : Blocks h'.mem (reads prev h') bs'
  pub head_same : prev ≢ null → h'.head ≡ h.head
  pub same : (a : ℕ) → Outside a bs → a ≢ prev + 8 → h'.mem a ≡ h.mem a
  pub start_at : h'.mem (t.user - 16) ≡ t.start
  pub size_at : h'.mem (t.user - 8) ≡ t.end - t.start
  pub bytes : h'.free_bytes ≡ h.free_bytes - (t.end - t.start)

abbrev pub Found : ℕ → Heap → List Block → Option (Taken × List Block) → ℕ × Heap → Type 0
Found prev h bs none (p, h') = (p ≡ null) × (h' ≡ h)
Found prev h bs (some (t, bs')) (p, h') = Allocated prev h bs t bs' p h'

-- The block that does not fit stays, between the link and what the rest of the walk does.
Allocated-cons :
    (prev lo hi s n : ℕ) (h : Heap) (bs : List Block) {t : Taken} {bs' : List Block} {p : ℕ}
    {h' : Heap}
    → (prev ≡ null) ⊎ (prev + 16 ≤ lo)
    → reads prev h ≡ s
    → s ≢ null
    → h.mem s ≡ n
    → Apart lo hi ((s, n) ∷ bs)
    → Allocated s h bs t bs' p h'
    → Allocated prev h ((s, n) ∷ bs) t ((s, n) ∷ bs') p h'
Allocated-cons prev lo hi s n h bs {h'} ahead at live size ap a =
    let next : reads s h' ≡ h'.mem (s + 8) = ground arith in
    record {
      user = a.user;
      blocks = (
        ground (
          arith,
          a.head_same live,
          a.same (prev + 8),
          Outside-of_Apart (prev + 8) (s + n) hi bs,
          ap,
        ),
        live,
        ground (arith, a.same s, Outside-of_Apart s (s + n) hi bs, ap),
        rw (← next) a.blocks,
      );
      head_same = λ _. a.head_same live;
      same = λ b (out, outs) ne. a.same b outs (omega arith);
      start_at = a.start_at;
      size_at = a.size_at;
      bytes = a.bytes;
    }

round_up-le : (x a : ℕ) → round_up x a ≤ x + (a - 1)
round_up-le x a = grind arith

module _ (need align hi : ℕ) (f : IsFit need align) (top : hi ≤ 2 ^ 60) where
  search_fit-step :
      (fuel prev lo s n : ℕ) (h : Heap) (bs : List Block)
      → Blocks h.mem s ((s, n) ∷ bs)
      → Apart lo hi ((s, n) ∷ bs)
      → let u = round_up (s + 16) align in
        search_fit (suc fuel) need align prev s h ≡ (elim (leb (u + need) (s + n)) [
          | true ↦ carve prev s (s + n) u (u + need) h
          | false ↦ search_fit fuel need align s (h.mem (s + 8)) h
        ])
  unfolding search_fit
  search_fit-step fuel prev lo s n h bs b ap =
      let live : (s == null) ≡ false = ground (arith, b.1) in
      let end : add s n ≡ ok (s + n) = ground (arith, ap) in
      let payload : add s 16 ≡ ok (s + 16) = ground (arith, ap) in
      let up = align_up-round_up (s + 16) align f.power (omega (arith, f.room, ap)) in
      let bound = round_up-le (s + 16) align in
      let whole : add (round_up (s + 16) align) need ≡ ok (round_up (s + 16) align + need) =
        ground (arith, f.room, ap, bound) in
      rw (live, b.2, end, payload, up, whole, search_fit)

  search_fit-end :
      (fuel prev cur : ℕ) (h : Heap)
      → cur ≡ null
      → search_fit (suc fuel) need align prev cur h ≡ ok (null, h)
  unfolding search_fit
  search_fit-end fuel prev cur h e = rw e

  search_fit-hit :
      (fuel prev lo s n : ℕ) (h : Heap) (bs : List Block)
      → (prev ≡ null) ⊎ (prev + 16 ≤ lo)
      → Blocks h.mem s ((s, n) ∷ bs)
      → Apart lo hi ((s, n) ∷ bs)
      → n ≤ h.free_bytes
      → round_up (s + 16) align + need ≤ s + n
      → let t = taken need align (s, n) in
        Returns
          (λ (p, h'). Allocated prev h ((s, n) ∷ bs) t (pieces (s, n) t.start t.end ++ bs) p h')
          (search_fit (suc fuel) need align prev s h)
  search_fit-hit fuel prev lo s n h bs ahead b ap enough fits =
      let up = align_up-round_up (s + 16) align f.power (omega (arith, f.room, ap)) in
      let k = taken-IsTaken f.request s n ap.1 ap.2 fits in
      let step = carve-carved need align s n fits prev h k (omega (arith, ap)) enough in
      let c =
        taken-Cut need align s n fits prev k f.request.positive (omega (arith, ahead, ap)) b.1 in
      let t = taken need align (s, n) in
      let shape = kept-pieces need align s n fits bs f.request.positive (omega (arith, k)) in
      let kf = keeps_front need align s n in
      let kb = keeps_back need align s n in
      let hung = carved-Blocks prev s n t.user t.start t.end hi h bs kf kb c ap.5 b.3 in
      let hit_step =
        search_fit-step fuel prev lo s n h bs b ap
        ∙ rw (le→leb _ _ fits, taken-user need align s n fits) in
      let words = carved-header kf kb prev s n t.user t.start t.end h c in
      Returns-eq {a = (t.user, carved kf kb prev s n t.user t.start t.end h)} (hit_step ∙ step)
        (record {
          user = refl;
          blocks = rw shape at hung;
          head_same = head-carved kf kb prev s n t.user t.start t.end h c;
          same = λ a (out, outs) ne. carved-frame kf kb prev s n t.user t.start t.end h c a out ne;
          start_at = words.0;
          size_at = words.1;
          bytes = free_bytes-carved kf kb prev s n t.user t.start t.end h c;
        })

  search_fit-miss :
      (fuel prev lo s n : ℕ) (h : Heap) (bs : List Block)
      → Blocks h.mem s ((s, n) ∷ bs)
      → Apart lo hi ((s, n) ∷ bs)
      → s + n < round_up (s + 16) align + need
      → search_fit (suc fuel) need align prev s h ≡ search_fit fuel need align s (h.mem (s + 8)) h
  search_fit-miss fuel prev lo s n h bs b ap no_fit =
      search_fit-step fuel prev lo s n h bs b ap ∙ rw (lt→leb_false _ _ no_fit)

  pub search_fit-take_first :
      (fuel prev lo cur : ℕ) (h : Heap) (bs : List Block)
      → length bs < fuel
      → (prev ≡ null) ⊎ (prev + 16 ≤ lo)
      → reads prev h ≡ cur
      → Blocks h.mem cur bs
      → Apart lo hi bs
      → sizes bs ≤ h.free_bytes
      → Returns (Found prev h bs (take_first need align bs)) (search_fit fuel need align prev cur h)
  unfolding take_first sizes
  search_fit-take_first zero prev lo cur h bs rounds ahead at b ap enough = absurd (omega arith)
  search_fit-take_first (suc fuel) prev lo cur h [] rounds ahead at b ap enough =
      Returns-eq (search_fit-end fuel prev cur h b) (refl, refl)
  search_fit-take_first (suc fuel) prev lo cur h ((s, n) ∷ bs) rounds ahead at b ap enough =
      rw b.0 (elim (Bool-cases (leb (round_up (s + 16) align + need) (s + n))) [
        | inl fits ↦ rw fits (
            search_fit-hit fuel prev lo s n h bs ahead (refl, b.1, b.2, b.3) ap (omega arith)
              (leb→le _ _ fits))
        | inr no_fit ↦
            let miss =
              search_fit-miss fuel prev lo s n h bs (refl, b.1, b.2, b.3) ap (ground arith) in
            let rest =
              search_fit-take_first fuel s (s + n) (h.mem (s + 8)) h bs (omega arith)
                (inr (omega (arith, ap))) (ground (arith, b.1)) b.3 ap.5 (omega arith) in
            rw (no_fit, miss) (Returns.mono rest (later (take_first need align bs)))
      ])
    where
      later :
          (o : Option (Taken × List Block)) (r : ℕ × Heap)
          → Found s h bs o r
          → Found prev h
              ((s, n) ∷ bs)
              (elim o [ none ↦ none | some (t, bs') ↦ some (t, (s, n) ∷ bs') ])
              r
      later none r k = k
      later (some (t, bs')) r k = Allocated-cons prev lo hi s n h bs ahead (at ∙ b.0) b.1 b.2 ap k
