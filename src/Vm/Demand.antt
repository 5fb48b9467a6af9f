-- ===== src/Vm/Demand.antt =====
-- The page fault within the heap of a process: the page is mapped on demand.
use osmium.Prelude.{
  ℕ, ◌+◌, ◌*◌, ◌/◌, ◌≤◌, ◌<◌, ◌≡◌, ◌≢◌, refl, ap, ◌∙◌, inl, inr, true, Option, none, some, List,
  ◌∷◌, length, arith, bit_or, dec_lt, subst,
}
use osmium.Machine.{ok}
use osmium.Machine.Words.{page_down}
use osmium.Machine.Returns
use osmium.Machine.Returns.{Returns, returns, Returns-eq}
use osmium.Kalloc.{Kmem}
use osmium.Kalloc.Chain
use osmium.Kalloc.Chain.{has}
use osmium.Kalloc.Pages.{alloc-cons, SameOutside}
use osmium.Sched.{Process, Scheduler, put}
use osmium.Sched.Slots.{At}
use osmium.Sched.Keep.{with_current_lem}
use osmium.Vm.{entry, translate, va_max, pte_r, pte_w, pte_u}
use osmium.Vm.Find.{indices, translate-find, located}
use osmium.Vm.Space.{Node, Owner, IsSpace}
use osmium.Vm.Grow.{ne-of_has}
use osmium.Vm.Keep.{find-same, IsSpace-same}
use osmium.Vm.Leaf.{indices-Small}
use osmium.Vm.Tables.{service_page_fault, fault_in, map_heap_page}
use osmium.Vm.Translate.{map_pages-translate, translate-found, Translates}

abbrev pub user_rw : ℕ
user_rw = bit_or (bit_or pte_r pte_w) pte_u

-- What taking a page leaves of the space.
module _ {kernel_end root : ℕ} {own : Owner} {k k2 : Kmem} {page : ℕ} {ps : List ℕ}
    (v : IsSpace kernel_end root own k (page ∷ ps)) (pages : Chain.IsValid kernel_end k2 ps)
    (outside : SameOutside page k.mem k2.mem) where
  table-kept :
      (s : ℕ) (n : Node) (j : ℕ) → own s ≡ some n → j < 512 → k2.mem (entry s j) ≡ k.mem (entry s j)
  table-kept s n j at small =
      let ne : s ≢ page = ne-of_has s page ps (v.apart s n at) in
      outside (entry s j) (elim (dec_lt s page) [
        | yes below ↦ inl (omega (arith, v.aligned s n at, v.pages.pages.0.aligned, ne))
        | no above ↦ inr (omega (arith, v.aligned s n at, v.pages.pages.0.aligned, ne))
      ])

  taken-IsSpace : IsSpace kernel_end root own k2 ps
  taken-IsSpace =
      IsSpace-same k2.mem v table-kept refl pages λ t n at. ground (arith, v.apart t n at)

  taken-translate :
      (a : ℕ) {r : Option (ℕ × ℕ)}
      → a < va_max
      → translate root a k ≡ ok (r, k)
      → translate root a k2 ≡ ok (r, k2)
  taken-translate a {r} bound e =
      translate-find root a k2 bound
      ∙ ap (λ f. ok (located a f, k2))
          (find-same k2.mem v table-kept (indices a) refl (indices-Small a))
      ∙ ap (λ l. ok (l, k2)) (translate-found root a k r bound e)

map_heap_page-Translates :
    {kernel_end root : ℕ} {own : Owner} {k : Kmem} {page : ℕ} {ps : List ℕ} (addr : ℕ)
    → IsSpace kernel_end root own k (page ∷ ps)
    → 2 ≤ length ps
    → addr < va_max
    → ((x : ℕ) → x < 4096 → translate root (addr / 4096 * 4096 + x) k ≡ ok (none, k))
    → Returns
        (λ (mapped, k').
          (mapped ≡ true)
          × Translates kernel_end root own k k' (addr / 4096 * 4096) page 4096 user_rw)
        (map_heap_page addr root k)
unfolding map_heap_page
map_heap_page-Translates {root} {own} {k} {page} {ps} addr v enough bound unmapped =
    let same : addr / 4096 * 4096 + 0 ≡ addr / 4096 * 4096 = omega arith in
    let first : translate root (addr / 4096 * 4096) k ≡ ok (none, k) =
      subst (λ a. translate root a k ≡ ok (none, k)) same (unmapped 0 (omega arith)) in
    let down = page_down addr (omega arith) in
    rw (down, first)
      (Returns.bind (alloc-cons v.pages) λ (r, k2) (e, pages, count, blank, outside).
        rw (e, down)
          (Returns.bind
            (map_pages-translate (addr / 4096 * 4096) page 4096 user_rw
              (taken-IsSpace v pages outside) (omega arith, v.pages.pages.0.aligned, refl)
              (omega arith) ((λ z. omega (arith, z)), omega arith)
              (omega arith, omega (arith, v.pages.pages.0.below)) enough
              (λ x l.
                taken-translate v pages outside (addr / 4096 * 4096 + x) (omega arith)
                  (unmapped x l)))
            λ k3 t. returns (
              refl,
              record {
                space = t.space;
                inside = t.inside;
                outside = λ a r low far at.
                    t.outside a r low far (taken-translate v pages outside a low at);
              },
            )))

fault_in-inside :
    (addr base brk table : ℕ) (k : Kmem)
    → base ≤ addr
    → addr < brk
    → fault_in addr base brk table k ≡ map_heap_page addr table k
unfolding fault_in
fault_in-inside addr base brk table k above below = ground arith

-- A page fault at an address within the heap of the current process and below the bound of the
-- addresses, where its table is the root of a sound address space with three free pages and nothing
-- is mapped in the page of the address, never panics and is serviced. Each address of the page is then
-- translated to the page that was first on the free list, for the user to read and write, each
-- address outside of it is translated as before, the space is sound again, and the processes are as
-- they were.
pub service_page_fault-Translates :
    {kernel_end : ℕ} {own : Owner} {k : Kmem} {page : ℕ} {ps : List ℕ} (addr : ℕ) (s : Scheduler)
    {cur : ℕ} (p : Process)
    → s.current ≡ some cur
    → At s.procs cur p
    → IsSpace kernel_end p.page_table own k (page ∷ ps)
    → 2 ≤ length ps
    → (p.heap_base ≤ addr) × (addr < p.heap_brk) × (addr < va_max)
    → ((x : ℕ) → x < 4096 → translate p.page_table (addr / 4096 * 4096 + x) k ≡ ok (none, k))
    → Returns
        (λ (mapped, s', k').
          (mapped ≡ true)
          × (s' ≡ put cur p s)
          × Translates kernel_end p.page_table own k k' (addr / 4096 * 4096) page 4096 user_rw)
        (service_page_fault addr (s, k))
unfolding service_page_fault
service_page_fault-Translates {k} addr s p e a v enough (above, below, bound) unmapped =
    rw
      (
        with_current_lem {T = ℕ × ℕ × ℕ} (λ q. ((q.heap_base, q.heap_brk, q.page_table), q)) s e a,
        fault_in-inside addr p.heap_base p.heap_brk p.page_table k above below,
      )
      (Returns.bind (map_heap_page-Translates addr v enough bound unmapped)
        λ (mapped, k') (yes_mapped, t). returns (yes_mapped, refl, t))
