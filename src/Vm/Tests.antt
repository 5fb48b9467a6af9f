-- ===== src/Vm/Tests.antt =====
-- An address space with one page mapped, at 0x4000_0000.
use osmium.Prelude.{
  true, ℕ, ◌+◌, ◌*◌, ◌/◌, ◌%◌, ◌<◌, ◌≡◌, refl, sym, ap, ◌∙◌, false, none, some, List, [], ◌∷◌,
  arith, replicate, ◌==◌, if◌then◌else◌, ne→==_false, ℕ_discrete,
}
use osmium.Machine.Returns.{Returns}
use osmium.Kalloc.Chain.{has}
use osmium.Sched.Slots.{none≢some, true≢false}
use osmium.Vm.{entry, map_pages}
use osmium.Vm.Find.{find-empty, translate-find, located, vpn-lt}
use osmium.Vm.Space.{Node, top, Owner, IsSpace}
use osmium.Vm.Translate.{map_pages-translate, Translates}
use osmium.Machine.{ok, store}
use osmium.Vm.Tables.{service_page_fault}
use osmium.Vm.Demand.{user_rw, service_page_fault-Translates}
use osmium.Sched.{put}
use osmium.Kalloc.{Kmem}
use osmium.Sched.{Process, Scheduler, running, zeroed, max_fds}
use osmium.Vm.{pte_to_pa, is_valid, translate, va_max, vpn, walk, walk_level}

-- The root table, the two below it, and the page.
abbrev root : ℕ
root = 0x80c0_0000

abbrev one_page : Kmem
one_page = record {
  mem =
      store
        (store (store (λ a. 0) (root + 8) (0x80c0_1000 / 4096 * 1024 + 1)) 0x80c0_1000
          (0x80c0_2000 / 4096 * 1024 + 1))
        0x80c0_2000 (0x80c0_3000 / 4096 * 1024 + 0xdf);
  head = 0;
  free_pages = 0;
}

translate_run : translate root 0x4000_0123 one_page ≡ ok (some (0x80c0_3123, 0x2030_0cdf), one_page)
unfolding translate walk walk_level pte_to_pa vpn
translate_run = refl

abbrev user : Process
user = record {
  pid = 1;
  name = [];
  state = running;
  context = zeroed;
  entry = 300;
  kstack_top = 400;
  user_entry = 0x4000_0000;
  user_sp = 0x4100_0000;
  page_table = root;
  user_table = some root;
  heap_base = 0x5000_0000;
  heap_brk = 0x5000_2000;
  fds = replicate max_fds none;
  fork_frame = none;
}

abbrev busy : Scheduler
busy = record { procs = some user ∷ []; current = some 0; next_slot = 1; next_pid = 2 }

-- A root table without entries, and three free pages.
abbrev bare : Kmem
bare = record {
  mem = store (store (λ a. 0) 0x80c0_1000 0x80c0_2000) 0x80c0_2000 0x80c0_4000;
  head = 0x80c0_1000;
  free_pages = 3;
}

abbrev three_free : List ℕ
three_free = 0x80c0_1000 ∷ 0x80c0_2000 ∷ 0x80c0_4000 ∷ []

abbrev only_root : Owner
only_root s = if s == root then some top else none

only_root-root : (s : ℕ) (n : Node) → only_root s ≡ some n → s ≡ root
only_root-root s n e = elim (ℕ_discrete s root) [
  | yes is ↦ is
  | no ne ↦
      absurd (none≢some (sym (ap (λ b. if b then some top else none) (ne→==_false s root ne)) ∙ e))
]

bare-invalid : (i : ℕ) → i < 512 → is_valid (bare.mem (entry root i)) ≡ false
bare-invalid i l =
    rw
      (
        ne→==_false (entry root i) 0x80c0_2000 (omega arith),
        ne→==_false (entry root i) 0x80c0_1000 (omega arith),
      )
      refl

bare-IsSpace : IsSpace 0x8020_0000 root only_root bare three_free
bare-IsSpace = record {
  pages = record {
    chain = (
      refl,
      (λ e. omega (arith, e)),
      (refl, (λ e. omega (arith, e)), (refl, (λ e. omega (arith, e)), refl)),
    );
    pages = (
      record { aligned = refl; above = omega arith; below = omega arith },
      (
        record { aligned = refl; above = omega arith; below = omega arith },
        (record { aligned = refl; above = omega arith; below = omega arith }, tt),
      ),
    );
    distinct = (refl, (refl, (refl, tt)));
    count = refl;
  };
  at_root = refl;
  kids = λ t n i at inner l valid. absurd (
      true≢false (
        sym valid
        ∙ ap (λ s. is_valid (bare.mem (entry s i))) (only_root-root t n at)
        ∙ bare-invalid i l));
  aligned = λ t n at. ap (λ s. s % 4096) (only_root-root t n at);
  apart = λ t n at. ap (λ s. has s three_free) (only_root-root t n at);
}

bare-unmapped : (a : ℕ) → a < va_max → translate root a bare ≡ ok (none, bare)
bare-unmapped a low =
    translate-find root a bare low
    ∙ ap (λ o. ok (located a o, bare))
        (find-empty bare.mem root (vpn a 2) (vpn a 1 ∷ vpn a 0 ∷ [])
          (bare-invalid (vpn a 2) (vpn-lt a 2)))

map_pages-translate_example :
    Returns
      (λ k'. Translates 0x8020_0000 root only_root bare k' 0x4000_0000 0x80c0_3000 4096 10)
      (map_pages root 0x4000_0000 0x80c0_3000 4096 10 bare)
map_pages-translate_example =
    map_pages-translate 0x4000_0000 0x80c0_3000 4096 10 bare-IsSpace (refl, refl, refl)
      (omega arith) ((λ e. omega (arith, e)), omega arith) (omega arith, omega arith) (omega arith)
      (λ x l. bare-unmapped (0x4000_0000 + x) (omega arith))

service_page_fault-Translates_example :
    Returns
      (λ (mapped, s', k').
        (mapped ≡ true)
        × (s' ≡ put 0 user busy)
        × Translates 0x8020_0000 root only_root bare k' 0x5000_1000 0x80c0_1000 4096 user_rw)
      (service_page_fault 0x5000_1234 (busy, bare))
service_page_fault-Translates_example =
    service_page_fault-Translates 0x5000_1234 busy user refl refl bare-IsSpace (omega arith)
      (omega arith, omega arith, omega arith) (λ x l. bare-unmapped (0x5000_1000 + x) (omega arith))
