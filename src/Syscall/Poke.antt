-- ===== src/Syscall/Poke.antt =====
-- One byte that the kernel writes to the user's memory.
use osmium.Prelude.{
  ℕ, ◌+◌, ◌*◌, ◌/◌, ◌%◌, ◌^◌, ◌<◌, ◌≡◌, ◌≢◌, refl, sym, ap, ◌∙◌, false, some, List, arith, bit_or,
  ℕ_discrete,
}
use osmium.Prelude.Bits.{bit_or-fields}
use osmium.Machine.Bytes.{write_byte, read_byte-same, read_byte-other, write_byte-outside}
use osmium.Kalloc.{Kmem}
use osmium.Vm.{va_max, pte_to_pa}
use osmium.Vm.Find.{find, indices}
use osmium.Vm.Space.{Owner, IsSpace}
use osmium.Vm.Leaf.{indices-Small}
use osmium.Vm.Keep.{IsData, OnlyIn, find-kept, IsSpace-kept, pte_to_pa-aligned}
use osmium.Syscall.{refuses_read, unreadable}
use osmium.Syscall.Pages.{user_byte, user_byte-some}

-- The entry of an address of the user.
abbrev pub UserPage : (root a pte : ℕ) → Kmem → Type 0
UserPage root a pte k = (find k.mem root (indices a) ≡ some pte) × (refuses_read pte ≡ false)

-- An address space whose user pages can be read, are no tables and no free pages, and have one place
-- each.
pub record IsUserSpace (kernel_end root : ℕ) (own : Owner) (k : Kmem) (free : List ℕ) : Type 0 where
  pub space : IsSpace kernel_end root own k free
  pub readable : (a pte : ℕ) → UserPage root a pte k → unreadable pte ≡ false
  pub data_page : (a pte : ℕ) → UserPage root a pte k → IsData own free (pte_to_pa pte)
  pub alone :
      (a b pte pte' : ℕ)
      → a < va_max
      → b < va_max
      → UserPage root a pte k
      → UserPage root b pte' k
      → pte_to_pa pte ≡ pte_to_pa pte'
      → a / 4096 ≡ b / 4096

-- The physical address of `a`, in the page of its entry.
abbrev pub phys : (a pte : ℕ) → ℕ
phys a pte = bit_or (pte_to_pa pte) (a % 4096)

phys-sum : (a pte : ℕ) → phys a pte ≡ pte_to_pa pte + a % 4096
phys-sum a pte =
    let page : pte_to_pa pte ≡ pte_to_pa pte / 4096 * 2 ^ 12 =
      omega (arith, pte_to_pa-aligned pte) in
    ap (λ p. bit_or p (a % 4096)) page
    ∙ bit_or-fields 12 (pte_to_pa pte / 4096) (a % 4096) (omega arith)
    ∙ omega (arith, pte_to_pa-aligned pte)

abbrev pub poke : (a pte b : ℕ) → Kmem → Kmem
poke a pte b k = record k { mem = write_byte k.mem (phys a pte) b }

poke-OnlyIn : (a pte b : ℕ) (k : Kmem) → OnlyIn (pte_to_pa pte) k.mem (poke a pte b k).mem
poke-OnlyIn a pte b k = (
  (λ p l.
      write_byte-outside k.mem (phys a pte) b p
        (λ e. omega (arith, e, phys-sum a pte, pte_to_pa-aligned pte))),
  (λ p l.
      write_byte-outside k.mem (phys a pte) b p
        (λ e. omega (arith, e, phys-sum a pte, pte_to_pa-aligned pte))),
)

module _ {kernel_end root : ℕ} {own : Owner} {k : Kmem} {free : List ℕ} {a pte : ℕ}
    (v : IsUserSpace kernel_end root own k free) (low : a < va_max)
    (here : UserPage root a pte k) where
  pub poke-find :
      (b c : ℕ) → find (poke a pte b k).mem root (indices c) ≡ find k.mem root (indices c)
  poke-find b c =
      find-kept v.space (v.data_page a pte here) (poke-OnlyIn a pte b k) (indices c) refl
        (indices-Small c)

  poke-UserPage : (b c pte' : ℕ) → UserPage root c pte' (poke a pte b k) → UserPage root c pte' k
  poke-UserPage b c pte' (e, passes) = (sym (poke-find b c) ∙ e, passes)

  pub poke-IsUserSpace : (b : ℕ) → IsUserSpace kernel_end root own (poke a pte b k) free
  poke-IsUserSpace b = record {
    space = IsSpace-kept v.space (v.data_page a pte here) (poke-OnlyIn a pte b k);
    readable = λ c pte' there. v.readable c pte' (poke-UserPage b c pte' there);
    data_page = λ c pte' there. v.data_page c pte' (poke-UserPage b c pte' there);
    alone = λ c d pte1 pte2 low1 low2 at1 at2 same.
        v.alone c d pte1 pte2 low1 low2 (poke-UserPage b c pte1 at1) (poke-UserPage b d pte2 at2)
          same;
  }

  pub poke-same : (b : ℕ) → b < 256 → user_byte root a (poke a pte b k) ≡ b
  poke-same b small =
      user_byte-some root a (poke a pte b k) (poke-find b a ∙ here.0)
      ∙ read_byte-same k.mem (phys a pte) b small

  pub poke-other :
      (b c pte' : ℕ)
      → b < 256
      → c < va_max
      → c ≢ a
      → UserPage root c pte' k
      → user_byte root c (poke a pte b k) ≡ user_byte root c k
  poke-other b c pte' small low' ne there =
      user_byte-some root c (poke a pte b k) (poke-find b c ∙ there.0)
      ∙ read_byte-other k.mem (phys a pte) b (phys c pte') small apart
      ∙ sym (user_byte-some root c k there.0)
    where
      apart : phys c pte' ≢ phys a pte
      apart e = elim (ℕ_discrete (pte_to_pa pte') (pte_to_pa pte)) [
        | yes same ↦ ne (
            omega (
              arith,
              same,
              e,
              phys-sum a pte,
              phys-sum c pte',
              v.alone c a pte' pte low' low there here same,
            ))
        | no other ↦ other (
            omega (
              arith,
              e,
              phys-sum a pte,
              phys-sum c pte',
              pte_to_pa-aligned pte,
              pte_to_pa-aligned pte',
            ))
      ]
