-- ===== src/Machine/Bytes.antt =====
-- Bytes of the word memory: the machine is little-endian, and a byte is a part of the word that its
-- address lies in.
use osmium.Prelude.{
  ℕ, zero, suc, ◌+◌, ◌*◌, ◌/◌, ◌%◌, ◌^◌, ◌<◌, ◌≡◌, ◌≢◌, refl, sym, ap, ◌∙◌, arith, eq→==,
  ne→==_false, ℕ_discrete,
}
use osmium.Machine.{Mem, store}

-- The word that a byte lies in, and the weight that the byte has there.
abbrev pub word_of : ℕ → ℕ
word_of a = a / 8 * 8

abbrev pub weight : ℕ → ℕ
weight a = 256 ^ (a % 8)

unfoldable pub read_byte : Mem → ℕ → ℕ
read_byte m a = m (word_of a) / weight a % 256

unfoldable pub write_byte : Mem → (a b : ℕ) → Mem
write_byte m a b =
    let w = m (word_of a) in
    store m (word_of a) (w / (weight a * 256) * (weight a * 256) + b * weight a + w % weight a)

-- `copy_nonoverlapping` of `n` bytes.
unfoldable pub copy_bytes : (n src dst : ℕ) → Mem → Mem
copy_bytes zero src dst m = m
copy_bytes (suc n) src dst m = copy_bytes n (src + 1) (dst + 1) (write_byte m dst (read_byte m src))

-- The byte of a word with the weight 256^j.
abbrev digit : (j w : ℕ) → ℕ
digit j w = w / 256 ^ j % 256

-- A word whose byte with the weight 256^i is replaced.
abbrev with_digit : (i w b : ℕ) → ℕ
with_digit i w b = w / (256 ^ i * 256) * (256 ^ i * 256) + b * 256 ^ i + w % 256 ^ i

-- What holds of 0 to 7 holds below 8.
below_8 : (P : ℕ → Type 0) → P 0 → P 1 → P 2 → P 3 → P 4 → P 5 → P 6 → P 7 → (i : ℕ) → i < 8 → P i
below_8 P p0 p1 p2 p3 p4 p5 p6 p7 zero l = p0
below_8 P p0 p1 p2 p3 p4 p5 p6 p7 (suc zero) l = p1
below_8 P p0 p1 p2 p3 p4 p5 p6 p7 (suc (suc zero)) l = p2
below_8 P p0 p1 p2 p3 p4 p5 p6 p7 (suc (suc (suc zero))) l = p3
below_8 P p0 p1 p2 p3 p4 p5 p6 p7 (suc (suc (suc (suc zero)))) l = p4
below_8 P p0 p1 p2 p3 p4 p5 p6 p7 (suc (suc (suc (suc (suc zero))))) l = p5
below_8 P p0 p1 p2 p3 p4 p5 p6 p7 (suc (suc (suc (suc (suc (suc zero)))))) l = p6
below_8 P p0 p1 p2 p3 p4 p5 p6 p7 (suc (suc (suc (suc (suc (suc (suc zero))))))) l = p7
below_8 P p0 p1 p2 p3 p4 p5 p6 p7 (suc (suc (suc (suc (suc (suc (suc (suc i)))))))) l =
    absurd (omega arith)

digit-with_digit : (i : ℕ) → i < 8 → (w b : ℕ) → b < 256 → digit i (with_digit i w b) ≡ b
digit-with_digit =
    below_8 (λ i. (w b : ℕ) → b < 256 → digit i (with_digit i w b) ≡ b) (λ w b l. omega arith)
      (λ w b l. omega arith) (λ w b l. omega arith) (λ w b l. omega arith) (λ w b l. omega arith)
      (λ w b l. omega arith) (λ w b l. omega arith) (λ w b l. omega arith)

-- The bytes of a word but the `i`th are left as they were.
abbrev Others : ℕ → Type 0
Others i = (j : ℕ) → j < 8 → i ≢ j → (w b : ℕ) → b < 256 → digit j (with_digit i w b) ≡ digit j w

byte_0-Others : Others 0
byte_0-Others =
    below_8 (λ j. 0 ≢ j → (w b : ℕ) → b < 256 → digit j (with_digit 0 w b) ≡ digit j w)
      (λ ne w b l. absurd (ne refl)) (λ ne w b l. omega arith) (λ ne w b l. omega arith)
      (λ ne w b l. omega arith) (λ ne w b l. omega arith) (λ ne w b l. omega arith)
      (λ ne w b l. omega arith) (λ ne w b l. omega arith)

byte_1-Others : Others 1
byte_1-Others =
    below_8 (λ j. 1 ≢ j → (w b : ℕ) → b < 256 → digit j (with_digit 1 w b) ≡ digit j w)
      (λ ne w b l. omega arith) (λ ne w b l. absurd (ne refl)) (λ ne w b l. omega arith)
      (λ ne w b l. omega arith) (λ ne w b l. omega arith) (λ ne w b l. omega arith)
      (λ ne w b l. omega arith) (λ ne w b l. omega arith)

byte_2-Others : Others 2
byte_2-Others =
    below_8 (λ j. 2 ≢ j → (w b : ℕ) → b < 256 → digit j (with_digit 2 w b) ≡ digit j w)
      (λ ne w b l. omega arith) (λ ne w b l. omega arith) (λ ne w b l. absurd (ne refl))
      (λ ne w b l. omega arith) (λ ne w b l. omega arith) (λ ne w b l. omega arith)
      (λ ne w b l. omega arith) (λ ne w b l. omega arith)

byte_3-Others : Others 3
byte_3-Others =
    below_8 (λ j. 3 ≢ j → (w b : ℕ) → b < 256 → digit j (with_digit 3 w b) ≡ digit j w)
      (λ ne w b l. omega arith) (λ ne w b l. omega arith) (λ ne w b l. omega arith)
      (λ ne w b l. absurd (ne refl)) (λ ne w b l. omega arith) (λ ne w b l. omega arith)
      (λ ne w b l. omega arith) (λ ne w b l. omega arith)

byte_4-Others : Others 4
byte_4-Others =
    below_8 (λ j. 4 ≢ j → (w b : ℕ) → b < 256 → digit j (with_digit 4 w b) ≡ digit j w)
      (λ ne w b l. omega arith) (λ ne w b l. omega arith) (λ ne w b l. omega arith)
      (λ ne w b l. omega arith) (λ ne w b l. absurd (ne refl)) (λ ne w b l. omega arith)
      (λ ne w b l. omega arith) (λ ne w b l. omega arith)

byte_5-Others : Others 5
byte_5-Others =
    below_8 (λ j. 5 ≢ j → (w b : ℕ) → b < 256 → digit j (with_digit 5 w b) ≡ digit j w)
      (λ ne w b l. omega arith) (λ ne w b l. omega arith) (λ ne w b l. omega arith)
      (λ ne w b l. omega arith) (λ ne w b l. omega arith) (λ ne w b l. absurd (ne refl))
      (λ ne w b l. omega arith) (λ ne w b l. omega arith)

byte_6-Others : Others 6
byte_6-Others =
    below_8 (λ j. 6 ≢ j → (w b : ℕ) → b < 256 → digit j (with_digit 6 w b) ≡ digit j w)
      (λ ne w b l. omega arith) (λ ne w b l. omega arith) (λ ne w b l. omega arith)
      (λ ne w b l. omega arith) (λ ne w b l. omega arith) (λ ne w b l. omega arith)
      (λ ne w b l. absurd (ne refl)) (λ ne w b l. omega arith)

byte_7-Others : Others 7
byte_7-Others =
    below_8 (λ j. 7 ≢ j → (w b : ℕ) → b < 256 → digit j (with_digit 7 w b) ≡ digit j w)
      (λ ne w b l. omega arith) (λ ne w b l. omega arith) (λ ne w b l. omega arith)
      (λ ne w b l. omega arith) (λ ne w b l. omega arith) (λ ne w b l. omega arith)
      (λ ne w b l. omega arith) (λ ne w b l. absurd (ne refl))

digit-Others : (i : ℕ) → i < 8 → Others i
digit-Others =
    below_8 (λ i. Others i) byte_0-Others byte_1-Others byte_2-Others byte_3-Others byte_4-Others
      byte_5-Others byte_6-Others byte_7-Others

pub read_byte-same : (m : Mem) (a b : ℕ) → b < 256 → read_byte (write_byte m a b) a ≡ b
unfolding read_byte write_byte
read_byte-same m a b small =
    rw (eq→== (word_of a) (word_of a) refl)
      (digit-with_digit (a % 8) (omega arith) (m (word_of a)) b small)

pub read_byte-other :
    (m : Mem) (a b c : ℕ) → b < 256 → c ≢ a → read_byte (write_byte m a b) c ≡ read_byte m c
unfolding read_byte write_byte
read_byte-other m a b c small ne = elim (ℕ_discrete (word_of c) (word_of a)) [
  | no apart ↦ rw (ne→==_false (word_of c) (word_of a) apart) refl
  | yes same ↦ rw (eq→== (word_of c) (word_of a) same) (
      digit-Others (a % 8) (omega arith) (c % 8) (omega arith) (λ e. ne (omega arith))
        (m (word_of a)) b small
      ∙ ap (λ p. m p / weight c % 256) (sym same))
]

-- A word that has none of the byte is as it was.
pub write_byte-outside : (m : Mem) (a b p : ℕ) → p ≢ word_of a → write_byte m a b p ≡ m p
unfolding write_byte
write_byte-outside m a b p ne = rw (ne→==_false p (word_of a) ne) refl
