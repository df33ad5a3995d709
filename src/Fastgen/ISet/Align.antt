-- ===== src/Fastgen/ISet/Align.antt =====
-- Blocks of a power of two, as interval in cwm/fastgen/utils/iset.py aligns them.
use cwm.Prelude.{
  ℕ, zero, suc, ◌+◌, ◌-◌, ◌*◌, ◌/◌, ◌^◌, ◌≤◌, ◌<◌, ◌≡◌, refl, ap, sym, ◌∙◌, ◌&&◌, arith, leb, ltb,
}
use native.Mathlib.Numerals.{unary_clauses}
use cwm.Fastgen.ISet.{and_minus, digit_number, bit_length}
use cwm.Fastgen.ISet.Bits
use cwm.Fastgen.ISet.Bits.{mask, field, pow}
use cwm.Fastgen.ISet.Mask.{agree}

pub two_pow : (k : ℕ) → 2 ^ k ≡ pow k
two_pow zero = sym (Bits.pow_one)
two_pow (suc k) = simp unary_clauses (omega (arith, two_pow k, Bits.pow_double k))

pub field_lt : (k x : ℕ) → field 0 k x < pow k
unfolding field pow
field_lt zero x = omega arith
field_lt (suc k) x = omega (arith, field_lt k (x / 2))

-- A number with no more than k places.
pub field_all : (k x : ℕ) → x < pow k → field 0 k x ≡ x
unfolding field pow
field_all zero x h = omega arith
field_all (suc k) x h = omega (arith, field_all k (x / 2) (omega arith))

pub lt_pow : (x : ℕ) → x < pow x
lt_pow zero = omega (arith, Bits.pow_one)
lt_pow (suc x) = omega (arith, lt_pow x, Bits.pow_double x)

pub pow_le : (j k : ℕ) → j ≤ k → pow j ≤ pow k
unfolding pow
pow_le zero zero h = omega arith
pow_le (suc j) zero h = absurd (omega arith)
pow_le zero (suc k) h = omega (arith, pow_le zero k)
pow_le (suc j) (suc k) h = omega (arith, pow_le j k (omega arith))

-- The numbers of a block are those that agree with its first above its size.
pub agree_block :
    (e k x y : ℕ)
    → field e k y ≡ y
    → agree e k x y ≡ (leb y (field 0 k x) && ltb (field 0 k x) (y + pow e))
unfolding agree field pow
agree_block zero k x y h = ground arith
agree_block (suc e) zero x y h = ground (arith, Bits.pow_pos e)
agree_block (suc e) (suc k) x y h =
    let half : field e k (y / 2) ≡ y / 2 = omega arith in
    ground (arith, agree_block e k (x / 2) (y / 2) half)

pub and_minus-pow : (e x : ℕ) → and_minus x (pow e) ≡ x - field 0 e x
and_minus-pow e x =
    let p : pow e - 1 ≡ mask 0 e = omega (arith, Bits.mask-pow e) in
    rw (p, Bits.bit_and-mask 0 e x) refl

-- What is left of a number without its lower places.
pub field-align :
    (e k x : ℕ) → e ≤ k → x - field 0 e x < pow k → field e k (x - field 0 e x) ≡ x - field 0 e x
field-align e k x u h =
    let all = field_all (x + e) x (omega (arith, lt_pow x, pow_le x (x + e))) in
    let split = Bits.field_split 0 e (x + e) x (omega arith) (omega arith) in
    let rest : x - field 0 e x ≡ field e (x + e) x = omega arith in
    let under : field 0 e (x - field 0 e x) ≡ 0 =
      ap (field 0 e) rest ∙ Bits.field-field_under 0 e (x + e) x in
    let r = x - field 0 e x in
    omega (arith, under, field_all k r h, Bits.field_split 0 e k r (omega arith) u)

-- One block more changes no place below.
pub field-add_pow : (e x : ℕ) → field 0 e (x + pow e) ≡ field 0 e x
unfolding field pow
field-add_pow zero x = refl
field-add_pow (suc e) x =
    let half : (x + pow e * 2) / 2 ≡ x / 2 + pow e = omega arith in
    let r = ap (field 0 e) half in omega (arith, r, field-add_pow e (x / 2))

digit_number-zero : (fuel : ℕ) → digit_number fuel 0 ≡ 0
unfolding digit_number
digit_number-zero zero = refl
digit_number-zero (suc fuel) = refl

bit_length_in :
    (fuel n : ℕ)
    → 0 < n
    → n ≤ fuel
    → (e : ℕ) × (digit_number fuel n ≡ suc e) × (pow e ≤ n) × (n < pow (suc e))
unfolding digit_number pow
bit_length_in zero n h u = absurd (omega arith)
bit_length_in (suc fuel) zero h u = absurd (omega arith)
bit_length_in (suc fuel) (suc zero) h u =
    (0, ap suc (digit_number-zero fuel), omega arith, omega arith)
bit_length_in (suc fuel) (suc (suc n)) h u =
    let (e, p, q, r) = bit_length_in fuel (suc (suc n) / 2) (omega arith) (omega arith) in
    (suc e, ap suc p, omega arith, omega arith)

pub bit_length_lem :
    (n : ℕ) → 0 < n → (e : ℕ) × (bit_length n ≡ suc e) × (pow e ≤ n) × (n < pow (suc e))
bit_length_lem n h = bit_length_in n n h (omega arith)

-- The alignment of a block: the first multiple of its size from a on.
pub aligned :
    (e k a : ℕ)
    → e ≤ k
    → a + pow e ≤ pow k
    → let r = and_minus (a + pow e - 1) (pow e) in
      (a ≤ r) × (r < a + pow e) × (r < pow k) × (field e k r ≡ r)
aligned e k a u h =
    let x = a + pow e - 1 in
    let f = field_lt e x in
    let p = Bits.pow_pos e in
    rw (and_minus-pow e x)
      (omega arith, omega arith, omega arith, field-align e k x u (omega arith))

-- A block of half the size begins at most that size before.
pub aligned_half :
    (e a : ℕ)
    → and_minus (a + pow (suc e) - 1) (pow (suc e)) ≤ and_minus (a + pow e - 1) (pow e) + pow e
aligned_half e a =
    let x = a + pow (suc e) - 1 in
    let y = a + pow e - 1 in
    let p = Bits.pow_pos e in
    let d = Bits.pow_double e in
    let xy : x ≡ y + pow e = omega arith in
    let low = ap (field 0 e) xy ∙ field-add_pow e y in
    rw (and_minus-pow e y, and_minus-pow (suc e) x)
      (omega (arith, low, field_lt e y, Bits.field_split 0 e (suc e) x (omega arith) (omega arith)))
