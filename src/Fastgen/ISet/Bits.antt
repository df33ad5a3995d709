-- ===== src/Fastgen/ISet/Bits.antt =====
-- The bit operations of cwm/fastgen/utils/iset.py on masks of consecutive ones.
mod Digits
use Digits.{
  bit_and_step, bit_or_step, bit_xor_step, bit_and-zero, bit_and-even, bit_and-odd, half_even,
  half_odd, half_digit, bit_or-zero, zero-bit_or, bit_or-even, bit_or-digit, half-bit_xor,
  digit-bit_xor,
}
use Prim.Native.Nat.{bit_and, bit_or, bit_xor}
use cwm.Prelude.{
  ℕ, zero, suc, ◌+◌, ◌-◌, ◌*◌, ◌/◌, ◌%◌, ◌≤◌, ◌<◌, ◌≡◌, refl, ap, Bool, true, false, ◌&&◌, ◌↔◌, ◌⊎◌,
  arith, ◌==◌,
}

-- The ones from place j up to place k, which is left out.
unfoldable pub mask : ℕ → ℕ → ℕ
mask zero zero = 0
mask zero (suc k) = suc (mask zero k * 2)
mask (suc j) zero = 0
mask (suc j) (suc k) = mask j k * 2

-- The digits of a number at those places.
unfoldable pub field : ℕ → ℕ → ℕ → ℕ
field zero zero x = 0
field zero (suc k) x = field zero k (x / 2) * 2 + x % 2
field (suc j) zero x = 0
field (suc j) (suc k) x = field j k (x / 2) * 2

pub bit_and-mask : (j k x : ℕ) → bit_and x (mask j k) ≡ field j k x
unfolding mask field
bit_and-mask zero zero x = bit_and-zero x
bit_and-mask zero (suc k) x =
    omega (arith, bit_and-odd x (mask zero k), bit_and-mask zero k (x / 2))
bit_and-mask (suc j) zero x = bit_and-zero x
bit_and-mask (suc j) (suc k) x = omega (arith, bit_and-even x (mask j k), bit_and-mask j k (x / 2))

mask_above : (l : ℕ) → mask l 0 ≡ 0
unfolding mask
mask_above zero = refl
mask_above (suc l) = refl

pub mask_split : (j l k : ℕ) → j ≤ l → l ≤ k → mask j l + mask l k ≡ mask j k
unfolding mask
mask_split zero zero k h e = omega arith
mask_split zero (suc l) zero h e = absurd (omega arith)
mask_split zero (suc l) (suc k) h e = omega (arith, mask_split zero l k (omega arith) (omega arith))
mask_split (suc j) zero k h e = absurd (omega arith)
mask_split (suc j) (suc l) zero h e = absurd (omega arith)
mask_split (suc j) (suc l) (suc k) h e = omega (arith, mask_split j l k (omega arith) (omega arith))

pub field_split : (j l k x : ℕ) → j ≤ l → l ≤ k → field j l x + field l k x ≡ field j k x
unfolding field
field_split zero zero k x h e = omega arith
field_split zero (suc l) zero x h e = absurd (omega arith)
field_split zero (suc l) (suc k) x h e =
    omega (arith, field_split zero l k (x / 2) (omega arith) (omega arith))
field_split (suc j) zero k x h e = absurd (omega arith)
field_split (suc j) (suc l) zero x h e = absurd (omega arith)
field_split (suc j) (suc l) (suc k) x h e =
    omega (arith, field_split j l k (x / 2) (omega arith) (omega arith))

pub field_of_zero : (j k : ℕ) → field j k 0 ≡ 0
unfolding field
field_of_zero zero zero = refl
field_of_zero zero (suc k) = omega (arith, field_of_zero zero k)
field_of_zero (suc j) zero = refl
field_of_zero (suc j) (suc k) = omega (arith, field_of_zero j k)

pub field_above : (l x : ℕ) → field l 0 x ≡ 0
unfolding field
field_above zero x = refl
field_above (suc l) x = refl

-- A field of a field, from a higher place or up to a lower one.
pub field-field : (j k l k' x : ℕ) → j ≤ l → k ≤ k' → field l k' (field j k x) ≡ field l k x
unfolding field
field-field zero zero l k' x h e = ground (arith, field_of_zero l k', field_above l x)
field-field zero (suc k) l zero x h e = absurd (omega arith)
field-field zero (suc k) zero (suc k') x h e = grind (arith, field-field zero k zero k' (x / 2))
field-field zero (suc k) (suc l) (suc k') x h e = grind (arith, field-field zero k l k' (x / 2))
field-field (suc j) k zero k' x h e = absurd (omega arith)
field-field (suc j) zero (suc l) k' x h e = ground (arith, field_of_zero (suc l) k')
field-field (suc j) (suc k) (suc l) zero x h e = absurd (omega arith)
field-field (suc j) (suc k) (suc l) (suc k') x h e = grind (arith, field-field j k l k' (x / 2))

pub field-field_low : (j l k x : ℕ) → l ≤ k → field j l (field j k x) ≡ field j l x
unfolding field
field-field_low j zero k x h = ground (arith, field_above j (field j k x), field_above j x)
field-field_low j (suc l) zero x h = absurd (omega arith)
field-field_low zero (suc l) (suc k) x h = grind (arith, field-field_low zero l k (x / 2))
field-field_low (suc j) (suc l) (suc k) x h = grind (arith, field-field_low j l k (x / 2))

-- A field of the places below another.
pub field-field_off : (i j k x : ℕ) → field j k (field i j x) ≡ 0
unfolding field
field-field_off zero zero k x = field_of_zero 0 k
field-field_off i j zero x = field_above j (field i j x)
field-field_off zero (suc j) (suc k) x = grind (arith, field-field_off zero j k (x / 2))
field-field_off (suc i) zero (suc k) x = field_of_zero 0 (suc k)
field-field_off (suc i) (suc j) (suc k) x = grind (arith, field-field_off i j k (x / 2))

pub field-mask : (j k l k' : ℕ) → j ≤ l → k ≤ k' → field j k (mask l k') ≡ mask l k
unfolding field mask
field-mask j zero l k' h e = ground (arith, field_above j (mask l k'), mask_above l)
field-mask j (suc k) l zero h e = absurd (omega arith)
field-mask zero (suc k) zero (suc k') h e = grind (arith, field-mask zero k zero k')
field-mask zero (suc k) (suc l) (suc k') h e = grind (arith, field-mask zero k l k')
field-mask (suc j) (suc k) zero (suc k') h e = absurd (omega arith)
field-mask (suc j) (suc k) (suc l) (suc k') h e = grind (arith, field-mask j k l k')

pub field-mask_low : (j l k : ℕ) → j ≤ l → field l k (mask j k) ≡ mask l k
unfolding field mask
field-mask_low j l zero h = ground (arith, field_above l (mask j 0), mask_above l)
field-mask_low zero zero (suc k) h = grind (arith, field-mask_low zero zero k)
field-mask_low zero (suc l) (suc k) h = grind (arith, field-mask_low zero l k)
field-mask_low (suc j) zero (suc k) h = absurd (omega arith)
field-mask_low (suc j) (suc l) (suc k) h = grind (arith, field-mask_low j l k)

-- Numbers with no digit at a common place.
pub bit_or-field : (i j k x y : ℕ) → bit_or (field j k x) (field i j y) ≡ field j k x + field i j y
unfolding field
bit_or-field i zero k x y = ground (arith, field_above i y, bit_or-zero (field 0 k x))
bit_or-field i (suc j) zero x y = omega (arith, zero-bit_or (field i (suc j) y))
bit_or-field zero (suc j) (suc k) x y = omega (
  arith,
  bit_or-digit (field j k (x / 2)) (field zero j (y / 2)) y,
  bit_or-field zero j k (x / 2) (y / 2),
)
bit_or-field (suc i) (suc j) (suc k) x y =
    omega (
      arith,
      bit_or-even (field j k (x / 2)) (field i j (y / 2)),
      bit_or-field i j k (x / 2) (y / 2),
    )

-- The exclusive or has no digit where the two agree.
pub field-bit_xor : (j k x y : ℕ) → field j k (bit_xor x y) ≡ 0 ↔ field j k x ≡ field j k y
unfolding field
field-bit_xor zero zero x y = ground arith
field-bit_xor zero (suc k) x y =
    grind (arith, field-bit_xor zero k (x / 2) (y / 2), half-bit_xor x y, digit-bit_xor x y)
field-bit_xor (suc j) zero x y = ground arith
field-bit_xor (suc j) (suc k) x y =
    grind (arith, field-bit_xor j k (x / 2) (y / 2), half-bit_xor x y)

-- The value of the place k.
unfoldable pub pow : ℕ → ℕ
pow zero = 1
pow (suc k) = pow k * 2

pub mask-pow : (k : ℕ) → suc (mask 0 k) ≡ pow k
unfolding mask pow
mask-pow zero = refl
mask-pow (suc k) = omega (arith, mask-pow k)

pub mask_one : (k : ℕ) → mask k (suc k) ≡ pow k
unfolding mask pow
mask_one zero = refl
mask_one (suc k) = omega (arith, mask_one k)

pub pow_pos : (k : ℕ) → 0 < pow k
unfolding pow
pow_pos zero = omega arith
pow_pos (suc k) = omega (arith, pow_pos k)

-- A field of one place.
pub field_one : (k x : ℕ) → (field k (suc k) x ≡ 0) ⊎ (field k (suc k) x ≡ pow k)
unfolding field pow
field_one zero x = ground arith
field_one (suc k) x = ground (arith, field_one k (x / 2))

-- The mask with its place doubled.
pub mask_double : (j k : ℕ) → mask (suc j) (suc k) ≡ mask j k * 2
unfolding mask
mask_double j k = refl

pub pow_double : (k : ℕ) → pow (suc k) ≡ pow k * 2
unfolding pow
pow_double k = refl

half_sum : (a b y : ℕ) → (a * 2 + (b * 2 + y % 2)) / 2 ≡ a + b
half_sum a b y = omega arith

half_sum_even : (a b : ℕ) → (a * 2 + b * 2) / 2 ≡ a + b
half_sum_even a b = omega arith

-- The two parts of a number that is their sum.
pub field-sum :
    (i j k x y : ℕ)
    → (field j k (field j k x + field i j y) ≡ field j k x)
      × (field i j (field j k x + field i j y) ≡ field i j y)
unfolding field
field-sum i zero k x y = grind (arith, field_above i, field-field 0 k 0 k x)
field-sum i (suc j) zero x y = grind (arith, field-field i (suc j) i (suc j) y)
field-sum zero (suc j) (suc k) x y = grind (
  arith,
  field-sum zero j k (x / 2) (y / 2),
  half_sum (field j k (x / 2)) (field zero j (y / 2)) y,
)
field-sum (suc i) (suc j) (suc k) x y =
    grind (
      arith,
      field-sum i j k (x / 2) (y / 2),
      half_sum_even (field j k (x / 2)) (field i j (y / 2)),
    )

-- A field of the places above another.
pub field-field_under : (i j k x : ℕ) → field i j (field j k x) ≡ 0
unfolding field
field-field_under i zero k x = field_above i (field 0 k x)
field-field_under i (suc j) zero x = field_of_zero i (suc j)
field-field_under zero (suc j) (suc k) x = grind (arith, field-field_under zero j k (x / 2))
field-field_under (suc i) (suc j) (suc k) x = grind (arith, field-field_under i j k (x / 2))

pub pow_one : pow 0 ≡ 1
unfolding pow
pow_one = refl

pub field_le-mask : (j k x : ℕ) → field j k x ≤ mask j k
unfolding field mask
field_le-mask zero zero x = omega arith
field_le-mask zero (suc k) x = omega (arith, field_le-mask zero k (x / 2))
field_le-mask (suc j) zero x = omega arith
field_le-mask (suc j) (suc k) x = omega (arith, field_le-mask j k (x / 2))
