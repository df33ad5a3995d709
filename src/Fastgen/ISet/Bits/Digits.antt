-- ===== src/Fastgen/ISet/Bits/Digits.antt =====
-- The bit operations, one binary digit at a time.
use Prim.Native.Nat.{
  max, min, differ, digits, bit_and, bit_or, bit_xor, bit_and-bitwise, bit_or-bitwise,
  bit_xor-bitwise,
}
use cwm.Prelude.{ℕ, zero, suc, ◌+◌, ◌*◌, ◌/◌, ◌%◌, ◌≤◌, ◌<◌, ◌↔◌, ◌≡◌, refl, ap, arith}

-- Fuel beyond the first number is not used.
enough :
    (z : ℕ → ℕ) (f : ℕ → ℕ → ℕ) (n a b fuel : ℕ)
    → a ≤ n
    → a ≤ fuel
    → digits z f fuel a b ≡ digits z f n a b
enough z f zero zero b zero h k = refl
enough z f zero zero b (suc fuel) h k = refl
enough z f zero (suc a) b fuel h k = absurd (omega arith)
enough z f (suc n) zero b zero h k = refl
enough z f (suc n) zero b (suc fuel) h k = refl
enough z f (suc n) (suc a) b zero h k = absurd (omega arith)
enough z f (suc n) (suc a) b (suc fuel) h k =
    omega (arith, enough z f n (suc a / 2) (b / 2) fuel (omega arith) (omega arith))

pub bit_and_step : (a b : ℕ) → bit_and a b ≡ bit_and (a / 2) (b / 2) * 2 + min (a % 2) (b % 2)
bit_and_step zero b = omega (arith, bit_and-bitwise 0 b, bit_and-bitwise 0 (b / 2))
bit_and_step (suc a) b = omega (
  arith,
  bit_and-bitwise (suc a) b,
  bit_and-bitwise (suc a / 2) (b / 2),
  enough (λ b. zero) min (suc a / 2) (suc a / 2) (b / 2) a (omega arith) (omega arith),
)

pub bit_or_step : (a b : ℕ) → bit_or a b ≡ bit_or (a / 2) (b / 2) * 2 + max (a % 2) (b % 2)
bit_or_step zero b = omega (arith, bit_or-bitwise 0 b, bit_or-bitwise 0 (b / 2))
bit_or_step (suc a) b = omega (
  arith,
  bit_or-bitwise (suc a) b,
  bit_or-bitwise (suc a / 2) (b / 2),
  enough (λ b. b) max (suc a / 2) (suc a / 2) (b / 2) a (omega arith) (omega arith),
)

pub bit_xor_step : (a b : ℕ) → bit_xor a b ≡ bit_xor (a / 2) (b / 2) * 2 + differ (a % 2) (b % 2)
bit_xor_step zero b = omega (arith, bit_xor-bitwise 0 b, bit_xor-bitwise 0 (b / 2))
bit_xor_step (suc a) b = omega (
  arith,
  bit_xor-bitwise (suc a) b,
  bit_xor-bitwise (suc a / 2) (b / 2),
  enough (λ b. b) differ (suc a / 2) (suc a / 2) (b / 2) a (omega arith) (omega arith),
)

bit_and-zero_below : (n x : ℕ) → x ≤ n → bit_and x 0 ≡ 0
bit_and-zero_below n zero h = bit_and-bitwise 0 0
bit_and-zero_below zero (suc x) h = absurd (omega arith)
bit_and-zero_below (suc n) (suc x) h =
    omega (arith, bit_and_step (suc x) 0, bit_and-zero_below n (suc x / 2) (omega arith))

pub bit_and-zero : (x : ℕ) → bit_and x 0 ≡ 0
bit_and-zero x = bit_and-zero_below x x (omega arith)

pub half_even : (m : ℕ) → m * 2 / 2 ≡ m
half_even m = omega arith

pub half_odd : (m : ℕ) → suc (m * 2) / 2 ≡ m
half_odd m = omega arith

pub half_digit : (m x : ℕ) → (m * 2 + x % 2) / 2 ≡ m
half_digit m x = omega arith

-- With a second number given by its lowest digit.
pub bit_and-even : (x m : ℕ) → bit_and x (m * 2) ≡ bit_and (x / 2) m * 2
bit_and-even x m = omega (arith, bit_and_step x (m * 2), ap (bit_and (x / 2)) (half_even m))

pub bit_and-odd : (x m : ℕ) → bit_and x (suc (m * 2)) ≡ bit_and (x / 2) m * 2 + x % 2
bit_and-odd x m = omega (arith, bit_and_step x (suc (m * 2)), ap (bit_and (x / 2)) (half_odd m))

pub zero-bit_or : (y : ℕ) → bit_or 0 y ≡ y
zero-bit_or y = bit_or-bitwise 0 y

bit_or-zero_below : (n x : ℕ) → x ≤ n → bit_or x 0 ≡ x
bit_or-zero_below n zero h = zero-bit_or 0
bit_or-zero_below zero (suc x) h = absurd (omega arith)
bit_or-zero_below (suc n) (suc x) h =
    omega (arith, bit_or_step (suc x) 0, bit_or-zero_below n (suc x / 2) (omega arith))

pub bit_or-zero : (x : ℕ) → bit_or x 0 ≡ x
bit_or-zero x = bit_or-zero_below x x (omega arith)

pub bit_or-even : (x y : ℕ) → bit_or (x * 2) (y * 2) ≡ bit_or x y * 2
bit_or-even x y = grind (arith, bit_or_step (x * 2) (y * 2), half_even x, half_even y)

pub bit_or-digit : (x y b : ℕ) → bit_or (x * 2) (y * 2 + b % 2) ≡ bit_or x y * 2 + b % 2
bit_or-digit x y b = grind (arith, bit_or_step (x * 2) (y * 2 + b % 2), half_even x, half_digit y b)

differ_bits : (a b : ℕ) → a < 2 → b < 2 → (differ a b < 2) × (differ a b ≡ 0 ↔ a ≡ b)
differ_bits zero b h k = ground arith
differ_bits (suc zero) zero h k = ground arith
differ_bits (suc zero) (suc zero) h k = ground arith
differ_bits (suc zero) (suc (suc b)) h k = absurd (omega arith)
differ_bits (suc (suc a)) b h k = absurd (omega arith)

pub half-bit_xor : (x y : ℕ) → bit_xor x y / 2 ≡ bit_xor (x / 2) (y / 2)
half-bit_xor x y =
    omega (arith, bit_xor_step x y, (differ_bits (x % 2) (y % 2) (omega arith) (omega arith)).0)

pub digit-bit_xor : (x y : ℕ) → bit_xor x y % 2 ≡ 0 ↔ x % 2 ≡ y % 2
digit-bit_xor x y =
    let d = differ_bits (x % 2) (y % 2) (omega arith) (omega arith) in
    ground (arith, bit_xor_step x y, d)
