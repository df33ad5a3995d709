-- ===== src/Fastgen/ISet/Mask.antt =====
-- The masks and prefixes of the nodes of cwm/fastgen/utils/iset.py: the places of a number from j up
-- to k, and two numbers that agree there.
use Prim.Native.Nat.{bit_and, bit_or, bit_xor}
use cwm.Prelude.{
  ℕ, zero, suc, ◌+◌, ◌*◌, ◌≤◌, ◌<◌, ◌≡◌, ap, sym, ◌∙◌, Bool, true, ◌&&◌, not, arith, ◌==◌,
  if◌then◌else◌,
}
use cwm.Fastgen.ISet.{and_not}
use cwm.Fastgen.ISet.Bits
pub use cwm.Fastgen.ISet.Bits.{mask, field, pow}

unfoldable pub agree : ℕ → ℕ → ℕ → ℕ → Bool
agree j k x y = field j k x == field j k y

pub mask_same : (k : ℕ) → mask k k ≡ 0
mask_same k = omega (arith, Bits.mask_split k k k)

pub field_same : (k x : ℕ) → field k k x ≡ 0
field_same k x = omega (arith, Bits.field_split k k k x)

pub agree_same : (k x y : ℕ) → agree k k x y ≡ true
unfolding agree
agree_same k x y = ground (arith, field_same k x, field_same k y)

pub agree_refl : (j k x : ℕ) → agree j k x x ≡ true
unfolding agree
agree_refl j k x = ground arith

pub agree_sym : (j k x y : ℕ) → agree j k x y ≡ agree j k y x
unfolding agree
agree_sym j k x y = ground arith

-- Numbers that agree are one number to a third.
pub agree_both : (j k x y z : ℕ) → agree j k y z ≡ true → agree j k x y ≡ agree j k x z
unfolding agree
agree_both j k x y z h = ground arith

pub agree_split : (j l k x y : ℕ) → j ≤ l → l ≤ k → agree j k x y ≡ (agree l k x y && agree j l x y)
unfolding agree
agree_split j l k x y h e = ground (
  arith,
  Bits.field_split j l k x h e,
  Bits.field_split j l k y h e,
  Bits.field-field j k l k x h (omega arith),
  Bits.field-field j k l k y h (omega arith),
  Bits.field-field_low j l k x e,
  Bits.field-field_low j l k y e,
)

-- The test of a node with the mask of the places.
pub bit_and-agree : (j k x y : ℕ) → field j k y ≡ y → (bit_and x (mask j k) == y) ≡ agree j k x y
unfolding agree
bit_and-agree j k x y h = ground (arith, Bits.bit_and-mask j k x)

pub mask_pos : (j k : ℕ) → j < k → 0 < mask j k
mask_pos j k h = omega (arith, Bits.mask_split j (suc j) k, Bits.mask_one j, Bits.pow_pos j)

pub mask_lt : (i j k : ℕ) → i < j → j ≤ k → mask j k < mask i k
mask_lt i j k h e = omega (arith, Bits.mask_split i j k, mask_pos i j h)

pub mask_le : (i j k : ℕ) → i ≤ j → j ≤ k → mask j k ≤ mask i k
mask_le i j k h e = omega (arith, Bits.mask_split i j k h e)

-- The assertion of Chk._union on the two masks.
pub mask_lt-double : (i j k : ℕ) → i ≤ k → j < k → mask i k < 2 * mask j k
mask_lt-double i j zero g h = elim h [ ]
mask_lt-double i j (suc k) g h = omega (
  arith,
  Bits.mask_split 0 i (suc k) (omega arith) g,
  Bits.mask_split j k (suc k) (omega arith) (omega arith),
  Bits.mask_one k,
  Bits.mask-pow (suc k),
  Bits.pow_double k,
)

pub bit_and-two_masks : (i j k : ℕ) → i ≤ j → bit_and (mask j k) (mask i k) ≡ mask j k
bit_and-two_masks i j k h =
    omega (arith, Bits.bit_and-mask i k (mask j k), Bits.field-mask i k j k h (omega arith))

-- A mask without its upper places.
pub and_not-mask : (j l k : ℕ) → j ≤ l → l ≤ k → and_not (mask j k) (mask l k) ≡ mask j l
and_not-mask j l k h e = omega (
  arith,
  Bits.bit_and-mask l k (mask j k),
  Bits.field-mask_low j l k h,
  Bits.mask_split j l k h e,
)

pub field-bit_or :
    (i j k x y : ℕ)
    → i ≤ j
    → j ≤ k
    → field i j y ≡ y
    → (bit_or (field j k x) y ≡ field j k x + y)
      × (field j k (bit_or (field j k x) y) ≡ field j k x)
      × (field i j (bit_or (field j k x) y) ≡ y)
      × (field i k (bit_or (field j k x) y) ≡ bit_or (field j k x) y)
field-bit_or i j k x y h e own = grind (
  arith,
  Bits.bit_or-field i j k x y,
  Bits.field-sum i j k x y,
  Bits.field_split i j k (bit_or (field j k x) y) h e,
)

-- A mask is a field of the number with all places set.
mask-field : (j k : ℕ) → field j k (mask 0 k) ≡ mask j k
mask-field j k = Bits.field-mask_low 0 j k (omega arith)

pub bit_and-mask_off : (i j k : ℕ) → bit_and (mask j k) (mask i j) ≡ 0
bit_and-mask_off i j k = grind (
  arith,
  Bits.bit_and-mask i j (mask j k),
  mask-field j k,
  Bits.field-field_under i j k (mask 0 k),
)

pub bit_or-mask : (i j k : ℕ) → i ≤ j → j ≤ k → bit_or (mask j k) (mask i j) ≡ mask i k
bit_or-mask i j k h e = grind (
  arith,
  Bits.bit_or-field i j k (mask 0 k) (mask 0 j),
  mask-field j k,
  mask-field i j,
  Bits.mask_split i j k h e,
)

agree_at : (j k x y z : ℕ) → field j k y ≡ field j k z → agree j k x y ≡ agree j k x z
unfolding agree
agree_at j k x y z h = rw h

-- A prefix of two parts.
pub agree_fields :
    (i j k x b b' w : ℕ)
    → i ≤ j
    → j ≤ k
    → field j k w ≡ field j k b
    → field i j w ≡ field i j b'
    → agree i k x w ≡ (agree j k x b && agree i j x b')
agree_fields i j k x b b' w h e p q =
    agree_split i j k x w h e ∙ ground (arith, agree_at j k x w b p, agree_at i j x w b' q)

pub bit_or-prefix :
    (i j k b b' : ℕ)
    → i ≤ j
    → j ≤ k
    → field j k b ≡ b
    → field i j b' ≡ b'
    → (field i k (bit_or b b') ≡ bit_or b b')
      × ((x : ℕ) → agree i k x (bit_or b b') ≡ (agree j k x b && agree i j x b'))
bit_or-prefix i j k b b' h e own own' =
    let w = field-bit_or i j k b b' h e own' in
    let w' = rw own at w in
    (w'.3, λ x. agree_fields i j k x b b' (bit_or b b') h e (w'.1 ∙ sym own) (w'.2 ∙ sym own'))

pub field_twice : (j k x : ℕ) → field j k (field j k x) ≡ field j k x
field_twice j k x = Bits.field-field j k j k x (omega arith) (omega arith)

pub agree-bit_and : (j k x b : ℕ) → agree j k x (bit_and b (mask j k)) ≡ agree j k x b
agree-bit_and j k x b =
    agree_at j k x (bit_and b (mask j k)) b (rw (Bits.bit_and-mask j k b) (field_twice j k b))

pub field-bit_and : (j k b : ℕ) → field j k (bit_and b (mask j k)) ≡ bit_and b (mask j k)
field-bit_and j k b = rw (Bits.bit_and-mask j k b) (field_twice j k b)

-- One place.
pub agree_one :
    (k x : ℕ) → agree k (suc k) x (mask k (suc k)) ≡ not (bit_and x (mask k (suc k)) == 0)
unfolding agree
agree_one k x = ground (
  arith,
  Bits.bit_and-mask k (suc k) x,
  Bits.field-mask_low k k (suc k) (omega arith),
  Bits.mask_one k,
  Bits.pow_pos k,
  Bits.field_one k x,
)

pub agree_zero : (k x : ℕ) → agree k (suc k) x 0 ≡ (bit_and x (mask k (suc k)) == 0)
unfolding agree
agree_zero k x = ground (arith, Bits.bit_and-mask k (suc k) x, Bits.field_of_zero k (suc k))

pub agree_place :
    (k x b : ℕ)
    → let high = mask k (suc k) in
      agree k (suc k) x b
      ≡ (if bit_and b high == 0 then bit_and x high == 0 else not (bit_and x high == 0))
unfolding agree
agree_place k x b = ground (
  arith,
  Bits.bit_and-mask k (suc k) x,
  Bits.bit_and-mask k (suc k) b,
  Bits.pow_pos k,
  Bits.field_one k x,
  Bits.field_one k b,
)

-- The test of the loop over `ones`.
pub bit_xor-agree :
    (j k l k' x y : ℕ)
    → j ≤ l
    → k ≤ k'
    → (bit_and (bit_and (bit_xor x y) (mask j k)) (mask l k') == 0) ≡ agree l k x y
unfolding agree
bit_xor-agree j k l k' x y h e = grind (
  arith,
  Bits.bit_and-mask j k (bit_xor x y),
  Bits.bit_and-mask l k' (field j k (bit_xor x y)),
  Bits.field-field j k l k' (bit_xor x y) h e,
  Bits.field-bit_xor l k x y,
)

pub bit_and-mask_wide : (j k l k' : ℕ) → j ≤ l → k ≤ k' → bit_and (mask l k') (mask j k) ≡ mask l k
bit_and-mask_wide j k l k' h e = Bits.bit_and-mask j k (mask l k') ∙ Bits.field-mask j k l k' h e

pub bit_and-mask_upper : (i j k : ℕ) → i ≤ j → bit_and (mask i k) (mask j k) ≡ mask j k
bit_and-mask_upper i j k h = Bits.bit_and-mask j k (mask i k) ∙ Bits.field-mask_low i j k h

-- A number below the places of a prefix, and a prefix with the next place not set.
pub field_under : (j k l x : ℕ) → field k l x ≡ x → field j k x ≡ 0
field_under j k l x h = ap (field j k) (sym h) ∙ Bits.field-field_under j k l x

pub field_down : (j k l x : ℕ) → j ≤ k → k ≤ l → field k l x ≡ x → field j l x ≡ x
field_down j k l x u v h = omega (arith, Bits.field_split j k l x u v, field_under j k l x h)

pub agree_under :
    (k l x y : ℕ) → field (suc k) l y ≡ y → agree k (suc k) x y ≡ (bit_and x (mask k (suc k)) == 0)
agree_under k l x y h =
    agree_at k (suc k) x y 0 (field_under k (suc k) l y h ∙ sym (Bits.field_of_zero k (suc k)))
    ∙ agree_zero k x

pub mask_own : (j k : ℕ) → field j k (mask j k) ≡ mask j k
mask_own j k = Bits.field-mask_low j j k (omega arith)
