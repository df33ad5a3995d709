-- ===== src/Fastgen/ISet/Count.antt =====
-- How many numbers a tree of cwm/fastgen/utils/iset.py has, and that len counts them.
use Prim.Native.Nat.{bit_and, min, max}
use cwm.Prelude.{
  ℕ, zero, suc, ◌+◌, ◌-◌, ◌≤◌, ◌<◌, ◌≡◌, refl, ap, sym, ◌∙◌, Bool, true, false, ◌&&◌, arith, ◌==◌,
  leb, ltb, Bool-cases, some, inl, inr, ◌⊎◌, if◌then◌else◌,
}
use cwm.Fastgen.BlockSet.{one}
use cwm.Fastgen.ISet.{Node, mem, chk, bit, contains_in, all_ones}
use cwm.Fastgen.ISet.Bits
use cwm.Fastgen.ISet.Bits.{mask, field, pow, pow_pos, pow_double, mask-pow}
use cwm.Fastgen.ISet.Mask.{agree, agree_same, agree_split, agree_place, bit_and-agree, and_not-mask}
use cwm.Fastgen.ISet.Tree.{IsTree, either}
use cwm.Fastgen.ISet.Sets.{len_in}
use cwm.Fastgen.ISet.Align.{field_all, field-add_pow}
use cwm.Fastgen.ISet.Interval.{between}

-- The numbers below 2 ^ k for which a test holds.
unfoldable pub number : ℕ → (ℕ → Bool) → ℕ
number zero P = one (P 0)
number (suc k) P = number k P + number k (λ x. P (x + pow k))

pub number_ext :
    (k : ℕ) (P Q : ℕ → Bool) → ((x : ℕ) → x < pow k → P x ≡ Q x) → number k P ≡ number k Q
unfolding number
number_ext zero P Q h = ap one (h 0 (pow_pos 0))
number_ext (suc k) P Q h =
    let lower = number_ext k P Q (λ x e. h x (omega (arith, pow_double k))) in
    let upper =
      number_ext k (λ x. P (x + pow k)) (λ x. Q (x + pow k))
        (λ x e. h (x + pow k) (omega (arith, pow_double k))) in
    omega arith

pub number_none : (k : ℕ) → number k (λ x. false) ≡ 0
unfolding number
number_none zero = refl
number_none (suc k) = omega (arith, number_none k)

pub number_all : (k : ℕ) → number k (λ x. true) ≡ pow k
unfolding number pow
number_all zero = refl
number_all (suc k) = omega (arith, number_all k)

-- The upper places of a number do not count.
field_low : (j k x y : ℕ) → field 0 k x ≡ field 0 k y → field j k x ≡ field j k y
field_low j k x y h = grind (arith, Bits.field-field 0 k j k x, Bits.field-field 0 k j k y)

low_low : (j k x y : ℕ) → j ≤ k → field 0 k x ≡ field 0 k y → field 0 j x ≡ field 0 j y
low_low j k x y u h = grind (arith, Bits.field-field_low 0 j k x u, Bits.field-field_low 0 j k y u)

agree_low : (j k x y b : ℕ) → field 0 k x ≡ field 0 k y → agree j k x b ≡ agree j k y b
unfolding agree
agree_low j k x y b h = ground (arith, field_low j k x y h)

pub contains_in_low :
    (k x y : ℕ) (t : Node)
    → IsTree k t
    → field 0 k x ≡ field 0 k y
    → contains_in x t ≡ contains_in y t
unfolding contains_in
contains_in_low k x y (mem b) w h = refl
contains_in_low k x y (chk m b c) (j, p, _, w) h =
    let e = p.below in
    rw p.ones (
      ground (
        arith,
        bit_and-agree j k x b p.fits,
        bit_and-agree j k y b p.fits,
        agree_low j k x y b h,
        contains_in_low j x y c w (low_low j k x y (omega arith) h),
      ))
contains_in_low k x y (bit m c d) (n, e, o, _, _, wc, wd) h =
    let u = low_low n k x y (omega arith) h in
    rw o (
      ground (
        arith,
        Bits.bit_and-mask n k x,
        Bits.bit_and-mask n k y,
        field_low n k x y h,
        contains_in_low n x y c wc u,
        contains_in_low n x y d wd u,
      ))

-- The two halves of the numbers below 2 ^ (k + 1).
lower_half : (k x : ℕ) → x < pow k → (bit_and x (mask k (suc k)) == 0) ≡ true
lower_half k x h =
    let all = field_all k x h in
    let all' = field_all (suc k) x (omega (arith, pow_double k)) in
    ground (
      arith,
      Bits.bit_and-mask k (suc k) x,
      Bits.field_split 0 k (suc k) x (omega arith) (omega arith),
    )

upper_half : (k x : ℕ) → x < pow k → (bit_and (x + pow k) (mask k (suc k)) == 0) ≡ false
upper_half k x h =
    let all = field-add_pow k x ∙ field_all k x h in
    let all' = field_all (suc k) (x + pow k) (omega (arith, pow_double k)) in
    ground (
      arith,
      Bits.bit_and-mask k (suc k) (x + pow k),
      Bits.field_split 0 k (suc k) (x + pow k) (omega arith) (omega arith),
      pow_pos k,
    )

pub number-either :
    (n : ℕ) (c d : Node)
    → IsTree n d
    → number (suc n) (either n c d)
      ≡ number n (λ x. contains_in x c) + number n (λ x. contains_in x d)
unfolding number
number-either n c d w =
    let lower =
      number_ext n (either n c d) (λ x. contains_in x c)
        (λ x h. ground (arith, lower_half n x h)) in
    let upper =
      number_ext n (λ x. either n c d (x + pow n)) (λ x. contains_in x d)
        (λ x h.
          ground
            (arith, upper_half n x h, contains_in_low n (x + pow n) x d w (field-add_pow n x))) in
    omega arith

abbrev pub under : ℕ → ℕ → ℕ → Node → ℕ → Bool
under j k b c x = agree j k x b && contains_in x c

under_whole : (k b : ℕ) (c : Node) → number k (under k k b c) ≡ number k (λ x. contains_in x c)
under_whole k b c =
    number_ext k (under k k b c) (λ x. contains_in x c) (λ x h. ground (arith, agree_same k x b))

le_cases : (j k : ℕ) → j ≤ suc k → (j ≤ k) ⊎ (j ≡ suc k)
le_cases j k h = ground arith

under_lower :
    (j k b x : ℕ) (c : Node)
    → j ≤ k
    → x < pow k
    → under j (suc k) b c x ≡ (if bit_and b (mask k (suc k)) == 0 then under j k b c x else false)
under_lower j k b x c h e =
    ground (arith, lower_half k x e, agree_split j k (suc k) x b h (omega arith), agree_place k x b)

under_upper :
    (j k b x : ℕ) (c : Node)
    → j ≤ k
    → IsTree j c
    → x < pow k
    → under j (suc k) b c (x + pow k)
      ≡ (if bit_and b (mask k (suc k)) == 0 then false else under j k b c x)
under_upper j k b x c h w e =
    let low = field-add_pow k x in
    ground (
      arith,
      upper_half k x e,
      agree_split j k (suc k) (x + pow k) b h (omega arith),
      agree_place k (x + pow k) b,
      agree_low j k (x + pow k) x b low,
      contains_in_low j (x + pow k) x c w (low_low j k (x + pow k) x h low),
    )

pub number-under :
    (j k b : ℕ) (c : Node)
    → j ≤ k
    → IsTree j c
    → number k (under j k b c) ≡ number j (λ x. contains_in x c)
unfolding number
number-under j zero b c h w = let e : j ≡ 0 = omega arith in rw e (under_whole 0 b c)
number-under j (suc k) b c h w = elim (le_cases j k h) [
  | inr e ↦ rw e (under_whole (suc k) b c)
  | inl e ↦
      let ih = number-under j k b c e w in
      let nothing = number_none k in
      let P = λ (x : ℕ). under j (suc k) b c x in
      let lower = λ (Q : ℕ → Bool) (q : (x : ℕ) → x < pow k → P x ≡ Q x). number_ext k P Q q in
      let upper = λ (Q : ℕ → Bool) (q : (x : ℕ) → x < pow k → P (x + pow k) ≡ Q x).
        number_ext k (λ x. P (x + pow k)) Q q in
      elim (Bool-cases (bit_and b (mask k (suc k)) == 0)) [
        | inl z ↦ omega (
          arith,
          lower (under j k b c) (λ x q. under_lower j k b x c e q ∙ rw z refl),
          upper (λ x. false) (λ x q. under_upper j k b x c e w q ∙ rw z refl),
        )
        | inr z ↦ omega (
          arith,
          lower (λ x. false) (λ x q. under_lower j k b x c e q ∙ rw z refl),
          upper (under j k b c) (λ x q. under_upper j k b x c e w q ∙ rw z refl),
        )
      ]
]

pub all_ones-mask : (k : ℕ) → all_ones (mask 0 k) ≡ true
all_ones-mask k =
    let one : mask 0 k + 1 ≡ mask k (suc k) = omega (arith, mask-pow k, Bits.mask_one k) in
    let all = field_all k (mask 0 k) (omega (arith, mask-pow k)) in
    let none_up = ap (field k (suc k)) (sym all) ∙ Bits.field-field_off 0 k (suc k) (mask 0 k) in
    rw one (ground (arith, Bits.bit_and-mask k (suc k) (mask 0 k), none_up))

abbrev pub size : ℕ → Node → ℕ
size k t = number k (λ x. contains_in x t)

pub size-chk :
    (j k b : ℕ) (c : Node)
    → j < k
    → field j k b ≡ b
    → IsTree j c
    → size k (chk (mask j k) b c) ≡ size j c
unfolding contains_in
size-chk j k b c h own w =
    number_ext k (λ x. contains_in x (chk (mask j k) b c)) (under j k b c)
      (λ x q. ground (arith, bit_and-agree j k x b own))
    ∙ number-under j k b c (omega arith) w

pub size-bit :
    (n : ℕ) (c d : Node)
    → IsTree n d
    → size (suc n) (bit (mask n (suc n)) c d) ≡ size n c + size n d
unfolding contains_in
size-bit n c d w = number-either n c d w

pub size-mem : (k : ℕ) (b : Bool) → size k (mem b) ≡ (if b then pow k else 0)
unfolding contains_in
size-mem k true = number_all k
size-mem k false = number_none k

pub len_in_lem : (k : ℕ) (t : Node) → IsTree k t → len_in (mask 0 k) t ≡ some (size k t)
unfolding len_in
len_in_lem k (mem b) w = ground (arith, all_ones-mask k, size-mem k b, mask-pow k)
len_in_lem k (chk m b c) (j, p, _, w) =
    let e = p.below in
    rw (p.ones, and_not-mask 0 j k (omega arith) (omega arith))
      (len_in_lem j c w ∙ ap some (sym (size-chk j k b c e p.fits w)))
len_in_lem k (bit m c d) (n, e, o, _, _, wc, wd) =
    rw
      (
        o,
        e,
        and_not-mask 0 n (suc n) (omega arith) (omega arith),
        len_in_lem n c wc,
        len_in_lem n d wd,
      )
      (ap some (sym (size-bit n c d wd)))

-- An interval has as many numbers as its bounds say.
number-window :
    (k a b o : ℕ) → number k (λ x. leb a (x + o) && ltb (x + o) b) ≡ min b (o + pow k) - max a o
unfolding number pow
number-window zero a b o = ground arith
number-window (suc k) a b o =
    let shift =
      number_ext k (λ x. leb a (x + pow k + o) && ltb (x + pow k + o) b)
        (λ x. leb a (x + (pow k + o)) && ltb (x + (pow k + o)) b) (λ x h. ground arith) in
    omega (arith, shift, number-window k a b o, number-window k a b (pow k + o))

pub number-between : (k a b : ℕ) → b ≤ pow k → number k (between a b k) ≡ b - a
number-between k a b h =
    let plain =
      number_ext k (between a b k) (λ x. leb a (x + 0) && ltb (x + 0) b)
        (λ x e. ground (arith, field_all k x e)) in
    omega (arith, plain, number-window k a b 0)
