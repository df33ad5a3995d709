-- ===== src/Fastgen/ISet/Tree.antt =====
-- The trees that cwm/fastgen/utils/iset.py builds, by the number of places left: a prefix holds the
-- upper places of its members, a branch the uppermost. Chk._mk and Bit._mk keep them.
use Prim.Native.Nat.{bit_and, bit_or}
use cwm.Prelude.{
  ℕ, zero, suc, ◌+◌, ◌/◌, ◌%◌, ◌≤◌, ◌<◌, ◌≡◌, refl, sym, ◌∙◌, Bool, true, false, ◌&&◌, ◌⊎◌, inl,
  inr, arith, ◌==◌, Bool-cases, Option, some, if◌then◌else◌,
}
use cwm.Fastgen.ISet.{
  Node, mem, chk, bit, empty, contains_in, mk_chk, chk_join, mk_bit, is_empty, same, bit_count,
  digit_sum,
}
use cwm.Fastgen.ISet.Bits.{mask_one, pow_pos, pow_double, pow_one}
use cwm.Fastgen.ISet.Mask.{
  mask, field, pow, agree, agree_same, agree_one, agree_zero, bit_and-agree, mask_same, mask_pos,
  bit_and-mask_off, bit_or-mask, bit_or-prefix, field-bit_and, agree-bit_and,
}

-- What stands below a prefix: not the empty set, and no second prefix.
abbrev pub IsBody : Node → Type 0
IsBody (mem b) = b ≡ true
IsBody (chk m b c) = ⊥
IsBody (bit m c d) = Unit

abbrev pub IsSome : Node → Type 0
IsSome t = is_empty t ≡ false

pub record IsPrefix (k m b : ℕ) (j : ℕ) : Type 0 where
  pub below : j < k
  pub ones : m ≡ mask j k
  pub fits : field j k b ≡ b

abbrev pub IsTree : ℕ → Node → Type 0
IsTree k (mem b) = Unit
IsTree k (chk m b c) = (j : ℕ) × IsPrefix k m b j × IsBody c × IsTree j c
IsTree k (bit m c d) =
    (j : ℕ) × (k ≡ suc j) × (m ≡ mask j k) × IsSome c × IsSome d × IsTree j c × IsTree j d

-- The result is a tree, and its members are those of P.
pub record Gives (k : ℕ) (o : Option Node) (P : ℕ → Bool) : Type 0 where
  pub tree : Node
  pub made : o ≡ some tree
  pub well : IsTree k tree
  pub member : (x : ℕ) → contains_in x tree ≡ P x

pub gives :
    {k : ℕ} {o : Option Node} {P : ℕ → Bool} (t : Node)
    → o ≡ some t
    → IsTree k t
    → ((x : ℕ) → contains_in x t ≡ P x)
    → Gives k o P
gives t e w m = record { tree = t; made = e; well = w; member = m }

pub prefix : {k b : ℕ} (j : ℕ) → j < k → field j k b ≡ b → IsPrefix k (mask j k) b j
prefix j h e = record { below = h; ones = refl; fits = e }

chk_join_chk :
    (i j k b b' : ℕ) (c : Node)
    → i < j
    → j < k
    → field j k b ≡ b
    → field i j b' ≡ b'
    → IsBody c
    → IsTree i c
    → Gives k
        (chk_join (mask j k) b (chk (mask i j) b' c))
        (λ x. agree j k x b && contains_in x (chk (mask i j) b' c))
unfolding contains_in agree
chk_join_chk i j k b b' c h e own own' body t =
    let w = bit_or-prefix i j k b b' (omega arith) (omega arith) own own' in
    gives (chk (mask i k) (bit_or b b') c)
      (ground (arith, bit_and-mask_off i j k, bit_or-mask i j k (omega arith) (omega arith)))
      (i, prefix i (omega arith) w.0, body, t)
      (λ x.
        ground (arith, bit_and-agree i k x (bit_or b b') w.0, bit_and-agree i j x b' own', w.1 x))

chk_join_lem :
    (j k b : ℕ) (c : Node)
    → j < k
    → field j k b ≡ b
    → IsSome c
    → IsTree j c
    → Gives k (chk_join (mask j k) b c) (λ x. agree j k x b && contains_in x c)
unfolding contains_in
chk_join_lem j k b (mem e) h own s t =
    gives (chk (mask j k) b (mem e)) refl (j, prefix j h own, ground arith, tt)
      (λ x. ground (arith, bit_and-agree j k x b own))
chk_join_lem j k b (chk m' b' c) h own s (i, p, body, t) =
    rw p.ones (chk_join_chk i j k b b' c p.below h own p.fits body t)
chk_join_lem j k b (bit m' c d) h own s t =
    gives (chk (mask j k) b (bit m' c d)) refl (j, prefix j h own, tt, t)
      (λ x. ground (arith, bit_and-agree j k x b own))

le_cases : (j k : ℕ) → j ≤ k → (j ≡ k) ⊎ (j < k)
le_cases j k h = ground arith

and_false : (b : Bool) → (b && false) ≡ false
and_false true = refl
and_false false = refl

mk_chk_whole :
    (k b : ℕ) (c : Node)
    → IsTree k c
    → Gives k (mk_chk (mask k k) b c) (λ x. agree k k x b && contains_in x c)
unfolding mk_chk
mk_chk_whole k b c t =
    gives c (ground (arith, mask_same k)) t (λ x. ground (arith, agree_same k x b))

mk_chk_some :
    (j k b : ℕ) (c : Node)
    → j ≤ k
    → IsTree j c
    → IsSome c
    → Gives k (mk_chk (mask j k) b c) (λ x. agree j k x b && contains_in x c)
unfolding mk_chk
mk_chk_some j k b c h t s = elim (le_cases j k h) [
  | inl e ↦ rw (sym e) (mk_chk_whole j b c t)
  | inr e ↦
      let g = chk_join_lem j k (bit_and b (mask j k)) c e (field-bit_and j k b) s t in
      gives g.tree (ground (arith, mask_pos j k e, g.made)) g.well
        (λ x. g.member x ∙ rw (agree-bit_and j k x b))
]

pub mk_chk_lem :
    (j k b : ℕ) (c : Node)
    → j ≤ k
    → IsTree j c
    → Gives k (mk_chk (mask j k) b c) (λ x. agree j k x b && contains_in x c)
unfolding mk_chk contains_in
mk_chk_lem j k b (mem false) h t =
    gives empty (ground arith) tt (λ x. sym (and_false (agree j k x b)))
mk_chk_lem j k b (mem true) h t = mk_chk_some j k b (mem true) h t refl
mk_chk_lem j k b (chk m' b' c) h t = mk_chk_some j k b (chk m' b' c) h t refl
mk_chk_lem j k b (bit m' c d) h t = mk_chk_some j k b (bit m' c d) h t refl

digit_sum-zero : (fuel : ℕ) → digit_sum fuel 0 ≡ 0
unfolding digit_sum
digit_sum-zero zero = refl
digit_sum-zero (suc fuel) = refl

digit_sum_step : (fuel n : ℕ) → 0 < n → digit_sum (suc fuel) n ≡ digit_sum fuel (n / 2) + n % 2
unfolding digit_sum
digit_sum_step fuel zero h = absurd (omega arith)
digit_sum_step fuel (suc n) h = refl

half_pow : (k : ℕ) → (pow (suc k) / 2 ≡ pow k) × (pow (suc k) % 2 ≡ 0)
half_pow k = rw (pow_double k) (omega arith, omega arith)

digit_sum-pow : (k fuel : ℕ) → pow k ≤ fuel → digit_sum fuel (pow k) ≡ 1
digit_sum-pow k zero h = absurd (omega (arith, pow_pos k))
digit_sum-pow zero (suc fuel) h =
    rw pow_one (digit_sum_step fuel 1 (omega arith) ∙ omega (arith, digit_sum-zero fuel))
digit_sum-pow (suc k) (suc fuel) h =
    let s = digit_sum_step fuel (pow (suc k)) (pow_pos (suc k)) in
    let r = rw (half_pow k).0 at s in
    omega (
      arith,
      r,
      (half_pow k).1,
      pow_double k,
      pow_pos k,
      digit_sum-pow k fuel (omega (arith, pow_double k, pow_pos k)),
    )

pub bit_count-mask : (k : ℕ) → bit_count (mask k (suc k)) ≡ 1
bit_count-mask k = rw (mask_one k) (digit_sum-pow k (pow k) (omega arith))

same-IsTree : (k : ℕ) (c d : Node) → same c d ≡ true → IsTree k c
same-IsTree k (mem e) d h = tt
same-IsTree k (chk m b c) (mem e) h = cc
same-IsTree k (chk m b c) (chk m' b' c') h = cc
same-IsTree k (chk m b c) (bit m' c' d') h = cc
same-IsTree k (bit m b c) (mem e) h = cc
same-IsTree k (bit m b c) (chk m' b' c') h = cc
same-IsTree k (bit m b c) (bit m' c' d') h = cc

contains_in-same : (x : ℕ) (c d : Node) → same c d ≡ true → contains_in x c ≡ contains_in x d
unfolding contains_in
contains_in-same x (mem true) (mem true) h = refl
contains_in-same x (mem true) (mem false) h = cc
contains_in-same x (mem false) (mem true) h = cc
contains_in-same x (mem false) (mem false) h = refl
contains_in-same x (mem true) (chk m b c) h = cc
contains_in-same x (mem false) (chk m b c) h = cc
contains_in-same x (mem true) (bit m c d) h = cc
contains_in-same x (mem false) (bit m c d) h = cc
contains_in-same x (chk m b c) (mem e) h = cc
contains_in-same x (chk m b c) (chk m' b' c') h = cc
contains_in-same x (chk m b c) (bit m' c' d') h = cc
contains_in-same x (bit m b c) (mem e) h = cc
contains_in-same x (bit m b c) (chk m' b' c') h = cc
contains_in-same x (bit m b c) (bit m' c' d') h = cc

contains_in-empty : (x : ℕ) (c : Node) → is_empty c ≡ true → contains_in x c ≡ false
unfolding contains_in
contains_in-empty x (mem e) h = ground arith
contains_in-empty x (chk m b c) h = cc
contains_in-empty x (bit m b c) h = cc

-- The members of a branch.
abbrev pub either : ℕ → Node → Node → ℕ → Bool
either j c d x = if bit_and x (mask j (suc j)) == 0 then contains_in x c else contains_in x d

pub mk_bit_lem :
    (j : ℕ) (c d : Node)
    → IsTree j c
    → IsTree j d
    → Gives (suc j) (mk_bit (mask j (suc j)) c d) (either j c d)
unfolding mk_bit
mk_bit_lem j c d s t =
    let one = bit_count-mask j in
    let high = mk_chk_lem j (suc j) (mask j (suc j)) d (omega arith) t in
    let low = mk_chk_lem j (suc j) 0 c (omega arith) s in
    elim (Bool-cases (same c d)) [
      | inl e ↦
          gives c (ground arith) (same-IsTree (suc j) c d e)
            (λ x. ground (arith, contains_in-same x c d e))
      | inr e ↦ elim (Bool-cases (is_empty c)) [
        | inl f ↦
            gives high.tree (ground (arith, high.made)) high.well
              (λ x. ground (arith, high.member x, agree_one j x, contains_in-empty x c f))
        | inr f ↦ elim (Bool-cases (is_empty d)) [
          | inl g ↦
              gives low.tree (ground (arith, low.made)) low.well
                (λ x. ground (arith, low.member x, agree_zero j x, contains_in-empty x d g))
          | inr g ↦
              unfold contains_in in
              gives (bit (mask j (suc j)) c d) (ground arith) (j, refl, refl, f, g, s, t)
                (λ x. ground arith)
        ]
      ]
    ]
