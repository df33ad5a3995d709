-- ===== src/Fastgen/ISet/Union.antt =====
-- The union of two trees, Chk._union and Bit._union of cwm/fastgen/utils/iset.py.
mod Shift
mod Prefixes
mod Branches
pub use Prefixes.{both, Gives-same}
use Prefixes.{under, union_chk_lem, union_chk_run, le_cases}
use Branches.{union_bit_chk_lem, union_bit_lem}
use Prim.Native.Nat.{bit_and, bit_xor}
use cwm.Prelude.{
  ℕ, zero, suc, ◌+◌, ◌-◌, ◌*◌, ◌/◌, ◌%◌, ◌≤◌, ◌<◌, ◌≡◌, refl, ap, sym, ◌∙◌, Bool, true, false, ◌&&◌,
  ◌||◌, not, ◌⊎◌, inl, inr, arith, ◌==◌, ltb, Bool-cases, Option, none, some, if◌then◌else◌,
}
use cwm.Fastgen.ISet.{
  Node, mem, chk, bit, contains_in, mk_chk, mk_bit, branch, common, union_ones, union_chk,
  union_bit_chk, union_bit, union_in, union, levels, and_not, shift_ones, ◌>>=◌,
}
use cwm.Fastgen.ISet.Bits.{mask_double}
use cwm.Fastgen.ISet.Mask.{
  mask, field, agree, agree_same, agree_split, agree_both, agree_place, bit_and-agree, and_not-mask,
  mask_same, mask_pos, mask_lt, mask_lt-double, bit_and-two_masks, bit_and-mask_wide,
  bit_and-mask_upper,
}
use cwm.Fastgen.ISet.Tree.{
  IsTree, IsPrefix, IsBody, IsSome, Gives, gives, mk_chk_lem, mk_bit_lem, either,
}

contains_in-chk :
    (j k b : ℕ) (c : Node) (x : ℕ)
    → field j k b ≡ b
    → under j k b c x ≡ contains_in x (chk (mask j k) b c)
unfolding contains_in
contains_in-chk j k b c x h = ground (arith, bit_and-agree j k x b h)

-- What the union of two trees is: a tree with the members of both.
abbrev pub Unites : (Node → Node → Option Node) → ℕ → Type 0
Unites rec k = (s t : Node) → IsTree k s → IsTree k t → Gives k (rec s t) (both s t)

mem_union :
    (fuel k : ℕ) (b : Bool) (t : Node)
    → IsTree k t
    → Gives k (union_in (suc fuel) (mem b) t) (both (mem b) t)
unfolding union_in contains_in
mem_union fuel k true t w = gives (mem true) refl tt (λ x. refl)
mem_union fuel k false t w = gives t refl w (λ x. refl)

module _ (fuel k : ℕ) (u : k ≤ levels) (below : (l : ℕ) → l < k → Unites (union_in fuel) l) where
  chk_union :
      (i j ob sb : ℕ) (oc sc : Node)
      → i ≤ j
      → i < k
      → j < k
      → field i k ob ≡ ob
      → field j k sb ≡ sb
      → IsTree i oc
      → IsTree j sc
      → let s = chk (mask j k) sb sc in
        let o = chk (mask i k) ob oc in Gives k (union_in (suc fuel) s o) (both s o)
  unfolding union_in
  chk_union i j ob sb oc sc h a b p q t s =
      Gives-same
        (union_chk_lem (union_in fuel) k (λ l s' t' e. below l e s' t') i j ob sb oc sc h b u t s)
        (λ x. ground (arith, contains_in-chk i k ob oc x p, contains_in-chk j k sb sc x q))

module _ (fuel n : ℕ) (below : Unites (union_in fuel) n) where
  bit_chk_union :
      (i k ob : ℕ) (c d oc : Node)
      → k ≡ suc n
      → i < k
      → field i k ob ≡ ob
      → IsTree n c
      → IsTree n d
      → IsTree i oc
      → let s = bit (mask n k) c d in
        let o = chk (mask i k) ob oc in Gives k (union_in (suc fuel) s o) (both s o)
  unfolding union_in contains_in
  bit_chk_union i k ob c d oc e h p wc wd t =
      let p' = rw e at p in
      rw e (
        Gives-same (union_bit_chk_lem (union_in fuel) n below i ob c d oc (omega arith) wc wd t)
          (λ x. ground (arith, contains_in-chk i (suc n) ob oc x p')))

  bit_bit_union :
      (k : ℕ) (c d c' d' : Node)
      → k ≡ suc n
      → IsTree n c
      → IsTree n d
      → IsTree n c'
      → IsTree n d'
      → let s = bit (mask n k) c d in
        let o = bit (mask n k) c' d' in Gives k (union_in (suc fuel) s o) (both s o)
  unfolding union_in contains_in
  bit_bit_union k c d c' d' e wc wd wc' wd' =
      rw e (Gives-same (union_bit_lem (union_in fuel) n below c d c' d' wc wd wc' wd') (λ x. refl))

both_comm : (s t : Node) (x : ℕ) → both t s x ≡ both s t x
both_comm s t x = ground arith

le_or_lt : (i j : ℕ) → (i ≤ j) ⊎ (j < i)
le_or_lt i j = ground arith

-- Of two prefixes the one with the smaller mask comes first.
swap_run :
    (fuel i j k ob sb : ℕ) (oc sc : Node)
    → j < i
    → i ≤ k
    → union_chk (union_in (suc fuel)) (mask j k) sb sc (mask i k) ob oc
      ≡ union_in (suc fuel) (chk (mask i k) ob oc) (chk (mask j k) sb sc)
unfolding union_chk
swap_run fuel i j k ob sb oc sc h e = ground (arith, mask_lt j i k h e)

pub union_in_lem :
    (fuel k : ℕ) (s t : Node)
    → 2 * k + 1 ≤ fuel
    → k ≤ levels
    → IsTree k s
    → IsTree k t
    → Gives k (union_in fuel s t) (both s t)
unfolding union_in
union_in_lem zero k s t f u ws wt = absurd (omega arith)
union_in_lem (suc fuel) k (mem b) t f u ws wt = mem_union fuel k b t wt
union_in_lem (suc zero) k (chk m b c) t f u (j, p, _, _) wt = absurd (omega (arith, p.below))
union_in_lem (suc zero) k (bit m c d) t f u (n, e, _, _, _, _, _) wt = absurd (omega arith)
union_in_lem (suc (suc fuel)) k (chk m b c) (mem e) f u ws wt =
    Gives-same (mem_union fuel k e (chk m b c) ws) (both_comm (chk m b c) (mem e))
union_in_lem (suc (suc fuel)) k (chk m b c) (chk m' b' c') f u (j, p, _, w) (i, p', _, w') =
    rw (p.ones, p'.ones)
      (elim (le_or_lt i j) [
        | inl h ↦
            chk_union (suc fuel) k u
              (λ l a s t ws wt. union_in_lem (suc fuel) l s t (omega arith) (omega arith) ws wt) i j
              b' b c' c h p'.below p.below p'.fits p.fits w' w
        | inr h ↦ rw (swap_run fuel i j k b' b c' c h (omega (arith, p'.below))) (
            Gives-same
              (chk_union fuel k u
                (λ l a s t ws wt. union_in_lem fuel l s t (omega arith) (omega arith) ws wt) j i b
                b' c c' (omega arith) p.below p'.below p.fits p'.fits w w')
              (both_comm (chk (mask j k) b c) (chk (mask i k) b' c')))
      ])
union_in_lem (suc (suc fuel)) k (chk m b c) (bit m' c' d') f u (j, p, _, w)
      (n, e, o, _, _, wc, wd) =
    rw (p.ones, o)
      (Gives-same
        (bit_chk_union fuel n
          (λ s t ws wt. union_in_lem fuel n s t (omega arith) (omega arith) ws wt) j k b c' d' c e
          p.below p.fits wc wd w)
        (both_comm (chk (mask j k) b c) (bit (mask n k) c' d')))
union_in_lem (suc (suc fuel)) k (bit m c d) (mem e) f u ws wt =
    Gives-same (mem_union fuel k e (bit m c d) ws) (both_comm (bit m c d) (mem e))
union_in_lem (suc (suc fuel)) k (bit m c d) (chk m' b' c') f u (n, e, o, _, _, wc, wd)
      (i, p, _, w) =
    rw (p.ones, o)
      (bit_chk_union (suc fuel) n
        (λ s t ws wt. union_in_lem (suc fuel) n s t (omega arith) (omega arith) ws wt) i k b' c d c'
        e p.below p.fits wc wd w)
union_in_lem (suc (suc fuel)) k (bit m c d) (bit m' c' d') f u (n, e, o, _, _, wc, wd)
      (n', e', o', _, _, wc', wd') =
    let same : n' ≡ n = omega arith in
    let wc'' = rw same at wc' in
    let wd'' = rw same at wd' in
    rw (o, o', same)
      (bit_bit_union (suc fuel) n
        (λ s t ws wt. union_in_lem (suc fuel) n s t (omega arith) (omega arith) ws wt) k c d c' d' e
        wc wd wc'' wd'')

-- The fuel of union is enough for the 32 levels of a set.
pub union_lem :
    (k : ℕ) (s t : Node) → k ≤ levels → IsTree k s → IsTree k t → Gives k (union s t) (both s t)
unfolding union
union_lem k s t u ws wt = union_in_lem 65 k s t (omega arith) u ws wt
