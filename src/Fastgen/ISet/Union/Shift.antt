-- ===== src/Fastgen/ISet/Union/Shift.antt =====
-- The loop of Chk._union (cwm/fastgen/utils/iset.py) over `ones`: it drops places from below until
-- the two prefixes agree on what is left.
use Prim.Native.Nat.{bit_and, bit_xor}
use cwm.Prelude.{
  ℕ, zero, suc, ◌+◌, ◌≤◌, ◌<◌, ◌≡◌, refl, ◌∙◌, true, false, ◌⊎◌, inl, inr, arith, ◌==◌, Bool-cases,
}
use cwm.Fastgen.ISet.{shift_ones}
use cwm.Fastgen.ISet.Bits.{mask_double}
use cwm.Fastgen.ISet.Mask.{mask, agree, agree_same, bit_xor-agree}

-- The place below the last one reached, where the prefixes still differ.
pub record Differs (j k s o l k' : ℕ) : Type 0 where
  pub p : ℕ
  pub q : ℕ
  pub is_l : l ≡ suc p
  pub is_k : k' ≡ suc q
  pub from : j ≤ p
  pub wide : k ≤ q
  pub apart : agree p k s o ≡ false

pub record Shifted (j k s o ones : ℕ) : Type 0 where
  pub l : ℕ
  pub k' : ℕ
  pub from : j ≤ l
  pub upto : l ≤ k
  pub wide : k ≤ k'
  pub is_mask : ones ≡ mask l k'
  pub common : agree l k s o ≡ true
  pub back : (l ≡ j) ⊎ Differs j k s o l k'

module _ (j k s o : ℕ) where
  abbrev pub diff : ℕ
  diff = bit_and (bit_xor s o) (mask j k)

  stop :
      (fuel l k' : ℕ)
      → bit_and diff (mask l k') ≡ 0
      → shift_ones (suc fuel) diff (mask l k') ≡ mask l k'
  unfolding shift_ones
  stop fuel l k' h = ground arith

  go :
      (fuel l k' : ℕ)
      → (bit_and diff (mask l k') == 0) ≡ false
      → shift_ones (suc fuel) diff (mask l k') ≡ shift_ones fuel diff (mask (suc l) (suc k'))
  unfolding shift_ones
  go fuel l k' h = ground (arith, mask_double l k')

  -- At the place k there is nothing left to differ.
  apart_lt : (l : ℕ) → l ≤ k → agree l k s o ≡ false → suc l ≤ k
  apart_lt l h e = ground (arith, agree_same k s o)

  shift_from :
      (fuel l k' : ℕ)
      → j ≤ l
      → l ≤ k
      → k ≤ k'
      → k < l + fuel
      → (l ≡ j) ⊎ Differs j k s o l k'
      → Shifted j k s o (shift_ones fuel diff (mask l k'))
  shift_from zero l k' a b c f h = absurd (omega arith)
  shift_from (suc fuel) l k' a b c f h =
      let t = bit_xor-agree j k l k' s o a c in
      elim (Bool-cases (agree l k s o)) [
        | inl e ↦ record {
          l = l;
          k' = k';
          from = a;
          upto = b;
          wide = c;
          is_mask = stop fuel l k' (ground arith);
          common = e;
          back = h;
        }
        | inr e ↦ rw (go fuel l k' (t ∙ e)) (
            shift_from fuel (suc l) (suc k') (omega arith) (apart_lt l b e) (omega arith)
              (omega arith)
              (inr (record {
                p = l;
                q = k';
                is_l = refl;
                is_k = refl;
                from = a;
                wide = c;
                apart = e;
              })))
      ]

  pub shift_ones_lem :
      (fuel : ℕ) → j ≤ k → k < j + fuel → Shifted j k s o (shift_ones fuel diff (mask j k))
  shift_ones_lem fuel h f = shift_from fuel j k (omega arith) h (omega arith) f (inl refl)
