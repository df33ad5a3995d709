-- ===== src/Fastgen/ISet/Union/Branches.antt =====
-- The union with a branch, Bit._union of cwm/fastgen/utils/iset.py.
use cwm.Fastgen.ISet.Union.Prefixes.{under, both, Gives-same}
use Prim.Native.Nat.{bit_and}
use cwm.Prelude.{
  ℕ, suc, ◌*◌, ◌≤◌, ◌≡◌, Bool, true, false, ◌||◌, inl, inr, arith, ◌==◌, ltb, Bool-cases, Option,
}
use cwm.Fastgen.ISet.{Node, contains_in, mk_chk, mk_bit, union_bit_chk, union_bit, ◌>>=◌}
use cwm.Fastgen.ISet.Mask.{
  mask, agree_split, agree_place, and_not-mask, mask_pos, mask_lt-double, bit_and-mask_upper,
}
use cwm.Fastgen.ISet.Tree.{IsTree, Gives, mk_chk_lem, mk_bit_lem, either}

module _ (rec : Node → Node → Option Node) (n : ℕ)
    (below : (s t : Node) → IsTree n s → IsTree n t → Gives n (rec s t) (both s t)) where
  join_part : Bool → ℕ → Node → Node → Node → Option Node
  join_part b high c d s = elim b [
    | true ↦ rec c s >>= λ c'. mk_bit high c' d
    | false ↦ rec d s >>= λ d'. mk_bit high c d'
  ]

  -- The assertions of Bit._union hold.
  union_bit_chk_run :
      (i ob : ℕ) (c d oc : Node)
      → i ≤ n
      → let high = mask n (suc n) in
        union_bit_chk rec high c d (mask i (suc n)) ob oc
        ≡ (mk_chk (mask i n) ob oc >>= λ s. join_part (bit_and ob high == 0) high c d s)
  unfolding union_bit_chk join_part
  union_bit_chk_run i ob c d oc h =
      let high = mask n (suc n) in
      let near : ltb (mask i (suc n)) (high * 2) ≡ true =
        ground (arith, mask_lt-double i n (suc n) (omega arith) (omega arith)) in
      let inside : (bit_and (mask i (suc n)) high == 0) ≡ false =
        ground (arith, bit_and-mask_upper i n (suc n) h, mask_pos n (suc n) (omega arith)) in
      rw (and_not-mask i n (suc n) h (omega arith)) (ground (arith, near, inside))

  join_part_lem :
      (i ob : ℕ) (c d oc s : Node)
      → i ≤ n
      → IsTree n c
      → IsTree n d
      → IsTree n s
      → ((x : ℕ) → contains_in x s ≡ under i n ob oc x)
      → let high = mask n (suc n) in
        Gives
          (suc n)
          (join_part (bit_and ob high == 0) high c d s)
          (λ x. either n c d x || under i (suc n) ob oc x)
  unfolding join_part
  join_part_lem i ob c d oc s h wc wd ws m = elim (Bool-cases (bit_and ob (mask n (suc n)) == 0)) [
    | inl z ↦
        let r = below c s wc ws in
        rw (z, r.made)
          (Gives-same (mk_bit_lem n r.tree d r.well wd) (λ x. ground (
            arith,
            m x,
            r.member x,
            agree_split i n (suc n) x ob h (omega arith),
            agree_place n x ob,
          )))
    | inr z ↦
        let r = below d s wd ws in
        rw (z, r.made)
          (Gives-same (mk_bit_lem n c r.tree wc r.well) (λ x. ground (
            arith,
            m x,
            r.member x,
            agree_split i n (suc n) x ob h (omega arith),
            agree_place n x ob,
          )))
  ]

  pub union_bit_chk_lem :
      (i ob : ℕ) (c d oc : Node)
      → i ≤ n
      → IsTree n c
      → IsTree n d
      → IsTree i oc
      → Gives
          (suc n)
          (union_bit_chk rec (mask n (suc n)) c d (mask i (suc n)) ob oc)
          (λ x. either n c d x || under i (suc n) ob oc x)
  union_bit_chk_lem i ob c d oc h s t u =
      let g = mk_chk_lem i n ob oc h u in
      rw (union_bit_chk_run i ob c d oc h, g.made)
        (join_part_lem i ob c d oc g.tree h s t g.well g.member)

  pub union_bit_lem :
      (c d c' d' : Node)
      → IsTree n c
      → IsTree n d
      → IsTree n c'
      → IsTree n d'
      → let high = mask n (suc n) in
        Gives (suc n) (union_bit rec high c d high c' d') (λ x. either n c d x || either n c' d' x)
  unfolding union_bit
  union_bit_lem c d c' d' wc wd wc' wd' =
      let g0 = below c' c wc' wc in
      let g1 = below d' d wd' wd in
      let one : (mask n (suc n) == mask n (suc n)) ≡ true = ground arith in
      rw (one, g0.made, g1.made)
        (Gives-same (mk_bit_lem n g0.tree g1.tree g0.well g1.well)
          (λ x. ground (arith, g0.member x, g1.member x)))
