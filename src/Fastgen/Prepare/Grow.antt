-- ===== src/Fastgen/Prepare/Grow.antt =====
-- A block more for a lane: the part of a round of `_prepare_lanes` that takes one from the free set.
use cwm.Prelude.{
  ℕ, zero, suc, ◌+◌, ◌*◌, ◌≤◌, ◌<◌, ◌≡◌, ◌≢◌, refl, Bool, true, false, ◌||◌, List, [], ◌∷◌, ◌++◌,
  some, arith, ◌==◌, ltb, length, length-append, get_elem?, Bool-cases, inl, inr,
}
use cwm.Fastgen.BlockSet.{BlockSet, one, count, holds}
use cwm.Fastgen.Lane.{lane_len, add_block}
use cwm.Fastgen.State.{Config, FastGen, ok, update}
use cwm.Fastgen.Sums.{sum_to-same, sum_to-update, le-sum_to}
use cwm.Fastgen.Invariant.{owned, LaneOk, IsValid}
use cwm.Fastgen.Prepare.{give_block}

pub count-append : (b : ℕ) (xs ys : List ℕ) → count b (xs ++ ys) ≡ count b xs + count b ys
unfolding count
count-append b [] ys = omega arith
count-append b (x ∷ xs) ys = omega (arith, count-append b xs ys)

-- A row that starts with a list still does when both are extended.
in_row-append :
    (l : List ℕ) (row : ℕ → ℕ) (x : ℕ)
    → ((k b : ℕ) → get_elem? l k ≡ some b → row k ≡ b)
    → (k b : ℕ) → get_elem? (l ++ x ∷ []) k ≡ some b
    → update row (length l) x k ≡ b
in_row-append [] row x h zero b e = ground arith
in_row-append [] row x h (suc k) b e = ground arith
in_row-append (y ∷ l) row x h zero b e = ground (arith, h 0 b)
in_row-append (y ∷ l) row x h (suc k) b e =
    ground (arith, in_row-append l (λ (n : ℕ). row (suc n)) x (λ (m c : ℕ). h (suc m) c) k b e)

pub one-le : (b : Bool) → one b ≤ 1
one-le true = omega arith
one-le false = omega arith

module _ (bs : BlockSet) (cfg : Config) where
  open bs use {Set, len}

  -- The state after the block `x` has gone to lane `i`, whose set is now `t`.
  abbrev pub with_block_at : FastGen Set → ℕ → ℕ → Set → Set → FastGen Set
  with_block_at g i x rest t = record g {
    free_blocks = rest;
    lane =
        update g.lane i (record (g.lane i) { blockset = t; blocks = (g.lane i).blocks ++ x ∷ [] });
    blktbl = update g.blktbl i (update (g.blktbl i) (length (g.lane i).blocks) x);
  }

  module _ (g : FastGen Set) (i x : ℕ) (rest t : Set) (ahead : ℕ → ℕ) (v : IsValid bs cfg g ahead)
      (h : i < g.nactive)
      (popped : (y : ℕ) → holds bs y g.free_blocks ≡ one (x == y) + holds bs y rest)
      (added : (y : ℕ) → bs.contains y t ≡ (y == x || bs.contains y (g.lane i).blockset)) where
    -- The block was free, so the lane did not own it.
    owned_before : (y : ℕ) → holds bs y (g.lane i).blockset ≤ owned bs cfg g.nactive g.lane y
    owned_before y = le-sum_to g.nactive i (λ j. holds bs y (g.lane j).blockset) h

    holds_after : (y : ℕ) → holds bs y t ≡ one (x == y) + holds bs y (g.lane i).blockset
    holds_after y =
        ground (arith, added y, popped y, v.conserved y, owned_before y, one-le (ltb y cfg.nblocks))

    owned_after :
        (y : ℕ)
        → owned bs cfg g.nactive (with_block_at g i x rest t).lane y
          ≡ owned bs cfg g.nactive g.lane y + one (x == y)
    owned_after y =
        let w : ℕ → ℕ = λ j. holds bs y (g.lane j).blockset in
        omega (
          arith,
          sum_to-same g.nactive (λ j. holds bs y ((with_block_at g i x rest t).lane j).blockset)
              (update w i (holds bs y t)) (λ j _. ground arith),
          sum_to-update g.nactive i (holds bs y t) w h,
          holds_after y,
        )

    lane_after :
        (j : ℕ)
        → i ≡ j
        → LaneOk bs cfg
            (record (g.lane i) { blockset = t; blocks = (g.lane i).blocks ++ x ∷ [] })
            (update (g.blktbl i) (length (g.lane i).blocks) x)
            (g.seqlen j)
            (g.maxlen j)
            (ahead j)
    lane_after j e =
        let old = v.lanes i h in
        record {
          agree = λ b. omega (
            arith,
            count-append b (g.lane i).blocks (x ∷ []),
            count_one b,
            old.agree b,
            holds_after b,
          );
          in_row = in_row-append (g.lane i).blocks (g.blktbl i) x old.in_row;
          synced = rw (← e) old.synced;
          housed = omega (arith, length-append (g.lane i).blocks (x ∷ []));
          fits = rw (← e) (more_room old.fits);
          begun = old.begun;
          capped = rw (← e) old.capped;
          in_cache = old.in_cache;
          short = rw (← e) old.short;
        }
      where
        count_one : (b : ℕ) → count b (x ∷ []) ≡ one (x == b)
        count_one b = unfold count in omega arith

        more_room :
            {n : ℕ}
            → n ≤ length (g.lane i).blocks * cfg.page_len
            → n ≤ length ((g.lane i).blocks ++ x ∷ []) * cfg.page_len
        more_room p = rw length-append (omega arith)

    with_block-IsValid : IsValid bs cfg (with_block_at g i x rest t) ahead
    with_block-IsValid = record {
      conserved = λ b. omega (arith, v.conserved b, popped b, owned_after b);
      active = v.active;
      lanes = λ j p. elim (Bool-cases (i == j)) [
        | inl e ↦ rw e (lane_after j (ground arith))
        | inr e ↦ rw e (v.lanes j p)
      ];
      parked = v.parked;
    }

  -- What the round has when it has given lane `i` a block.
  pub record Given (g g' : FastGen Set) (i : ℕ) (ahead : ℕ → ℕ) : Type 0 where
    pub valid : IsValid bs cfg g' ahead
    pub nactive_same : g'.nactive ≡ g.nactive
    pub longer : length (g'.lane i).blocks ≡ length (g.lane i).blocks + 1
    pub lane_len_same : lane_len (g'.lane i) ≡ lane_len (g.lane i)
    pub others : (j : ℕ) → j ≢ i → g'.lane j ≡ g.lane j

  -- While a block is free, the lane gets it.
  pub give_block_lem :
      (g : FastGen Set) (i : ℕ) (ahead : ℕ → ℕ)
      → IsValid bs cfg g ahead
      → i < g.nactive
      → len g.free_blocks ≢ 0
      → (g' : FastGen Set) × (give_block bs cfg g i ≡ ok g') × Given g g' i ahead
  unfolding give_block add_block
  give_block_lem g i ahead v h some_free =
      let (x, rest, pop, lim, counts) = bs.count-popleft g.free_blocks some_free in
      let (t, add_eq, members) = bs.contains-add x (g.lane i).blockset lim in
      (
        with_block_at g i x rest t,
        rw (pop, add_eq),
        record {
          valid = with_block-IsValid g i x rest t ahead v h counts members;
          nactive_same = refl;
          longer = ground (arith, length-append (g.lane i).blocks (x ∷ []));
          lane_len_same = ground arith;
          others = λ j e. ground arith;
        },
      )
