-- ===== src/Fastgen/Prepare/Room.antt =====
-- A pass of `_prepare_lanes` and what holds of it; parking a lane when no block is free.
use native.Mathlib.Decide.{ℕ_discrete}
use cwm.Prelude.{
  refl, ℕ, suc, ◌+◌, ◌-◌, ◌≤◌, ◌<◌, ◌≡◌, ◌≢◌, ◌⊎◌, inl, inr, true, false, arith, ◌==◌, ltb,
  if◌then◌else◌, get_or,
}
use Prim.Native.Nat.{min}
use cwm.Fastgen.BlockSet.{BlockSet, holds, holds_of_len}
use cwm.Fastgen.Lane.{Lane, lane_len}
use cwm.Fastgen.State.{Config, FastGen, kill_lane}
use cwm.Fastgen.Sums.{le-sum_to}
use cwm.Fastgen.Invariant.{IsValid, IsValid-same_ahead}
use cwm.Fastgen.Kill.{killed, lane-kill, nactive-kill, free-kill, kill_lane-IsValid}
use cwm.Fastgen.Prepare.{Pass, avail, fixup}
use cwm.Fastgen.Prepare.Grow.{one-le}
use cwm.Fastgen.Prepare.Order.{IsOrder, count-get_or, fixup_lem, fixup-IsOrder}

-- The device is level with the host.
abbrev pub level : ℕ → ℕ
level i = 0

module _ (bs : BlockSet) (cfg : Config) where
  open bs use {Set, len}

  -- The lane has room for the tokens of a whole decoding call.
  abbrev pub Ready : Lane Set → Type 0
  Ready l = lane_len l + cfg.sync_freq ≤ avail bs cfg l

  -- The lane has room for all the tokens that a decoding call can write.
  abbrev pub Roomy : Lane Set → Type 0
  Roomy l = min cfg.max_seq (lane_len l + cfg.sync_freq) ≤ avail bs cfg l

  -- Lane `j` is ready, or still to be visited.
  abbrev pub Visited : FastGen Set → (ℕ → ℕ) → ℕ → ℕ → Type 0
  Visited g decr idx j = Ready (g.lane j) ⊎ ((k : ℕ) × (idx ≤ k) × (k < g.nactive) × (decr k ≡ j))

  pub record PassOk (p : Pass Set) : Type 0 where
    pub valid : IsValid bs cfg p.gen level
    pub order : IsOrder p.decr p.idx p.gen.nactive
    pub within : p.idx ≤ p.gen.nactive
    pub visited : (j : ℕ) → j < p.gen.nactive → Visited p.gen p.decr p.idx j
    pub going : p.stop ≡ false

  -- How the loop should end.
  pub record Prepared (g : FastGen Set) : Type 0 where
    pub valid : IsValid bs cfg g level
    pub roomy : (j : ℕ) → j < g.nactive → Roomy (g.lane j)

  module _ (p : Pass Set) (m : ℕ) (n : p.gen.nactive ≡ suc m) (ok : PassOk p) (h : p.idx ≤ m) where
    victim : ℕ
    victim = p.decr m

    victim-lt : victim < suc m
    unfolding victim
    victim-lt = rw n at (ok.order.below m h (omega arith))

    abbrev pub after : FastGen Set
    after = kill_lane bs p.gen (p.decr m) true

    after-IsValid : IsValid bs cfg after level
    unfolding victim
    after-IsValid =
        IsValid-same_ahead bs cfg (killed bs cfg level victim (p.gen.nactive - 1)) level
          (λ i. ground arith)
          (kill_lane-IsValid bs cfg p.gen victim true level ok.valid (omega (arith, victim-lt))
            (λ _. refl)).0

    pub after_nactive : after.nactive ≡ m
    unfolding victim
    after_nactive = nactive-kill bs cfg p.gen victim m true n victim-lt

    after_lane : (j : ℕ) → j < m → after.lane j ≡ killed bs cfg p.gen.lane victim m j
    unfolding victim
    after_lane = lane-kill bs cfg p.gen victim m true n victim-lt

    -- Some block is free now: the parked lane had one.
    pub after_free : len after.free_blocks ≢ 0
    unfolding victim
    after_free e =
        let l = p.gen.lane (p.decr m) in
        let b = get_or l.blocks 0 0 in
        let lane_ok = ok.valid.lanes (p.decr m) (omega (arith, victim-lt)) in
        omega (
          arith,
          count-get_or l.blocks 0 lane_ok.housed,
          lane_ok.agree b,
          owner b,
          free-kill bs cfg p.gen (p.decr m) m true n victim-lt b (owner b),
          holds_of_len bs b after.free_blocks e,
        )
      where
        owner :
            (b : ℕ) → holds bs b p.gen.free_blocks + holds bs b (p.gen.lane (p.decr m)).blockset ≤ 1
        owner b = omega (
          arith,
          ok.valid.conserved b,
          one-le (ltb b cfg.nblocks),
          le-sum_to p.gen.nactive (p.decr m) (λ j. holds bs b (p.gen.lane j).blockset)
              (omega (arith, victim-lt)),
        )

    module _ (j : ℕ) (q : j < m) where
      -- A position of the old order, in the new one.
      moved :
          (k : ℕ)
          → p.idx ≤ k
          → k < m
          → fixup (m - p.idx) p.idx p.decr m k ≡ (if p.decr k == m then p.decr m else p.decr k)
      moved k a b = fixup_lem (m - p.idx) p.idx p.decr m k (omega arith) (rw n at ok.order) a b

      Visited-other : j ≢ victim → Visited after (fixup (m - p.idx) p.idx p.decr m) p.idx j
      unfolding victim
      Visited-other ne = elim (ok.visited j (omega arith)) [
        | inl r ↦ inl (rw (after_lane j q) (ground arith))
        | inr (k, a, b, e) ↦
            let c : k < m = ground arith in
            inr (k, a, rw after_nactive c, ground (arith, moved k a c))
      ]

      Visited-victim : j ≡ victim → Visited after (fixup (m - p.idx) p.idx p.decr m) p.idx j
      unfolding victim
      Visited-victim eq = elim (ok.visited m (omega arith)) [
        | inl r ↦ inl (rw (after_lane j q) (ground arith))
        | inr (k, a, b, e) ↦
            let c : k < m = ground arith in
            inr (k, a, rw after_nactive c, ground (arith, moved k a c))
      ]

      Visited-after : Visited after (fixup (m - p.idx) p.idx p.decr m) p.idx j
      Visited-after = elim (ℕ_discrete j victim) [
        | yes e ↦ Visited-victim e
        | no e ↦ Visited-other e
      ]

    -- The pass goes on with one lane less, and a block is free.
    pub room_continue :
        p.idx < m → PassOk (record p { gen = after; decr = fixup (m - p.idx) p.idx p.decr m })
    room_continue lt = record {
      valid = after-IsValid;
      order = rw after_nactive (fixup-IsOrder p.decr p.idx m h (rw n at ok.order));
      within = rw after_nactive h;
      visited = λ j q. Visited-after j (rw after_nactive at q);
      going = ok.going;
    }

    -- The pass ends: the parked lane was the last one to visit.
    pub room_stop : p.idx ≡ m → Prepared after
    room_stop e = record {
      valid = after-IsValid;
      roomy = λ j q. all_ready j (Visited-after j (rw after_nactive at q));
    }
      where
        all_ready :
            (j : ℕ)
            → Visited after (fixup (m - p.idx) p.idx p.decr m) p.idx j
            → Roomy (after.lane j)
        all_ready j (inl r) = omega arith
        all_ready j (inr (k, a, b, _)) = absurd (omega (arith, after_nactive))
