-- ===== src/Fastgen/Admit/Deferred.antt =====
-- The end of `_add_lanes`: lanes that are put off wait in front of the parked ones, and their blocks
-- are free again. Then the theorem on the whole method.
use cwm.Prelude.{
  ℕ, zero, suc, ◌+◌, ◌-◌, ◌≤◌, ◌<◌, ◌≡◌, inl, inr, refl, ◌∙◌, Bool, true, false, arith, ◌==◌, ltb,
  Bool-cases, List, ◌∷◌, if◌then◌else◌,
}
use cwm.Fastgen.BlockSet.{BlockSet, one, holds, holds-union}
use cwm.Fastgen.Lane.{Lane, free}
use cwm.Fastgen.State.{Config, FastGen, Run, ok, fault, spin, update}
use cwm.Fastgen.Sums.{sum_to, sum_to-same}
use cwm.Fastgen.Invariant.{owned, IsValid}
use cwm.Fastgen.Prepare.Grow.{one-le}
use cwm.Fastgen.Admit.{Event, Admission, defer, settle, too_few, settled, add_lanes}
use cwm.Fastgen.Admit.Added.{AllFit, IsAdmitting}
use cwm.Fastgen.Admit.Rounds.{Admits, loop_lem}

module _ (bs : BlockSet) (cfg : Config) (ahead : ℕ → ℕ) where
  open bs use {Set}

  module _ (a : Admission Set) (v : IsAdmitting bs cfg a ahead) (k : ℕ) (i : a.idx ≡ suc k)
      (f : a.gen.nactive ≤ k) where
    abbrev freed : Lane Set × Set
    freed = free bs (a.gen.lane k) a.gen.free_blocks

    -- The last of the added lanes is put off.
    abbrev off : Admission Set
    off = record a {
      gen = record a.gen {
        lane = update a.gen.lane k freed.0;
        free_blocks = freed.1;
        parking = freed.0 ∷ a.gen.parking;
      };
      idx = k;
    }

    off_conserved :
        (b : ℕ)
        → holds bs b off.gen.free_blocks + owned bs cfg k off.gen.lane b ≡ one (ltb b cfg.nblocks)
    unfolding free sum_to
    off_conserved b =
        let old : holds bs b a.gen.free_blocks + owned bs cfg (suc k) a.gen.lane b
            ≡ one (ltb b cfg.nblocks) =
          rw i at (v.conserved b) in
        let same =
          sum_to-same k (λ j. holds bs b (off.gen.lane j).blockset)
            (λ j. holds bs b (a.gen.lane j).blockset) (λ j q. ground arith) in
        let joined =
          holds-union bs b a.gen.free_blocks (a.gen.lane k).blockset
            (omega (arith, old, one-le (ltb b cfg.nblocks))) in
        omega (arith, old, same, joined)

    off-IsAdmitting : IsAdmitting bs cfg off ahead
    unfolding free
    off-IsAdmitting =
        let l = v.new k f (omega arith) in
        record {
          conserved = off_conserved;
          from = f;
          upto = omega (arith, v.upto);
          lanes = λ j q. elim (Bool-cases (k == j)) [
            | inl e ↦ absurd (ground arith)
            | inr e ↦ rw e (v.lanes j q)
          ];
          new = λ j p q. elim (Bool-cases (k == j)) [
            | inl e ↦ absurd (ground arith)
            | inr e ↦ rw e (v.new j p (omega arith))
          ];
          parked = (
            record {
              no_blocks = bs.len-empty;
              begun = l.begun;
              fits = l.fits;
              in_cache = l.in_cache;
            },
            v.parked,
          );
          queued = v.queued;
        }

  at_idx :
      (a : Admission Set) (k : ℕ)
      → a.idx ≡ k
      → IsAdmitting bs cfg a ahead
      → IsAdmitting bs cfg (record a { idx = k }) ahead
  at_idx a k e v = record {
    conserved = λ b. rw e at (v.conserved b);
    from = omega (arith, v.from);
    upto = omega (arith, v.upto);
    lanes = v.lanes;
    new = λ i p q. v.new i p (omega arith);
    parked = v.parked;
    queued = v.queued;
  }

  -- The state after `n` lanes have been put off.
  abbrev after_defer : ℕ → Admission Set → Admission Set
  after_defer n a = record a { gen = defer bs cfg n a.gen.nactive a.gen; idx = a.gen.nactive }

  defer_lem :
      (n : ℕ) (a : Admission Set)
      → IsAdmitting bs cfg a ahead
      → a.idx ≡ a.gen.nactive + n
      → IsAdmitting bs cfg (after_defer n a) ahead × ((after_defer n a).gen.nactive ≡ a.gen.nactive)
  unfolding defer
  defer_lem zero a v e = (at_idx a a.gen.nactive (omega arith) v, refl)
  defer_lem (suc n) a v e =
      let k = a.gen.nactive + n in
      defer_lem n (off a v k (omega arith) (omega arith))
        (off-IsAdmitting a v k (omega arith) (omega arith)) refl

  settle_lem :
      (a : Admission Set)
      → IsAdmitting bs cfg a ahead
      → IsAdmitting bs cfg (settle bs cfg a) ahead × ((settle bs cfg a).gen.nactive ≡ a.gen.nactive)
  unfolding settle
  settle_lem a v = either (too_few bs cfg a)
    where
      either :
          (b : Bool)
          → IsAdmitting bs cfg (if b then after_defer (a.idx - a.gen.nactive) a else a) ahead
            × ((if b then after_defer (a.idx - a.gen.nactive) a else a).gen.nactive ≡ a.gen.nactive)
      either true = defer_lem (a.idx - a.gen.nactive) a v (omega (arith, v.from))
      either false = (v, refl)

  settled_lem :
      (n : ℕ) (r : Run (Admission Set))
      → Admits bs cfg ahead n r
      → Admits bs cfg ahead n (settled bs cfg r)
  unfolding settled
  settled_lem n (ok a) (inl (b, e, v, q)) =
      let (w, m) = settle_lem b v in inl (settle bs cfg b, ground arith, w, m ∙ q)
  settled_lem n (ok a) (inr (e, q)) = cc
  settled_lem n fault (inl (b, e, v, q)) = cc
  settled_lem n fault (inr (e, q)) = cc
  settled_lem n spin (inl (b, e, v, q)) = cc
  settled_lem n spin (inr (e, q)) = inr (refl, q)

-- From a valid state, with packets that fit, `_add_lanes` fails no assertion. Either it waits for the
-- queue for ever, and then no lane was active; or it returns. Then every block still has one owner,
-- the added lanes, in rows below max_batch, have enough blocks for their tokens and the buffer,
-- the active lanes are as many as before and keep the invariant, and a lane that waits has no
-- blocks.
pub add_lanes_lem :
    (bs : BlockSet) (cfg : Config) (g : FastGen bs.Set) (eoq : Bool) (queue : List Event)
    (ahead : ℕ → ℕ)
    → 0 < cfg.page_len
    → IsValid bs cfg g ahead
    → AllFit cfg.max_seq queue
    → Admits bs cfg ahead g.nactive (add_lanes bs cfg g eoq queue)
unfolding add_lanes
add_lanes_lem bs cfg g eoq queue ahead page v k = settled_lem bs cfg ahead g.nactive _ (
    loop_lem bs cfg page ahead (cfg.max_batch - g.nactive)
      (record { gen = g; queue = queue; eoq = eoq; idx = g.nactive; tokens = 0 })
      (record {
        conserved = v.conserved;
        from = omega arith;
        upto = v.active;
        lanes = v.lanes;
        new = λ i p q. absurd (omega arith);
        parked = v.parked;
        queued = k;
      })
      (omega (arith, v.active)))
