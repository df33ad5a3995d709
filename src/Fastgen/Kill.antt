-- ===== src/Fastgen/Kill.antt =====
-- `_kill_lane` of cwm/fastgen/generate.py keeps the scheduler's invariant, whichever lane it kills.
use native.Mathlib.Decide.{ℕ_discrete}
use cwm.Prelude.{
  ℕ, suc, ◌+◌, ◌-◌, ◌≤◌, ◌<◌, ◌≡◌, refl, ap, Bool, true, false, List, [], ◌∷◌, ◌++◌, arith, ◌==◌,
  if◌then◌else◌, ltb, Bool-cases, inl, inr,
}
use cwm.Fastgen.BlockSet.{BlockSet, holds, one, holds-union}
use cwm.Fastgen.Lane.{Lane, free}
use cwm.Fastgen.State.{FastGen, Config, update, kill_lane}
use cwm.Fastgen.Sums.{sum_to, sum_to-same, sum_to-update}
use cwm.Fastgen.Invariant.{owned, AllWaiting, Waiting, LaneOk, IsValid}

module _ (bs : BlockSet) (cfg : Config) where
  open bs use {Set, len}

  pub AllWaiting-append :
      (ls : List (Lane Set)) (l : Lane Set)
      → AllWaiting bs cfg ls
      → Waiting bs cfg l
      → AllWaiting bs cfg (ls ++ l ∷ [])
  AllWaiting-append [] l h e = (e, tt)
  AllWaiting-append (k ∷ ls) l h e = (h.0, AllWaiting-append ls l h.1 e)

  -- The lanes after a kill, and how far the device is ahead of each.
  abbrev pub killed {ℓ} : {A : Type ℓ} → (ℕ → A) → ℕ → ℕ → ℕ → A
  killed f i last j = if j == i then f last else f j

  -- The rows after lane `i` is killed and lane `m`, the last one, has taken its place.
  pub record RowsMoved (g after : FastGen Set) (i m : ℕ) (park : Bool) : Type 0 where
    pub fewer : after.nactive ≡ m
    pub lane : (j : ℕ) → j < m → after.lane j ≡ killed g.lane i m j
    pub tokens : (j : ℕ) → j < m → after.tokens j ≡ killed g.tokens i m j
    pub seqlen : (j : ℕ) → j < m → after.seqlen j ≡ killed g.seqlen i m j
    pub maxlen : (j : ℕ) → j < m → after.maxlen j ≡ killed g.maxlen i m j
    pub temps : (j : ℕ) → j < m → after.temps j ≡ killed g.temps i m j
    pub top_ps : (j : ℕ) → j < m → after.top_ps j ≡ killed g.top_ps i m j
    pub blktbl : (j : ℕ) → j < m → after.blktbl j ≡ killed g.blktbl i m j
    pub top_p_kept :
        (j : ℕ) → j < m → killed g.top_p_lanes i m j ≡ true → after.top_p_lanes j ≡ true
    pub no_length : (after.seqlen m ≡ 0) × (after.maxlen m ≡ 0)
    pub no_sampling : (after.temps m ≡ 0) × (after.top_ps m ≡ 0) × (after.top_p_lanes m ≡ false)
    pub no_table : (k : ℕ) → after.blktbl m k ≡ 0
    pub parked :
        after.parking
        ≡ (if park then g.parking ++ (free bs (g.lane i) g.free_blocks).0 ∷ [] else g.parking)

  module _ (g : FastGen Set) (i m : ℕ) (park : Bool) (n : g.nactive ≡ suc m) (h : i < suc m) where
    -- A surviving row holds its own lane, or the last one in place of the killed one.
    pub lane-kill : (j : ℕ) → j < m → (kill_lane bs g i park).lane j ≡ (killed g.lane i m j)
    unfolding kill_lane
    lane-kill j p = ground arith

    blktbl-kill : (j : ℕ) → j < m → (kill_lane bs g i park).blktbl j ≡ (killed g.blktbl i m j)
    unfolding kill_lane
    blktbl-kill j p = ground arith

    seqlen-kill : (j : ℕ) → j < m → (kill_lane bs g i park).seqlen j ≡ (killed g.seqlen i m j)
    unfolding kill_lane
    seqlen-kill j p = ground arith

    maxlen-kill : (j : ℕ) → j < m → (kill_lane bs g i park).maxlen j ≡ (killed g.maxlen i m j)
    unfolding kill_lane
    maxlen-kill j p = ground arith

    tokens-kill : (j : ℕ) → j < m → (kill_lane bs g i park).tokens j ≡ (killed g.tokens i m j)
    unfolding kill_lane
    tokens-kill j p = ground arith

    temps-kill : (j : ℕ) → j < m → (kill_lane bs g i park).temps j ≡ (killed g.temps i m j)
    unfolding kill_lane
    temps-kill j p = ground arith

    top_ps-kill : (j : ℕ) → j < m → (kill_lane bs g i park).top_ps j ≡ (killed g.top_ps i m j)
    unfolding kill_lane
    top_ps-kill j p = ground arith

    top_p_lanes-kill :
        (j : ℕ)
        → j < m
        → killed g.top_p_lanes i m j ≡ true
        → (kill_lane bs g i park).top_p_lanes j ≡ true
    unfolding kill_lane
    top_p_lanes-kill j p y = ground arith

    length_cleared : ((kill_lane bs g i park).seqlen m ≡ 0) × ((kill_lane bs g i park).maxlen m ≡ 0)
    unfolding kill_lane
    length_cleared = (ground arith, ground arith)

    sampling_cleared :
        ((kill_lane bs g i park).temps m ≡ 0)
        × ((kill_lane bs g i park).top_ps m ≡ 0)
        × ((kill_lane bs g i park).top_p_lanes m ≡ false)
    unfolding kill_lane
    sampling_cleared = (ground arith, ground arith, ground arith)

    table_cleared : (k : ℕ) → (kill_lane bs g i park).blktbl m k ≡ 0
    unfolding kill_lane
    table_cleared k = ground arith

    pub nactive-kill : (kill_lane bs g i park).nactive ≡ m
    unfolding kill_lane
    nactive-kill = ground arith

    pub parking_after :
        (kill_lane bs g i park).parking
        ≡ (if park then g.parking ++ (free bs (g.lane i) g.free_blocks).0 ∷ [] else g.parking)
    unfolding kill_lane
    parking_after = ground arith

    kill_RowsMoved : RowsMoved g (kill_lane bs g i park) i m park
    kill_RowsMoved = record {
      fewer = nactive-kill;
      lane = lane-kill;
      tokens = tokens-kill;
      seqlen = seqlen-kill;
      maxlen = maxlen-kill;
      temps = temps-kill;
      top_ps = top_ps-kill;
      blktbl = blktbl-kill;
      top_p_kept = top_p_lanes-kill;
      no_length = length_cleared;
      no_sampling = sampling_cleared;
      no_table = table_cleared;
      parked = parking_after;
    }

    parking-kill :
        AllWaiting bs cfg g.parking
        → (park ≡ true → Waiting bs cfg (free bs (g.lane i) g.free_blocks).0)
        → AllWaiting bs cfg (kill_lane bs g i park).parking
    parking-kill h w = rw parking_after (either park w)
      where
        either :
            (b : Bool)
            → (b ≡ true → Waiting bs cfg (free bs (g.lane i) g.free_blocks).0)
            → AllWaiting bs cfg
                (if b then g.parking ++ (free bs (g.lane i) g.free_blocks).0 ∷ [] else g.parking)
        either true k = AllWaiting-append g.parking (free bs (g.lane i) g.free_blocks).0 h (k refl)
        either false k = h

    owned-kill :
        (b : ℕ)
        → owned bs cfg m (kill_lane bs g i park).lane b + holds bs b (g.lane i).blockset
          ≡ owned bs cfg (suc m) g.lane b
    unfolding sum_to
    owned-kill b =
        let w : ℕ → ℕ = λ j. holds bs b (g.lane j).blockset in
        let same : (owned bs cfg m (kill_lane bs g i park).lane b ≡ sum_to m (update w i (w m))) =
          sum_to-same m (λ j. holds bs b ((kill_lane bs g i park).lane j).blockset)
            (update w i (w m)) (λ j p. ground (arith, lane-kill j p)) in
        elim (ℕ_discrete i m) [
          | yes e ↦
              omega (arith, same, sum_to-same m (update w i (w m)) w (λ j p. ground arith), ap w e)
          | no e ↦ omega (arith, same, sum_to-update m i (w m) w (omega arith))
        ]

    pub free-kill :
        (b : ℕ)
        → holds bs b g.free_blocks + holds bs b (g.lane i).blockset ≤ 1
        → holds bs b (kill_lane bs g i park).free_blocks
          ≡ holds bs b g.free_blocks + holds bs b (g.lane i).blockset
    unfolding kill_lane
    free-kill b h = ground (arith, holds-union bs b g.free_blocks (g.lane i).blockset)

    module _ (ahead : ℕ → ℕ) (v : IsValid bs cfg g ahead) (rested : park ≡ true → ahead i ≡ 0) where
      one-le : (b : Bool) → one b ≤ 1
      one-le true = omega arith
      one-le false = omega arith

      kept_conserved :
          (b : ℕ)
          → holds bs b (kill_lane bs g i park).free_blocks
              + owned bs cfg (kill_lane bs g i park).nactive (kill_lane bs g i park).lane b
            ≡ one (ltb b cfg.nblocks)
      kept_conserved b =
          let c : holds bs b g.free_blocks + owned bs cfg (suc m) g.lane b
              ≡ one (ltb b cfg.nblocks) =
            rw n at (v.conserved b) in
          rw nactive-kill (
            omega (
              arith,
              c,
              one-le (ltb b cfg.nblocks),
              owned-kill b,
              free-kill b (omega (arith, c, one-le (ltb b cfg.nblocks), owned-kill b)),
            ))

      kept_lane :
          (j : ℕ)
          → j < m
          → LaneOk bs cfg
              (killed g.lane i m j)
              (killed g.blktbl i m j)
              (killed g.seqlen i m j)
              (killed g.maxlen i m j)
              (killed ahead i m j)
      kept_lane j p = elim (Bool-cases (j == i)) [
        | inl e ↦ rw e (v.lanes m (omega arith))
        | inr e ↦ rw e (v.lanes j (omega arith))
      ]

      -- A parked lane is level, so it is below its cap.
      parked_lane : park ≡ true → Waiting bs cfg (free bs (g.lane i) g.free_blocks).0
      unfolding free
      parked_lane p =
          let l = v.lanes i (omega arith) in
          record {
            no_blocks = bs.len-empty;
            begun = l.begun;
            fits = omega (arith, l.short (rested p), l.in_cache);
            in_cache = l.in_cache;
          }

      kill_IsValid : IsValid bs cfg (kill_lane bs g i park) (killed ahead i m)
      kill_IsValid = record {
        conserved = kept_conserved;
        active = rw nactive-kill (omega (arith, v.active));
        lanes = λ j p.
            let q : j < m = rw nactive-kill at p in
            rw (lane-kill j q, blktbl-kill j q, seqlen-kill j q, maxlen-kill j q) (kept_lane j q);
        parked = parking-kill v.parked parked_lane;
      }

-- Killing an active lane keeps the invariant, and so does parking one that the device is not
-- ahead of, so that the blocks of the killed lane, no more and no less, become free. There is one
-- active lane less. Every other active row stays as it was, and the killed row, if it was not the
-- last one, holds the last lane with its tokens, lengths, temperature, top-p and row of the block
-- table; a lane that was in top_p_lanes stays in it under its new index. The row behind the active
-- ones is cleared but for its lane and token, and the killed lane waits behind the parked ones if
-- it is parked.
pub kill_lane-IsValid :
    (bs : BlockSet) (cfg : Config) (g : FastGen bs.Set) (i : ℕ) (park : Bool) (ahead : ℕ → ℕ)
    → IsValid bs cfg g ahead
    → i < g.nactive
    → (park ≡ true → ahead i ≡ 0)
    → IsValid bs cfg (kill_lane bs g i park) (killed bs cfg ahead i (g.nactive - 1))
      × RowsMoved bs cfg g (kill_lane bs g i park) i (g.nactive - 1) park
kill_lane-IsValid bs cfg g i park ahead v h rested = (
  kill_IsValid bs cfg g i (g.nactive - 1) park (omega arith) (omega arith) ahead v rested,
  kill_RowsMoved bs cfg g i (g.nactive - 1) park (omega arith) (omega arith),
)
