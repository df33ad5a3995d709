-- ===== src/Fastgen/State.antt =====
-- The host state of the class FastGen (cwm/fastgen/generate.py), its settings, and `_kill_lane`.
use cwm.Prelude.{ℕ, ◌-◌, Bool, true, false, List, [], ◌∷◌, ◌++◌, Option, ◌==◌, if◌then◌else◌}
use cwm.Fastgen.BlockSet.{BlockSet}
use cwm.Fastgen.Lane.{Lane, new_lane, free}

-- The settings that the scheduler reads; `temperature` and `top_p` are the defaults of GenArgs.
pub record Config : Type 0 where
  pub max_batch : ℕ
  pub max_seq : ℕ
  pub max_gen : Option ℕ
  pub page_len : ℕ
  pub nblocks : ℕ
  pub sync_freq : ℕ
  pub min_prefill : ℕ
  pub min_prefill_batch : ℕ
  pub temperature : ℕ
  pub top_p : ℕ
  pub stop_tokens : List ℕ
  pub gen_prompt_logprobs : Bool

-- How a method ends: with a value, with a failed assertion, or out of the rounds allowed to a loop.
pub data Run {ℓ} (A : Type ℓ) : Type ℓ where
  ok : A → Run A
  fault spin : Run A

-- A write to an array.
abbrev pub update {ℓ} : {A : Type ℓ} → (ℕ → A) → ℕ → A → ℕ → A
update f i v j = if i == j then v else f j

-- A tensor with a row for each lane is a function of the lane's index; the rows of interest are
-- those below `max_batch`. `S` is the type of the sets of blocks.
pub record FastGen (S : Type 0) : Type 0 where
  pub nactive : ℕ
  pub tokens : ℕ → ℕ
  pub seqlen : ℕ → ℕ
  pub maxlen : ℕ → ℕ
  pub temps : ℕ → ℕ
  pub top_ps : ℕ → ℕ
  pub blktbl : ℕ → ℕ → ℕ
  pub free_blocks : S
  pub lane : ℕ → Lane S
  pub parking : List (Lane S)
  pub top_p_lanes : ℕ → Bool

-- The number that a thread id "dead" stands for.
abbrev pub dead : ℕ
dead = 0

module _ (bs : BlockSet) where
  open bs use {Set}

  -- What `__init__` leaves; the random tokens of the idle rows are 0 here.
  unfoldable pub fastgen_init : Set → FastGen Set
  fastgen_init free_blocks = record {
    nactive = 0;
    tokens = λ i. 0;
    seqlen = λ i. 0;
    maxlen = λ i. 0;
    temps = λ i. 0;
    top_ps = λ i. 0;
    blktbl = λ i j. 0;
    free_blocks = free_blocks;
    lane = λ i. new_lane bs dead;
    parking = [];
    top_p_lanes = λ i. false;
  }

  -- The row of a lane is cleared.
  clear_row : FastGen Set → ℕ → FastGen Set
  clear_row g i = record g {
    lane = update g.lane i (new_lane bs dead);
    seqlen = update g.seqlen i 0;
    maxlen = update g.maxlen i 0;
    temps = update g.temps i 0;
    top_ps = update g.top_ps i 0;
    blktbl = update g.blktbl i (λ j. 0);
    top_p_lanes = update g.top_p_lanes i false;
  }

  -- `if last in self.top_p_lanes`: the set forgets `last` and holds `i`; else it is left alone.
  move_top_p : (ℕ → Bool) → ℕ → ℕ → ℕ → Bool
  move_top_p lanes i last = if lanes last then update (update lanes last false) i true else lanes

  -- The row of the last lane is moved to `i`.
  move_row : FastGen Set → ℕ → ℕ → FastGen Set
  unfolding move_top_p
  move_row g i last = record g {
    lane = update (update g.lane i (g.lane last)) last (new_lane bs dead);
    tokens = update g.tokens i (g.tokens last);
    seqlen = update (update g.seqlen i (g.seqlen last)) last 0;
    maxlen = update (update g.maxlen i (g.maxlen last)) last 0;
    temps = update (update g.temps i (g.temps last)) last 0;
    top_ps = update (update g.top_ps i (g.top_ps last)) last 0;
    blktbl = update (update g.blktbl i (g.blktbl last)) last (λ j. 0);
    top_p_lanes = move_top_p g.top_p_lanes i last;
  }

  -- The lane gives its blocks back, and is parked if `park` is set.
  release : FastGen Set → ℕ → Bool → FastGen Set
  release g i park =
      let (l, free_blocks) = free bs (g.lane i) g.free_blocks in
      record g {
        nactive = g.nactive - 1;
        free_blocks = free_blocks;
        parking = if park then g.parking ++ l ∷ [] else g.parking;
        lane = update g.lane i l;
      }

  unfoldable pub kill_lane : FastGen Set → ℕ → Bool → FastGen Set
  unfolding clear_row move_row release free
  kill_lane g i park =
      if i == g.nactive - 1
      then clear_row (release g i park) i
      else move_row (release g i park) i (g.nactive - 1)
