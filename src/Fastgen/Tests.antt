-- ===== src/Fastgen/Tests.antt =====
-- The scheduler at work on bitmaps, and the theorems about it at a state with two active lanes.
use cwm.Prelude.{
  ℕ, zero, suc, ◌+◌, ◌<◌, ◌≡◌, refl, Bool, true, false, List, [], ◌∷◌, none, some, arith, ltb,
  get_elem?,
}
use cwm.Fastgen.BlockSet.{holds, one, count}
use cwm.Fastgen.Bitmap.{bitmap}
use cwm.Fastgen.Lane.{Lane, Packet}
use cwm.Fastgen.State.{Config, FastGen, ok, kill_lane}
use cwm.Fastgen.Sums.{sum_to}
use cwm.Fastgen.Invariant.{LaneOk, IsValid, owned}
use cwm.Fastgen.Kill.{killed, RowsMoved, kill_lane-IsValid}
use cwm.Fastgen.Prepare.{prepare_lanes}
use cwm.Fastgen.Prepare.Room.{level, Prepared}
use cwm.Fastgen.Prepare.Loop.{IsConfig, prepare_lanes_lem}
use cwm.Fastgen.Admit.{packet, end_of_queue, add_lanes}
use cwm.Fastgen.Admit.Rounds.{Admits}
use cwm.Fastgen.Admit.Deferred.{add_lanes_lem}

abbrev small : Config
small = record {
  max_batch = 3;
  max_seq = 800;
  max_gen = none;
  page_len = 200;
  nblocks = 4;
  sync_freq = 2;
  min_prefill = 0;
  min_prefill_batch = 1;
  temperature = 700;
  top_p = 1000;
  stop_tokens = 7 ∷ [];
  gen_prompt_logprobs = false;
}

abbrev lane_with : ℕ → List ℕ → List ℕ → List Bool → Lane (List Bool)
lane_with thread_id prompt blocks set = record {
  thread_id = thread_id;
  tokens = [];
  temperature = none;
  top_p = none;
  stop_str = none;
  logprobs = none;
  sample_logprobs = none;
  max_gen = none;
  maxlen = 800;
  prompt = prompt;
  blocks = blocks;
  blockset = set;
}

abbrev rows {ℓ} : {A : Type ℓ} → A → A → ℕ → A
rows x y zero = x
rows x y (suc i) = y

-- Blocks 1 and 3 are taken.
abbrev two_lanes : FastGen (List Bool)
two_lanes = record {
  nactive = 2;
  tokens = λ i. 0;
  seqlen = rows 2 1;
  maxlen = λ i. 800;
  temps = λ i. 700;
  top_ps = λ i. 1000;
  blktbl = rows (λ k. 3) (λ k. 1);
  free_blocks = true ∷ false ∷ true ∷ false ∷ [];
  lane =
      rows (lane_with 5 (8 ∷ 9 ∷ []) (3 ∷ []) (false ∷ false ∷ false ∷ true ∷ []))
        (lane_with 6 (4 ∷ []) (1 ∷ []) (false ∷ true ∷ []));
  parking = [];
  top_p_lanes = λ i. false;
}

conserved :
    (b : ℕ)
    → holds bitmap b two_lanes.free_blocks + owned bitmap small 2 two_lanes.lane b ≡ one (ltb b 4)
unfolding sum_to
conserved zero = refl
conserved (suc zero) = refl
conserved (suc (suc zero)) = refl
conserved (suc (suc (suc zero))) = refl
conserved (suc (suc (suc (suc b)))) = ground arith

agree_0 : (b : ℕ) → count b (3 ∷ []) ≡ holds bitmap b (false ∷ false ∷ false ∷ true ∷ [])
unfolding count
agree_0 zero = refl
agree_0 (suc zero) = refl
agree_0 (suc (suc zero)) = refl
agree_0 (suc (suc (suc zero))) = refl
agree_0 (suc (suc (suc (suc b)))) = ground arith

agree_1 : (b : ℕ) → count b (1 ∷ []) ≡ holds bitmap b (false ∷ true ∷ [])
unfolding count
agree_1 zero = refl
agree_1 (suc zero) = refl
agree_1 (suc (suc b)) = ground arith

in_row : (x k b : ℕ) → get_elem? (x ∷ []) k ≡ some b → x ≡ b
in_row x zero b e = ground arith
in_row x (suc k) b e = cc

lanes :
    (i : ℕ)
    → i < 2
    → LaneOk bitmap small (two_lanes.lane i) (two_lanes.blktbl i) (two_lanes.seqlen i) 800 0
lanes zero h = record {
  agree = agree_0;
  in_row = in_row 3;
  synced = refl;
  housed = omega arith;
  fits = omega arith;
  begun = omega arith;
  capped = refl;
  in_cache = omega arith;
  short = λ _. omega arith;
}
lanes (suc zero) h = record {
  agree = agree_1;
  in_row = in_row 1;
  synced = refl;
  housed = omega arith;
  fits = omega arith;
  begun = omega arith;
  capped = refl;
  in_cache = omega arith;
  short = λ _. omega arith;
}
lanes (suc (suc i)) h = absurd (omega arith)

two_lanes-IsValid : IsValid bitmap small two_lanes level
two_lanes-IsValid = record {
  conserved = conserved;
  active = omega arith;
  lanes = lanes;
  parked = tt;
}

small-IsConfig : IsConfig small
small-IsConfig = record { sync-lt-page = omega arith; whole_pages = refl }

kill_lane-IsValid_example :
    IsValid bitmap small (kill_lane bitmap two_lanes 0 true) (killed bitmap small level 0 1)
    × RowsMoved bitmap small two_lanes (kill_lane bitmap two_lanes 0 true) 0 1 true
kill_lane-IsValid_example =
    kill_lane-IsValid bitmap small two_lanes 0 true level two_lanes-IsValid (omega arith)
      (λ _. refl)

prepare_lanes_lem_example :
    (g : FastGen (List Bool)) × (prepare_lanes bitmap small 5 two_lanes ≡ ok g)
    × Prepared bitmap small g
prepare_lanes_lem_example =
    prepare_lanes_lem bitmap small two_lanes 5 small-IsConfig two_lanes-IsValid (omega arith)

abbrev request : Packet
request = record {
  thread_id = 9;
  tokens = 1 ∷ 2 ∷ 3 ∷ [];
  temperature = none;
  top_p = none;
  stop_str = none;
  max_gen = some 5;
}

add_lanes_lem_example :
    Admits bitmap small level 2
      (add_lanes bitmap small two_lanes false (packet request ∷ end_of_queue ∷ []))
add_lanes_lem_example =
    add_lanes_lem bitmap small two_lanes false (packet request ∷ end_of_queue ∷ []) level
      (omega arith) two_lanes-IsValid (omega arith, omega arith, tt)

-- With lane 0 killed, lane 1 has its row, and its block is free.
kill_run : (kill_lane bitmap two_lanes 0 false).seqlen 0 ≡ 1
unfolding kill_lane
kill_run = refl
