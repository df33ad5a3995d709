-- ===== src/Fastgen/Trim/Tests.antt =====
-- `_trim_packet` on one answer, with a tokenizer that has a character for each token.
use mathlib.Core.Option
use cwm.Prelude.{
  ℕ, ◌+◌, ◌-◌, ◌≡◌, refl, Bool, false, List, [], ◌∷◌, none, some, if◌then◌else◌, length, take,
}
use cwm.Prelude.Text.{occurs}
use cwm.Fastgen.Lane.{Lane}
use cwm.Fastgen.State.{Config, ok}
use cwm.Fastgen.Trim.{cut_stop_tokens, cut_max_gen, search_cut, cut_stop_str, trim_packet}
use cwm.Fastgen.Trim.Cut.{IsCut, trim_packet_lem}

abbrev stop_at_seven : Config
stop_at_seven = record {
  max_batch = 3;
  max_seq = 800;
  max_gen = none;
  page_len = 200;
  nblocks = 4;
  sync_freq = 2;
  min_prefill = 0;
  min_prefill_batch = 1;
  temperature = 700;
  top_p = 1000;
  stop_tokens = 7 ∷ [];
  gen_prompt_logprobs = false;
}

abbrev answer : Lane (List Bool)
answer = record {
  thread_id = 1;
  tokens = 4 ∷ 9 ∷ 3 ∷ 5 ∷ 7 ∷ 8 ∷ [];
  temperature = none;
  top_p = none;
  stop_str = some (3 ∷ 5 ∷ []);
  logprobs = none;
  sample_logprobs = some (1 ∷ 2 ∷ 3 ∷ 4 ∷ 5 ∷ 6 ∷ []);
  max_gen = some 10;
  maxlen = 800;
  prompt = 2 ∷ [];
  blocks = [];
  blockset = [];
}

abbrev as_is : List ℕ → List ℕ
as_is xs = xs

no_stop_yet : (w : List ℕ) → answer.stop_str ≡ some w → occurs w (as_is []) ≡ false
unfolding occurs
no_stop_yet [] e = cc
no_stop_yet (c ∷ w) e = refl

-- The stop string ends before the stop token.
cut_short :
    trim_packet stop_at_seven as_is answer
    ≡ ok
        (record answer { tokens = 4 ∷ 9 ∷ 3 ∷ 5 ∷ []; sample_logprobs = some (1 ∷ 2 ∷ 3 ∷ 4 ∷ []) })
unfolding trim_packet cut_stop_tokens cut_max_gen search_cut cut_stop_str occurs
cut_short = refl

trim_packet_lem_example :
    (n : ℕ) × (s : ℕ) × (trim_packet stop_at_seven as_is answer
      ≡ ok (record answer {
        tokens = take n answer.tokens;
        sample_logprobs = Option.map (take n) answer.sample_logprobs;
        logprobs =
            Option.map
              (take (if stop_at_seven.gen_prompt_logprobs then length answer.prompt - 1 + n else n))
              answer.logprobs;
      }))
    × IsCut stop_at_seven as_is answer s n
trim_packet_lem_example = trim_packet_lem stop_at_seven as_is answer no_stop_yet
