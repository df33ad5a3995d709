-- ===== src/Fastgen/Trim.antt =====
-- `_trim_packet` of cwm/fastgen/generate.py: where an answer is cut. The tokenizer's `decode` is a
-- parameter; a text is the list of its character codes.
pub mod Search
pub mod Cut
mod Tests
use cwm.Prelude.{
  ℕ, zero, suc, ◌+◌, ◌-◌, ◌/◌, Bool, true, false, List, [], ◌∷◌, Option, none, some, ◌==◌, ltb,
  if◌then◌else◌, length, take, drop,
}
use Prim.Native.Nat.{min}
use mathlib.Core.Option
use cwm.Prelude.Text.{occurs}
use cwm.Fastgen.Lane.{Lane}
use cwm.Fastgen.State.{Config, Run, ok, fault, spin}

-- `tokens.index(st, n)`, the first place from `n` on; `none` where it is not there.
index_from : ℕ → List ℕ → ℕ → Option ℕ
index_from st [] n = none
index_from st (x ∷ xs) zero = if x == st then some 0 else Option.map suc (index_from st xs zero)
index_from st (x ∷ xs) (suc n) = Option.map suc (index_from st xs n)

cut_at : ℕ → Option ℕ → ℕ
cut_at trim none = trim
cut_at trim (some i) = min trim (i + 1)

-- The loop over the stop tokens.
unfoldable pub cut_stop_tokens : List ℕ → List ℕ → ℕ → ℕ → ℕ
unfolding index_from cut_at
cut_stop_tokens [] tokens n trim = trim
cut_stop_tokens (st ∷ sts) tokens n trim =
    cut_stop_tokens sts tokens n (cut_at trim (index_from st tokens n))

unfoldable pub cut_max_gen : Option ℕ → ℕ → ℕ
cut_max_gen none trim = trim
cut_max_gen (some n) trim = min trim n

-- The binary search; `present n` says that the stop string is in the text of the first `n` tokens.
-- The result is the pair (f, t) at the end.
unfoldable pub search_cut : ℕ → (ℕ → Bool) → ℕ → ℕ → Run (ℕ × ℕ)
search_cut zero present f t = spin
search_cut (suc fuel) present f t = elim (ltb 1 (t - f)) [
  | true ↦
      let m = f + (t - f) / 2 in
      elim (present m) [ true ↦ search_cut fuel present f m | false ↦ search_cut fuel present m t ]
  | false ↦ ok (f, t)
]

-- `assert f == t - 1`; the difference may be negative in the source.
asserted : Run (ℕ × ℕ) → Run ℕ
asserted (ok (f, t)) = if f + 1 == t then ok t else fault
asserted fault = fault
asserted spin = spin

module _ (decode : List ℕ → List ℕ) where
  -- The stop string is in the text of the first `n` tokens.
  abbrev pub present : List ℕ → List ℕ → ℕ → Bool
  present w tokens n = occurs w (decode (take n tokens))

  unfoldable pub cut_stop_str : Option (List ℕ) → List ℕ → ℕ → Run ℕ
  unfolding asserted
  cut_stop_str none tokens trim = ok trim
  cut_stop_str (some w) tokens trim =
      if present w tokens trim
      then asserted (search_cut (suc trim) (present w tokens) 0 trim)
      else ok trim

module _ (cfg : Config) {S : Type 0} where
  cut_packet : Lane S → Run ℕ → Run (Lane S)
  cut_packet l (ok trim) = ok (record l {
    tokens = take trim l.tokens;
    sample_logprobs = Option.map (take trim) l.sample_logprobs;
    logprobs =
        Option.map (take (if cfg.gen_prompt_logprobs then length l.prompt - 1 + trim else trim))
          l.logprobs;
  })
  cut_packet l fault = fault
  cut_packet l spin = spin

module _ (cfg : Config) (decode : List ℕ → List ℕ) {S : Type 0} where
  -- The place of the cut.
  unfoldable pub trim_length : Lane S → Run ℕ
  trim_length l =
      let n = length l.tokens - cfg.sync_freq - 1 in
      let stopped = cut_stop_tokens cfg.stop_tokens l.tokens n (length l.tokens) in
      cut_stop_str decode l.stop_str l.tokens (cut_max_gen l.max_gen stopped)

  unfoldable pub trim_packet : Lane S → Run (Lane S)
  unfolding trim_length cut_packet
  trim_packet l = cut_packet cfg l (trim_length l)
