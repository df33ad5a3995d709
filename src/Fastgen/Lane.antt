-- ===== src/Fastgen/Lane.antt =====
-- cwm/fastgen/api.py (Packet) and the class Lane of cwm/fastgen/generate.py. A temperature, a
-- top_p or a log-probability is a float, kept as a number of thousandths.
use cwm.Prelude.{ℕ, ◌+◌, List, [], ◌∷◌, ◌++◌, Option, none, some, length, ◌==◌, if◌then◌else◌}
use Prim.Native.Nat.{min}
use cwm.Fastgen.BlockSet.{BlockSet}

pub record Packet : Type 0 where
  pub thread_id : ℕ
  pub tokens : List ℕ
  pub temperature : Option ℕ
  pub top_p : Option ℕ
  pub stop_str : Option (List ℕ)
  pub max_gen : Option ℕ

-- `S` is the type of the sets of blocks.
pub record Lane (S : Type 0) : Type 0 where
  pub thread_id : ℕ
  pub tokens : List ℕ
  pub temperature : Option ℕ
  pub top_p : Option ℕ
  pub stop_str : Option (List ℕ)
  pub logprobs : Option (List ℕ)
  pub sample_logprobs : Option (List ℕ)
  pub max_gen : Option ℕ
  pub maxlen : ℕ
  pub prompt : List ℕ
  pub blocks : List ℕ
  pub blockset : S

-- `x if x is not None else y`.
abbrev pub or_else : Option ℕ → Option ℕ → Option ℕ
or_else (some x) y = some x
or_else none y = y

-- The cap on a lane's length: prompt and generation, and never more than the cache holds.
abbrev pub lane_maxlen : List ℕ → ℕ → Option ℕ → ℕ
lane_maxlen prompt max_seq none = max_seq
lane_maxlen prompt max_seq (some n) = min (length prompt + n) max_seq

module _ {S : Type 0} where
  -- `__len__`: prompt and generated tokens.
  abbrev pub lane_len : Lane S → ℕ
  lane_len l = length l.prompt + length l.tokens

  unfoldable pub all_tokens : Lane S → List ℕ
  all_tokens l = l.prompt ++ l.tokens

module _ (bs : BlockSet) where
  open bs use {Set, empty, add, union, tolist}

  -- `Lane(thread_id)`, with every other field at its default.
  abbrev pub new_lane : ℕ → Lane Set
  new_lane thread_id = record {
    thread_id = thread_id;
    tokens = [];
    temperature = none;
    top_p = none;
    stop_str = none;
    logprobs = none;
    sample_logprobs = none;
    max_gen = none;
    maxlen = 0;
    prompt = [];
    blocks = [];
    blockset = empty;
  }

  unfoldable pub from_pkt : Packet → ℕ → Option ℕ → Lane Set
  from_pkt p max_seq default =
      let max_gen = or_else p.max_gen default in
      record (new_lane p.thread_id) {
        temperature = p.temperature;
        top_p = p.top_p;
        max_gen = max_gen;
        prompt = p.tokens;
        maxlen = lane_maxlen p.tokens max_seq max_gen;
        stop_str = p.stop_str;
      }

  with_block : Lane Set → ℕ → Option Set → Option (Lane Set)
  with_block l bid none = none
  with_block l bid (some s) = some (record l { blockset = s; blocks = l.blocks ++ bid ∷ [] })

  unfoldable pub add_block : Lane Set → ℕ → Option (Lane Set)
  unfolding with_block
  add_block l bid = with_block l bid (add bid l.blockset)

  -- The lane without its blocks, and the free set with them.
  unfoldable pub free : Lane Set → Set → Lane Set × Set
  free l free_set = (record l { blockset = empty; blocks = [] }, union free_set l.blockset)

  -- `assert not self.blockset`.
  unfoldable pub set_blocks : Lane Set → Set → Option (Lane Set)
  set_blocks l bset =
      if bs.len l.blockset == 0
      then some (record l { blockset = bset; blocks = tolist bset })
      else none
