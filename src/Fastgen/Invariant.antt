-- ===== src/Fastgen/Invariant.antt =====
-- What holds of the scheduler's state between its steps: each cache block has exactly one owner,
-- and the device's tables say the same as the host's lanes.
use cwm.Prelude.{ℕ, ◌+◌, ◌*◌, ◌≤◌, ◌<◌, ◌≡◌, List, [], ◌∷◌, some, length, get_elem?, ltb}
use cwm.Fastgen.BlockSet.{BlockSet, holds, one, count}
use cwm.Fastgen.Lane.{Lane, lane_len}
use cwm.Fastgen.State.{Config, FastGen}
use cwm.Fastgen.Sums.{sum_to}

module _ (bs : BlockSet) (cfg : Config) where
  open bs use {Set, len}

  -- How many of the first `n` lanes own the block.
  abbrev pub owned : ℕ → (ℕ → Lane Set) → ℕ → ℕ
  owned n lane b = sum_to n (λ i. holds bs b (lane i).blockset)

  -- A lane that owns its blocks: the list and the set of its blocks agree, its row of the block
  -- table starts with the list, it has a block, and its tokens fit into its blocks. The device is
  -- `ahead` tokens ahead of the host's copy of the lane; where it is not, the lane is below its cap.
  pub record LaneOk (l : Lane Set) (row : ℕ → ℕ) (seqlen maxlen ahead : ℕ) : Type 0 where
    pub agree : (b : ℕ) → count b l.blocks ≡ holds bs b l.blockset
    pub in_row : (k b : ℕ) → get_elem? l.blocks k ≡ some b → row k ≡ b
    pub synced : seqlen ≡ lane_len l + ahead
    pub housed : 0 < length l.blocks
    pub fits : seqlen ≤ length l.blocks * cfg.page_len
    pub begun : 0 < lane_len l
    pub capped : maxlen ≡ l.maxlen
    pub in_cache : l.maxlen ≤ cfg.max_seq
    pub short : ahead ≡ 0 → lane_len l < l.maxlen

  -- A lane that waits has tokens, fewer than the cache can hold, and no blocks.
  pub record Waiting (l : Lane Set) : Type 0 where
    pub no_blocks : len l.blockset ≡ 0
    pub begun : 0 < lane_len l
    pub fits : lane_len l < cfg.max_seq
    pub in_cache : l.maxlen ≤ cfg.max_seq

  abbrev pub AllWaiting : List (Lane Set) → Type 0
  AllWaiting [] = Unit
  AllWaiting (l ∷ ls) = Waiting l × AllWaiting ls

  pub record IsValid (g : FastGen Set) (ahead : ℕ → ℕ) : Type 0 where
    pub conserved :
        (b : ℕ) → holds bs b g.free_blocks + owned g.nactive g.lane b ≡ one (ltb b cfg.nblocks)
    pub active : g.nactive ≤ cfg.max_batch
    pub lanes :
        (i : ℕ) → i < g.nactive → LaneOk (g.lane i) (g.blktbl i) (g.seqlen i) (g.maxlen i) (ahead i)
    pub parked : AllWaiting g.parking

  -- Only how far the device is ahead of each lane matters, not how that is written.
  pub IsValid-same_ahead :
      {g : FastGen Set} (ahead ahead' : ℕ → ℕ)
      → ((i : ℕ) → ahead i ≡ ahead' i)
      → IsValid g ahead
      → IsValid g ahead'
  IsValid-same_ahead {g} ahead ahead' e v = record {
    conserved = v.conserved;
    active = v.active;
    lanes = λ i h. rw (← e i) (v.lanes i h);
    parked = v.parked;
  }
