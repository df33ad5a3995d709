-- ===== src/Fastgen/HostCache.antt =====
-- The host cache of cwm/fastgen/utils/cache.py: a trie of prompt pages, class Cache, with tick,
-- prepare_lane and maintain. A buffer (RawCache) is known by a number; free_caches has its last
-- element first. The `id` of a node, which `frozen` keeps, is its node_id. The hash of a page, by
-- xxhash, is a parameter. Metrics, logging and the copies of tensors are left out.
mod Lookup
mod Again
mod Evict
mod Sound
mod Tests
use cwm.Prelude.{
  ℕ, zero, suc, ◌+◌, ◌-◌, Bool, true, false, ◌&&◌, ◌||◌, not, List, [], ◌∷◌, ◌++◌, Option, none,
  some, ◌==◌, leb, ltb, if◌then◌else◌, take, drop, length,
}
use cwm.Prelude.Text.{same}

-- A list of CacheNode: the first node, its `next`, and the nodes behind it.
pub data Forest : Type 0 where
  nil : Forest
  node : (toks_h : ℕ) (toks : List ℕ) (cache clock node_id : ℕ) (next rest : Forest) → Forest

pub record Cache : Type 0 where
  pub limit : ℕ
  pub page_len : ℕ
  pub nodes : Forest
  pub frozen : List ℕ
  pub num_nodes : ℕ
  pub clock : ℕ
  pub next_id : ℕ
  pub disabled : Bool
  pub free_caches : List ℕ
  pub built : ℕ

pub record DynCacheLane : Type 0 where
  pub gpu_blocks : List ℕ
  pub cpu_blocks : List ℕ
  pub ready_count : ℕ

unfoldable pub tick : Cache → Cache
tick c = record c { frozen = []; clock = suc c.clock }

abbrev pub elem : ℕ → List ℕ → Bool
elem x [] = false
elem x (y ∷ l) = x == y || elem x l

-- The pages that the loop of prepare_lane takes off the tokens, on fuel.
unfoldable pub pages : ℕ → ℕ → List ℕ → List (List ℕ)
pages zero len tokens = []
pages (suc fuel) len tokens =
    let rest = pages fuel len (drop len tokens) in
    if leb len (length tokens) then take len tokens ∷ rest else []

-- A buffer for a new node: a free one, or the next that is built.
abbrev pub buffer : Cache → ℕ
buffer c = elim c.free_caches [ [] ↦ c.built | x ∷ l ↦ x ]

unfoldable pub with_free : Cache → List ℕ → Cache
with_free c [] = record c { built = suc c.built }
with_free c (x ∷ l) = record c { free_caches = l }

abbrev pub take_buffer : Cache → Cache
take_buffer c = with_free c c.free_caches

-- The new node is frozen and counted.
unfoldable pub count_node : Cache → Cache
count_node c = record c {
  frozen = c.next_id ∷ c.frozen;
  num_nodes = suc c.num_nodes;
  next_id = suc c.next_id;
}

-- What the loop gives: the nodes, the lane's buffers, how many of them are ready, and the state.
pub record Walked : Type 0 where
  pub trie : Forest
  pub caches : List ℕ
  pub ready : ℕ
  pub state : Cache

module _ (hash : List ℕ → ℕ) where
  -- The loop once `inserting` is set: a chain of new nodes.
  unfoldable pub insert_pages : Cache → List (List ℕ) → Walked
  insert_pages c [] = record { trie = nil; caches = []; ready = 0; state = c }
  insert_pages c (p ∷ ps) =
      let w = insert_pages (count_node (take_buffer c)) ps in
      record {
        trie = node (hash p) p (buffer c) c.clock c.next_id w.trie nil;
        caches = buffer c ∷ w.caches;
        ready = 0;
        state = w.state;
      }

  unfoldable pub usable : Cache → List ℕ → ℕ → List ℕ → ℕ → Bool
  usable c p toks_h toks node_id = not (elem node_id c.frozen) && (toks_h == hash p && same toks p)

  abbrev pub found : ℕ → ℕ → List ℕ → ℕ → ℕ → Walked → Forest → Walked
  found clock toks_h toks cache node_id w rest = record {
    trie = node toks_h toks cache clock node_id w.trie rest;
    caches = cache ∷ w.caches;
    ready = suc w.ready;
    state = w.state;
  }

  abbrev pub passed : ℕ → List ℕ → ℕ → ℕ → ℕ → Forest → Walked → Walked
  passed toks_h toks cache clock node_id next w = record w {
    trie = node toks_h toks cache clock node_id next w.trie;
  }

  -- The loop of prepare_lane among the nodes at one place of the trie.
  unfoldable pub walk : Bool → Cache → List (List ℕ) → Forest → Walked
  walk no_insert c [] f = record { trie = f; caches = []; ready = 0; state = c }
  walk no_insert c (p ∷ ps) nil =
      if no_insert
      then record { trie = nil; caches = []; ready = 0; state = c }
      else insert_pages c (p ∷ ps)
  walk no_insert c (p ∷ ps) (node toks_h toks cache clock node_id next rest) =
      elim (usable c p toks_h toks node_id) [
        | true ↦ found c.clock toks_h toks cache node_id (walk no_insert c ps next) rest
        | false ↦ passed toks_h toks cache clock node_id next (walk no_insert c (p ∷ ps) rest)
      ]

  unfoldable pub run_lane : Bool → List ℕ → List ℕ → Cache → DynCacheLane × Cache
  run_lane no_insert blocks tokens c =
      let w = walk no_insert c (pages (suc (length tokens)) c.page_len tokens) c.nodes in
      (
        record { gpu_blocks = blocks; cpu_blocks = w.caches; ready_count = w.ready },
        record w.state { nodes = w.trie },
      )

  unfoldable pub prepare_lane : Bool → List ℕ → List ℕ → Cache → DynCacheLane × Cache
  prepare_lane no_insert blocks tokens c =
      if c.disabled
      then (record { gpu_blocks = blocks; cpu_blocks = []; ready_count = 0 }, c)
      else run_lane no_insert blocks tokens c
