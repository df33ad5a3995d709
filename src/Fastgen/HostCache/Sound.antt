-- ===== src/Fastgen/HostCache/Sound.antt =====
-- The state of the host cache (cwm/fastgen/utils/cache.py) between calls: the count of its nodes, and
-- the order of their clocks.
use cwm.Prelude.{
  ℕ, suc, ◌+◌, ◌≡◌, ◌≤◌, refl, sym, ◌∙◌, Bool, true, false, List, [], ◌∷◌, some, length, arith,
  Bool-cases, either_way, inl, inr,
}
use cwm.Fastgen.HostCache.{
  Forest, nil, node, Cache, Walked, insert_pages, walk, usable, count_node, with_free, take_buffer,
  tick, pages, prepare_lane, run_lane, DynCacheLane,
}
use cwm.Fastgen.HostCache.Lookup.{walk_hit, walk_miss}
use cwm.Fastgen.HostCache.Evict.{number_of, maintain}
use cwm.Fastgen.HostCache.Evict.Clocks.{IsAged, IsSound, IsAged-at, maintain_lem}

-- Ticks and lanes.
IsAged-later : (a b : ℕ) (f : Forest) → a ≤ b → IsAged a f → IsAged b f
IsAged-later a b nil h aged = tt
IsAged-later a b (node toks_h toks cache clock node_id next rest) h (le, aged, later) =
    (omega arith, aged, IsAged-later a b rest h later)

tick-IsSound : (c : Cache) → IsSound c → IsSound (tick c)
unfolding tick
tick-IsSound c s = record {
  aged = IsAged-later c.clock (suc c.clock) c.nodes (omega arith) s.aged;
  counted = s.counted;
}

-- A walk adds to the count what it inserts, and keeps the clock.
record Grown (c : Cache) (n : ℕ) (w : Walked) : Type 0 where
  pub aged : IsAged c.clock w.trie
  pub counted : w.state.num_nodes + n ≡ c.num_nodes + number_of w.trie
  pub same_clock : w.state.clock ≡ c.clock

taken_by :
    (c : Cache) (l : List ℕ)
    → (suc (with_free c l).num_nodes ≡ suc c.num_nodes) × ((with_free c l).clock ≡ c.clock)
unfolding with_free
taken_by c [] = (refl, refl)
taken_by c (x ∷ l) = (refl, refl)

module _ (hash : List ℕ → ℕ) where
  taken :
      (c : Cache)
      → ((count_node (take_buffer c)).num_nodes ≡ suc c.num_nodes)
        × ((count_node (take_buffer c)).clock ≡ c.clock)
  unfolding count_node
  taken c = taken_by c c.free_caches

  insert-Grown : (c : Cache) (ps : List (List ℕ)) → Grown c 0 (insert_pages hash c ps)
  unfolding insert_pages number_of count_node
  insert-Grown c [] = record { aged = tt; counted = omega arith; same_clock = refl }
  insert-Grown c (p ∷ ps) =
      let d = count_node (take_buffer c) in
      let ih = insert-Grown d ps in
      let (number_d, clock_d) = taken c in
      record {
        aged = (
          omega arith,
          IsAged-at c.clock d.clock (insert_pages hash d ps).trie (sym clock_d) ih.aged,
          tt,
        );
        counted = omega (arith, ih.counted, number_d);
        same_clock = ih.same_clock ∙ clock_d;
      }

  walk-Grown :
      (b : Bool) (c : Cache) (ps : List (List ℕ)) (f : Forest)
      → IsAged c.clock f
      → Grown c (number_of f) (walk hash b c ps f)
  unfolding walk number_of
  walk-Grown b c [] f a = record { aged = a; counted = refl; same_clock = refl }
  walk-Grown true c (p ∷ ps) nil a = record { aged = tt; counted = refl; same_clock = refl }
  walk-Grown false c (p ∷ ps) nil a = insert-Grown c (p ∷ ps)
  walk-Grown b c (p ∷ ps) (node toks_h toks cache clock node_id next rest) (le, a, a') =
      elim (Bool-cases (usable hash c p toks_h toks node_id)) [
        | inl u ↦
            let g = walk-Grown b c ps next (IsAged-later clock c.clock next le a) in
            rw (walk_hit hash b c p ps toks_h toks cache clock node_id next rest u) (record {
              aged = (omega arith, g.aged, a');
              counted = omega (arith, g.counted);
              same_clock = g.same_clock;
            })
        | inr u ↦
            let g = walk-Grown b c (p ∷ ps) rest a' in
            rw (walk_miss hash b c p ps toks_h toks cache clock node_id next rest u) (record {
              aged = (le, a, g.aged);
              counted = omega (arith, g.counted);
              same_clock = g.same_clock;
            })
      ]

  lane-IsSound :
      (b : Bool) (blocks tokens : List ℕ) (c : Cache)
      → IsSound c
      → IsSound (prepare_lane hash b blocks tokens c).1
  unfolding prepare_lane run_lane
  lane-IsSound b blocks tokens c s =
      let ps = pages (suc (length tokens)) c.page_len tokens in
      let w = walk hash b c ps c.nodes in
      let g = walk-Grown b c ps c.nodes s.aged in
      let grown : IsSound (record w.state { nodes = w.trie }) = record {
        aged = IsAged-at w.state.clock c.clock w.trie g.same_clock g.aged;
        counted = omega (arith, g.counted, s.counted);
      } in
      either_way (λ (r : DynCacheLane × Cache). IsSound r.1) c.disabled
        (record { gpu_blocks = blocks; cpu_blocks = []; ready_count = 0 }, c)
        (run_lane hash b blocks tokens c) s grown

-- A cache whose nodes are counted, with no clock later than that of the parent or than the cache's,
-- stays so under tick and prepare_lane. maintain raises no assertion on it: what it takes off the
-- heap are leaves. It keeps the invariant and leaves no more nodes than the limit.
pub host_cache_lem :
    (hash : List ℕ → ℕ) (b : Bool) (blocks tokens : List ℕ) (c : Cache)
    → IsSound c
    → IsSound (tick c)
      × IsSound (prepare_lane hash b blocks tokens c).1
      × ((d : Cache) × (maintain c ≡ some d) × IsSound d × (d.num_nodes ≤ c.limit))
host_cache_lem hash b blocks tokens c s =
    (tick-IsSound c s, lane-IsSound hash b blocks tokens c s, maintain_lem c s)
