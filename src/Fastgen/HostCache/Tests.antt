-- ===== src/Fastgen/HostCache/Tests.antt =====
-- The host cache on small prompts: pages of two tokens, at most three nodes.
use cwm.Prelude.{
  ℕ, suc, ◌≡◌, ◌<◌, ◌≤◌, refl, true, false, List, [], ◌∷◌, ◌++◌, some, length, take, arith,
}
use cwm.Prelude.Text.{same}
use cwm.Fastgen.HostCache.{
  nil, node, Cache, tick, pages, prepare_lane, run_lane, walk, insert_pages, usable,
}
use cwm.Fastgen.HostCache.Lookup.{Trail}
use cwm.Fastgen.HostCache.Again.{join, prepare_lane_lem, prepare_lane-again}
use cwm.Fastgen.HostCache.Evict.{maintain, evict, least, remove, number_of, before, first_entry}
use cwm.Fastgen.HostCache.Evict.Clocks.{IsSound}
use cwm.Fastgen.HostCache.Sound.{host_cache_lem}

abbrev full : Cache
full = record {
  limit = 2;
  page_len = 2;
  nodes =
      node 2 (1 ∷ 2 ∷ []) 0 5 0 (node 2 (3 ∷ 4 ∷ []) 1 5 1 (node 2 (7 ∷ 7 ∷ []) 2 4 2 nil nil) nil)
        nil;
  frozen = [];
  num_nodes = 3;
  clock = 5;
  next_id = 3;
  disabled = false;
  free_caches = [];
  built = 3;
}

abbrev prompt : List ℕ
prompt = 1 ∷ 2 ∷ 3 ∷ 4 ∷ 9 ∷ 9 ∷ 8 ∷ []

reused_t : (prepare_lane length false [] prompt full).0.ready_count ≡ 2
unfolding prepare_lane run_lane walk insert_pages usable pages same
reused_t = refl

buffers_t : (prepare_lane length false [] prompt full).0.cpu_blocks ≡ (0 ∷ 1 ∷ 3 ∷ [])
unfolding prepare_lane run_lane walk insert_pages usable pages same
buffers_t = refl

evicted_t :
    maintain full
    ≡ some (record full {
      nodes = node 2 (1 ∷ 2 ∷ []) 0 5 0 nil nil;
      num_nodes = 1;
      free_caches = 1 ∷ 2 ∷ [];
    })
unfolding maintain evict least remove number_of before first_entry
evicted_t = refl

full-IsSound : IsSound full
unfolding number_of
full-IsSound = record {
  aged = (omega arith, (omega arith, (omega arith, tt, tt), tt), tt);
  counted = refl;
}

prepare_lane_lem_example :
    let ps = pages (suc (length prompt)) full.page_len prompt in
    let r = prepare_lane length true [] prompt full in
    let s = prepare_lane length false [] prompt full in
    Trail (take r.0.ready_count ps) (take r.0.ready_count r.0.cpu_blocks) full.nodes
    × Trail ps s.0.cpu_blocks s.1.nodes
    × ((rest : List ℕ) × (prompt ≡ join ps ++ rest) × (length rest < full.page_len))
prepare_lane_lem_example = prepare_lane_lem length true [] prompt full refl (omega arith)

prepare_lane-again_example :
    let ps = pages (suc (length prompt)) full.page_len prompt in
    let r = prepare_lane length false [] prompt full in
    let s = prepare_lane length true (4 ∷ []) prompt (tick r.1) in
    (s.0.ready_count ≡ length ps) × (s.0.cpu_blocks ≡ r.0.cpu_blocks)
prepare_lane-again_example = prepare_lane-again length true [] (4 ∷ []) prompt full refl refl

host_cache_lem_example :
    IsSound (tick full)
    × IsSound (prepare_lane length false [] prompt full).1
    × ((d : Cache) × (maintain full ≡ some d) × IsSound d × (d.num_nodes ≤ full.limit))
host_cache_lem_example = host_cache_lem length false [] prompt full full-IsSound
