-- ===== src/Fastgen/HostCache/Again.antt =====
-- prepare_lane (cwm/fastgen/utils/cache.py) as a whole: its pages, its buffers, and a second call.
use cwm.Prelude.{
  ℕ, zero, suc, ◌≡◌, ◌<◌, ◌≤◌, refl, ap, sym, ◌∙◌, Bool, true, false, List, [], ◌∷◌, ◌++◌, leb,
  if◌then◌else◌, take, drop, length, arith, Bool-cases, inl, inr, take-append-drop, length-drop,
  append_assoc,
}
use cwm.Fastgen.HostCache.{
  Forest, nil, node, Cache, tick, pages, take_buffer, with_free, run_lane, count_node, insert_pages,
  usable, walk, prepare_lane,
}
use cwm.Fastgen.HostCache.Lookup.{Trail, walk_ready, walk-Trail, again, walk_hit, walk_miss}

abbrev pub join : List (List ℕ) → List ℕ
join [] = []
join (p ∷ ps) = p ++ join ps

-- The pages are the tokens up to a rest that is too short for a page.
pages_lem :
    (fuel len : ℕ) (tokens : List ℕ)
    → 0 < len
    → length tokens < fuel
    → (rest : List ℕ) × (tokens ≡ join (pages fuel len tokens) ++ rest) × (length rest < len)
unfolding pages
pages_lem zero len tokens h f = absurd (omega arith)
pages_lem (suc fuel) len tokens h f = elim (Bool-cases (leb len (length tokens))) [
  | inl e ↦
      let fits : len ≤ length tokens = ground (arith, e) in
      let (rest, is, short) =
        pages_lem fuel len (drop len tokens) h (omega (arith, length-drop {0} len tokens)) in
      let front = sym (take-append-drop len tokens) in
      rw e (
        rest,
        front
            ∙ ap (λ l. take len tokens ++ l) is
            ∙ sym (append_assoc (take len tokens) (join (pages fuel len (drop len tokens))) rest),
        short,
      )
  | inr e ↦ rw e (tokens, refl, ground (arith, e))
]

-- What a walk leaves of the settings.
Kept : Cache → Cache → Type 0
Kept c d = (d.page_len ≡ c.page_len) × (d.disabled ≡ c.disabled)

free-Kept : (c : Cache) (l : List ℕ) → Kept c (with_free c l)
unfolding with_free Kept
free-Kept c [] = (refl, refl)
free-Kept c (x ∷ l) = (refl, refl)

if_false : {A : Type 0} (b : Bool) (x y : A) → b ≡ false → (if b then x else y) ≡ y
if_false b x y h = rw h refl

module _ (hash : List ℕ → ℕ) where
  enabled_run :
      (b : Bool) (blocks tokens : List ℕ) (c : Cache)
      → c.disabled ≡ false
      → prepare_lane hash b blocks tokens c ≡ run_lane hash b blocks tokens c
  unfolding prepare_lane
  enabled_run b blocks tokens c h = if_false c.disabled _ (run_lane hash b blocks tokens c) h

  insert-Kept : (c : Cache) (ps : List (List ℕ)) → Kept c (insert_pages hash c ps).state
  unfolding insert_pages Kept count_node
  insert-Kept c [] = (refl, refl)
  insert-Kept c (p ∷ ps) =
      let ih = insert-Kept (count_node (take_buffer c)) ps in
      let k = free-Kept c c.free_caches in (ih.0 ∙ k.0, ih.1 ∙ k.1)

  walk-Kept :
      (b : Bool) (c : Cache) (ps : List (List ℕ)) (f : Forest) → Kept c (walk hash b c ps f).state
  unfolding walk Kept
  walk-Kept b c [] f = (refl, refl)
  walk-Kept true c (p ∷ ps) nil = (refl, refl)
  walk-Kept false c (p ∷ ps) nil = insert-Kept c (p ∷ ps)
  walk-Kept b c (p ∷ ps) (node toks_h toks cache clock node_id next rest) =
      elim (Bool-cases (usable hash c p toks_h toks node_id)) [
        | inl u ↦
            rw (walk_hit hash b c p ps toks_h toks cache clock node_id next rest u)
              (walk-Kept b c ps next)
        | inr u ↦
            rw (walk_miss hash b c p ps toks_h toks cache clock node_id next rest u)
              (walk-Kept b c (p ∷ ps) rest)
      ]

-- A cache that is not disabled hands out, as ready, the buffers on a path of its nodes that hold the
-- first pages of the tokens, and no page but the tokens' own; without no_insert, all of the lane's
-- buffers stand afterwards on a path with all pages. The pages are the tokens but for a rest that is
-- shorter than a page.
pub prepare_lane_lem :
    (hash : List ℕ → ℕ) (b : Bool) (blocks tokens : List ℕ) (c : Cache)
    → c.disabled ≡ false
    → 0 < c.page_len
    → let ps = pages (suc (length tokens)) c.page_len tokens in
      let r = prepare_lane hash b blocks tokens c in
      let s = prepare_lane hash false blocks tokens c in
      Trail (take r.0.ready_count ps) (take r.0.ready_count r.0.cpu_blocks) c.nodes
      × Trail ps s.0.cpu_blocks s.1.nodes
      × ((rest : List ℕ) × (tokens ≡ join ps ++ rest) × (length rest < c.page_len))
unfolding run_lane
prepare_lane_lem hash b blocks tokens c enabled h =
    let ps = pages (suc (length tokens)) c.page_len tokens in
    rw (enabled_run hash b blocks tokens c enabled, enabled_run hash false blocks tokens c enabled)
      (
        walk_ready hash b c ps c.nodes,
        walk-Trail hash c ps c.nodes,
        pages_lem (suc (length tokens)) c.page_len tokens h (omega arith),
      )

again_at :
    (hash : List ℕ → ℕ) (b : Bool) (d : Cache)
    → d.frozen ≡ []
    → (c : Cache) (ps qs : List (List ℕ)) → c.frozen ≡ []
    → qs ≡ ps
    → let w = walk hash false c ps c.nodes in
      let v = walk hash b d qs w.trie in (v.ready ≡ length ps) × (v.caches ≡ w.caches)
again_at hash b d open_d c ps qs open_c e = rw e (again hash b d open_d c ps c.nodes open_c)

-- After prepare_lane on a cache with no frozen node and a tick, the same tokens are found again: all
-- their pages are ready, in the buffers of the first call.
pub prepare_lane-again :
    (hash : List ℕ → ℕ) (b : Bool) (blocks blocks' tokens : List ℕ) (c : Cache)
    → c.disabled ≡ false
    → c.frozen ≡ []
    → let ps = pages (suc (length tokens)) c.page_len tokens in
      let r = prepare_lane hash false blocks tokens c in
      let s = prepare_lane hash b blocks' tokens (tick r.1) in
      (s.0.ready_count ≡ length ps) × (s.0.cpu_blocks ≡ r.0.cpu_blocks)
unfolding run_lane tick Kept
prepare_lane-again hash b blocks blocks' tokens c enabled open_c =
    let ps = pages (suc (length tokens)) c.page_len tokens in
    let w = walk hash false c ps c.nodes in
    let kept = walk-Kept hash false c ps c.nodes in
    let first = enabled_run hash false blocks tokens c enabled in
    let d = tick (run_lane hash false blocks tokens c).1 in
    let second = enabled_run hash b blocks' tokens d (kept.1 ∙ enabled) in
    rw (first, second)
      (again_at hash b d refl c ps (pages (suc (length tokens)) d.page_len tokens) open_c
        (ap (λ n. pages (suc (length tokens)) n tokens) kept.0))
