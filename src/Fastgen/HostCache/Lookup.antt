-- ===== src/Fastgen/HostCache/Lookup.antt =====
-- What prepare_lane (cwm/fastgen/utils/cache.py) finds in the trie, and that it finds again what it
-- has put there.
use cwm.Prelude.{
  ℕ, suc, ◌≡◌, refl, ap, sym, ◌∙◌, Bool, true, false, ◌&&◌, not, List, [], ◌∷◌, ◌==◌, take, length,
  arith, Bool-cases, ◌⊎◌, inl, inr,
}
use cwm.Prelude.Text.{same, same_sound, same_refl}
use cwm.Fastgen.HostCache.{
  Forest, nil, node, Cache, elem, buffer, take_buffer, count_node, insert_pages, usable, found,
  passed, walk,
}

-- A path of nodes with these pages and these buffers.
abbrev pub Trail : List (List ℕ) → List ℕ → Forest → Type 0
Trail [] [] f = Unit
Trail [] (c ∷ cs) f = ⊥
Trail (p ∷ ps) [] f = ⊥
Trail (p ∷ ps) (c ∷ cs) nil = ⊥
Trail (p ∷ ps) (c ∷ cs) (node toks_h toks cache clock node_id next rest) =
    ((toks ≡ p) × (cache ≡ c) × Trail ps cs next) ⊎ Trail (p ∷ ps) (c ∷ cs) rest

Trail-later :
    (toks_h : ℕ) (toks : List ℕ) (cache clock node_id : ℕ) (next rest : Forest) (ps : List (List ℕ))
    (cs : List ℕ)
    → Trail ps cs rest
    → Trail ps cs (node toks_h toks cache clock node_id next rest)
Trail-later toks_h toks cache clock node_id next rest [] [] h = tt
Trail-later toks_h toks cache clock node_id next rest [] (c ∷ cs) h = absurd h
Trail-later toks_h toks cache clock node_id next rest (p ∷ ps) [] h = absurd h
Trail-later toks_h toks cache clock node_id next rest (p ∷ ps) (c ∷ cs) h = inr h

module _ (hash : List ℕ → ℕ) where
  usable_sound :
      (c : Cache) (p : List ℕ) (toks_h : ℕ) (toks : List ℕ) (node_id : ℕ)
      → usable hash c p toks_h toks node_id ≡ true
      → toks ≡ p
  unfolding usable
  usable_sound c p toks_h toks node_id h = same_sound toks p (ground arith)

  pub walk_hit :
      (b : Bool) (c : Cache) (p : List ℕ) (ps : List (List ℕ)) (toks_h : ℕ) (toks : List ℕ)
      (cache clock node_id : ℕ) (next rest : Forest)
      → usable hash c p toks_h toks node_id ≡ true
      → walk hash b c (p ∷ ps) (node toks_h toks cache clock node_id next rest)
        ≡ found hash c.clock toks_h toks cache node_id (walk hash b c ps next) rest
  unfolding walk
  walk_hit b c p ps toks_h toks cache clock node_id next rest h = rw (h, walk) refl

  pub walk_miss :
      (b : Bool) (c : Cache) (p : List ℕ) (ps : List (List ℕ)) (toks_h : ℕ) (toks : List ℕ)
      (cache clock node_id : ℕ) (next rest : Forest)
      → usable hash c p toks_h toks node_id ≡ false
      → walk hash b c (p ∷ ps) (node toks_h toks cache clock node_id next rest)
        ≡ passed hash toks_h toks cache clock node_id next (walk hash b c (p ∷ ps) rest)
  unfolding walk
  walk_miss b c p ps toks_h toks cache clock node_id next rest h = rw (h, walk) refl

  -- The ready buffers are those of a path with the first pages.
  pub walk_ready :
      (b : Bool) (c : Cache) (ps : List (List ℕ)) (f : Forest)
      → let w = walk hash b c ps f in Trail (take w.ready ps) (take w.ready w.caches) f
  unfolding walk insert_pages
  walk_ready b c [] f = tt
  walk_ready true c (p ∷ ps) nil = tt
  walk_ready false c (p ∷ ps) nil = tt
  walk_ready b c (p ∷ ps) (node toks_h toks cache clock node_id next rest) =
      elim (Bool-cases (usable hash c p toks_h toks node_id)) [
        | inl u ↦
            rw (walk_hit b c p ps toks_h toks cache clock node_id next rest u)
              (inl (usable_sound c p toks_h toks node_id u, refl, walk_ready b c ps next))
        | inr u ↦
            let w = walk hash b c (p ∷ ps) rest in
            rw (walk_miss b c p ps toks_h toks cache clock node_id next rest u) (
              Trail-later toks_h toks cache clock node_id next rest (take w.ready (p ∷ ps))
                (take w.ready w.caches) (walk_ready b c (p ∷ ps) rest))
      ]

  insert-Trail :
      (c : Cache) (ps : List (List ℕ)) → let w = insert_pages hash c ps in Trail ps w.caches w.trie
  unfolding insert_pages
  insert-Trail c [] = tt
  insert-Trail c (p ∷ ps) = inl (refl, refl, insert-Trail (count_node (take_buffer c)) ps)

  -- With insertion all pages have a path afterwards.
  pub walk-Trail :
      (c : Cache) (ps : List (List ℕ)) (f : Forest)
      → let w = walk hash false c ps f in Trail ps w.caches w.trie
  unfolding walk
  walk-Trail c [] f = tt
  walk-Trail c (p ∷ ps) nil = insert-Trail c (p ∷ ps)
  walk-Trail c (p ∷ ps) (node toks_h toks cache clock node_id next rest) =
      elim (Bool-cases (usable hash c p toks_h toks node_id)) [
        | inl u ↦
            rw (walk_hit false c p ps toks_h toks cache clock node_id next rest u)
              (inl (usable_sound c p toks_h toks node_id u, refl, walk-Trail c ps next))
        | inr u ↦
            let w = walk hash false c (p ∷ ps) rest in
            rw (walk_miss false c p ps toks_h toks cache clock node_id next rest u) (
              Trail-later toks_h toks cache clock node_id next w.trie (p ∷ ps) w.caches
                (walk-Trail c (p ∷ ps) rest))
      ]

  usable_open :
      (c d : Cache) (p : List ℕ) (toks_h : ℕ) (toks : List ℕ) (node_id : ℕ)
      → c.frozen ≡ d.frozen
      → usable hash c p toks_h toks node_id ≡ usable hash d p toks_h toks node_id
  unfolding usable
  usable_open c d p toks_h toks node_id h =
      ap (λ l. not (elem node_id l) && (toks_h == hash p && same toks p)) h

  -- A second walk, with no frozen node at the start of either.
  module _ (b : Bool) (d : Cache) (open_d : d.frozen ≡ []) where
    usable_new : (p : List ℕ) (i : ℕ) → usable hash d p (hash p) p i ≡ true
    unfolding usable
    usable_new p i = rw open_d (ground (arith, same_refl p))

    again_new :
        (c : Cache) (ps : List (List ℕ))
        → let w = insert_pages hash c ps in
          let v = walk hash b d ps w.trie in (v.ready ≡ length ps) × (v.caches ≡ w.caches)
    unfolding walk insert_pages
    again_new c [] = (refl, refl)
    again_new c (p ∷ ps) =
        let (r, e) = again_new (count_node (take_buffer c)) ps in
        let w = insert_pages hash (count_node (take_buffer c)) ps in
        rw
          (walk_hit b d p ps (hash p) p (buffer c) c.clock c.next_id w.trie nil
            (usable_new p c.next_id))
          (ap suc r, ap (λ l. buffer c ∷ l) e)

    pub again :
        (c : Cache) (ps : List (List ℕ)) (f : Forest)
        → c.frozen ≡ []
        → let w = walk hash false c ps f in
          let v = walk hash b d ps w.trie in (v.ready ≡ length ps) × (v.caches ≡ w.caches)
    unfolding walk
    again c [] f open_c = (refl, refl)
    again c (p ∷ ps) nil open_c = again_new c (p ∷ ps)
    again c (p ∷ ps) (node toks_h toks cache clock node_id next rest) open_c =
        let alike : usable hash c p toks_h toks node_id ≡ usable hash d p toks_h toks node_id =
          usable_open c d p toks_h toks node_id (open_c ∙ sym open_d) in
        elim (Bool-cases (usable hash c p toks_h toks node_id)) [
          | inl u ↦
              let (r, e) = again c ps next open_c in
              let w = walk hash false c ps next in
              rw
                (
                  walk_hit false c p ps toks_h toks cache clock node_id next rest u,
                  walk_hit b d p ps toks_h toks cache c.clock node_id w.trie rest (sym alike ∙ u),
                )
                (ap suc r, ap (λ l. cache ∷ l) e)
          | inr u ↦
              let w = walk hash false c (p ∷ ps) rest in
              rw
                (
                  walk_miss false c p ps toks_h toks cache clock node_id next rest u,
                  walk_miss b d p ps toks_h toks cache clock node_id next w.trie (sym alike ∙ u),
                )
                (again c (p ∷ ps) rest open_c)
        ]
