-- ===== src/Fastgen/HostCache/Evict.antt =====
-- maintain of the host cache (cwm/fastgen/utils/cache.py): nodes are evicted in the order of their
-- clocks, deeper nodes first. A node is known by its entry in the heap, the clock, the depth and
-- node_id; the factor 0.75 of `downsize` is 3 / 4. In the source the depth is negative.
pub mod Clocks
use cwm.Prelude.{
  ℕ, zero, suc, ◌+◌, ◌-◌, ◌*◌, ◌/◌, Bool, true, false, ◌&&◌, ◌||◌, List, [], ◌∷◌, Option, none,
  some, ◌==◌, leb, ltb, if◌then◌else◌,
}
use cwm.Fastgen.HostCache.{Forest, nil, node, Cache}

abbrev pub Entry : Type 0
Entry = ℕ × ℕ × ℕ

-- The order of the heap.
unfoldable pub before : Entry → Entry → Bool
before (a, d, i) (b, e, j) = ltb a b || (a == b && (ltb e d || (d == e && ltb i j)))

abbrev pub alike : Entry → Entry → Bool
alike (a, d, i) (b, e, j) = a == b && (d == e && i == j)

unfoldable pub number_of : Forest → ℕ
number_of nil = 0
number_of (node toks_h toks cache clock node_id next rest) = suc (number_of next + number_of rest)

unfoldable pub first_entry : Option Entry → Option Entry → Option Entry
first_entry none y = y
first_entry (some a) none = some a
first_entry (some a) (some b) = some (if before b a then b else a)

-- What heappop gives for the nodes at a depth.
unfoldable pub least : ℕ → Forest → Option Entry
least d nil = none
least d (node toks_h toks cache clock node_id next rest) =
    first_entry (some (clock, d, node_id)) (first_entry (least (suc d) next) (least d rest))

-- The removal of a node from the list it stands in: `inner` is the failed assertion that it is a leaf.
pub data Removed : Type 0 where
  absent : Removed
  inner : Removed
  gone : ℕ → Forest → Removed

abbrev pub leaf_of : ℕ → Forest → Forest → Removed
leaf_of cache nil rest = gone cache rest
leaf_of cache (node toks_h toks cache' clock node_id next' rest') rest = inner

abbrev pub in_next : Removed → (Forest → Forest) → Removed → Removed
in_next absent f r = r
in_next inner f r = inner
in_next (gone x n) f r = gone x (f n)

unfoldable pub remove : ℕ → Entry → Forest → Removed
remove d k nil = absent
remove d k (node toks_h toks cache clock node_id next rest) =
    let lower = remove (suc d) k next in
    let later = remove d k rest in
    if alike (clock, d, node_id) k
    then leaf_of cache next rest
    else in_next lower (λ n. node toks_h toks cache clock node_id n rest)
        (in_next later (λ r. node toks_h toks cache clock node_id next r) absent)

abbrev pub put_free : Cache → Removed → Option Cache
put_free c absent = none
put_free c inner = none
put_free c (gone x f) = some (record c { nodes = f; free_caches = x ∷ c.free_caches })

unfoldable pub evict : ℕ → Cache → Option Cache
evict zero c = some c
evict (suc n) c = elim (least 0 c.nodes) [
  | none ↦ none
  | some k ↦ elim (put_free c (remove 0 k c.nodes)) [ none ↦ none | some d ↦ evict n d ]
]

unfoldable pub maintain : Cache → Option Cache
maintain c =
    let to_evict = c.num_nodes - 3 * c.limit / 4 in
    if leb c.num_nodes c.limit
    then some c
    else (if c.num_nodes == number_of c.nodes
        then evict to_evict (record c { num_nodes = c.num_nodes - to_evict })
        else none)
