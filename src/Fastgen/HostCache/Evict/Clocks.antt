-- ===== src/Fastgen/HostCache/Evict/Clocks.antt =====
-- A node has no later clock than its parent (cwm/fastgen/utils/cache.py), so that maintain evicts
-- leaves only.
use cwm.Prelude.{
  ℕ, zero, suc, ◌+◌, ◌-◌, ◌*◌, ◌/◌, ◌≡◌, ◌<◌, ◌≤◌, refl, ap, sym, ◌∙◌, Bool, true, false, ◌∷◌,
  Option, none, some, if◌then◌else◌, arith, Bool-cases, either_way, ◌⊎◌, inl, inr,
}
use mathlib.Core.Option.{some-injective}
use cwm.Fastgen.HostCache.{Forest, nil, node, Cache}
use cwm.Fastgen.HostCache.Evict.{
  Entry, before, alike, number_of, first_entry, least, Removed, absent, inner, gone, leaf_of,
  in_next, remove, evict, maintain,
}

-- No clock is later than that of the parent.
abbrev pub IsAged : ℕ → Forest → Type 0
IsAged b nil = Unit
IsAged b (node toks_h toks cache clock node_id next rest) =
    (clock ≤ b) × IsAged clock next × IsAged b rest

-- No node at depth d or below comes before k.
abbrev Low : Entry → ℕ → Forest → Type 0
Low k d nil = Unit
Low k d (node toks_h toks cache clock node_id next rest) =
    (before (clock, d, node_id) k ≡ false) × Low k (suc d) next × Low k d rest

before_trans : (x y z : Entry) → before x y ≡ false → before y z ≡ false → before x z ≡ false
unfolding before
before_trans (a, d, i) (b, e, j) (c, f, l) h g = ground arith

before_refl : (x : Entry) → before x x ≡ false
unfolding before
before_refl (a, d, i) = ground arith

before_total : (x y : Entry) → before x y ≡ true → before y x ≡ false
unfolding before
before_total (a, d, i) (b, e, j) h = ground arith

if_true : (b : Bool) (x y : Entry) → b ≡ true → (if b then x else y) ≡ x
if_true b x y h = rw h refl

if_false : (b : Bool) (x y : Entry) → b ≡ false → (if b then x else y) ≡ y
if_false b x y h = rw h refl

-- Neither of two entries comes before the first of them, which is one of them.
abbrev NotBefore : Option Entry → Entry → Type 0
NotBefore none k = Unit
NotBefore (some x) k = before x k ≡ false

first-NotBefore :
    (x y : Option Entry) (k : Entry) → NotBefore (first_entry x y) k → NotBefore x k × NotBefore y k
unfolding first_entry
first-NotBefore none y k h = (tt, h)
first-NotBefore (some a) none k h = (h, tt)
first-NotBefore (some a) (some b) k h = elim (Bool-cases (before b a)) [
  | inl u ↦
      let m = rw (if_true (before b a) b a u) at h in (before_trans a b k (before_total b a u) m, m)
  | inr u ↦ let m = rw (if_false (before b a) b a u) at h in (m, before_trans b a k u m)
]

first_is : (x y : Option Entry) (k : Entry) → first_entry x y ≡ some k → (x ≡ some k) ⊎ (y ≡ some k)
unfolding first_entry
first_is none y k h = inr h
first_is (some a) none k h = inl h
first_is (some a) (some b) k h = elim (Bool-cases (before b a)) [
  | inl u ↦ inr (ap some (sym (if_true (before b a) b a u)) ∙ h)
  | inr u ↦ inl (ap some (sym (if_false (before b a) b a u)) ∙ h)
]

least-Low : (k : Entry) (d : ℕ) (f : Forest) → NotBefore (least d f) k → Low k d f
unfolding least
least-Low k d nil h = tt
least-Low k d (node toks_h toks cache clock node_id next rest) h =
    let others = first_entry (least (suc d) next) (least d rest) in
    let (own, deep) = first-NotBefore (some (clock, d, node_id)) others k h in
    let (lower, later) = first-NotBefore (least (suc d) next) (least d rest) k deep in
    (own, least-Low k (suc d) next lower, least-Low k d rest later)

abbrev is_absent : Removed → Bool
is_absent absent = true
is_absent inner = false
is_absent (gone x f) = false

abbrev is_inner : Removed → Bool
is_inner absent = false
is_inner inner = true
is_inner (gone x f) = false

leaf_found : (cache : ℕ) (next rest : Forest) → is_absent (leaf_of cache next rest) ≡ false
leaf_found cache nil rest = refl
leaf_found cache (node toks_h toks cache' clock node_id next rest') rest = refl

in_next_found :
    (r s : Removed) (f : Forest → Forest)
    → (is_absent r ≡ false) ⊎ (is_absent s ≡ false)
    → is_absent (in_next r f s) ≡ false
in_next_found absent s f (inl h) = cc
in_next_found absent s f (inr h) = h
in_next_found inner s f h = refl
in_next_found (gone x n) s f h = refl

found_either :
    (b : Bool) (r s : Removed)
    → is_absent r ≡ false
    → (b ≡ false → is_absent s ≡ false)
    → is_absent (if b then r else s) ≡ false
found_either true r s h g = h
found_either false r s h g = g refl

not_alike : (x y : Entry) → alike x y ≡ false → x ≡ y → ⊥
not_alike (a, d, i) y h e =
    let h' = rw (sym e) at h in let self : alike (a, d, i) (a, d, i) ≡ true = ground arith in cc

least_found :
    (k : Entry) (d : ℕ) (f : Forest) → least d f ≡ some k → is_absent (remove d k f) ≡ false
unfolding least remove
least_found k d nil h = cc
least_found k d (node toks_h toks cache clock node_id next rest) h =
    let lower = remove (suc d) k next in
    let later = remove d k rest in
    let up = λ (r : Forest). node toks_h toks cache clock node_id next r in
    let down = λ (n : Forest). node toks_h toks cache clock node_id n rest in
    let others = first_entry (least (suc d) next) (least d rest) in
    let other = in_next lower down (in_next later up absent) in
    let deep : (others ≡ some k) → is_absent other ≡ false = λ e.
      in_next_found lower (in_next later up absent) down
        (elim (first_is (least (suc d) next) (least d rest) k e) [
          | inl q ↦ inl (least_found k (suc d) next q)
          | inr q ↦ inr (in_next_found later absent up (inl (least_found k d rest q)))
        ]) in
    found_either (alike (clock, d, node_id) k) (leaf_of cache next rest) other
      (leaf_found cache next rest)
      (λ u. elim (first_is (some (clock, d, node_id)) others k h) [
        | inl e ↦
            absurd (not_alike (clock, d, node_id) k u (some-injective (clock, d, node_id) k e))
        | inr e ↦ deep e
      ])

-- The least node is a leaf.
leaf_inner :
    (k : Entry) (d cache clock node_id : ℕ) (next rest : Forest)
    → alike (clock, d, node_id) k ≡ true
    → Low k (suc d) next
    → IsAged clock next
    → is_inner (leaf_of cache next rest) ≡ false
unfolding before
leaf_inner k d cache clock node_id nil rest h low aged = refl
leaf_inner (a, e, i) d cache clock node_id (node toks_h toks cache' clock' id' next rest') rest h
      low aged =
    absurd (ground (arith, low.0, aged.0, h))

inner_either :
    (b : Bool) (r s : Removed)
    → (b ≡ true → is_inner r ≡ false)
    → is_inner s ≡ false
    → is_inner (if b then r else s) ≡ false
inner_either true r s h g = h refl
inner_either false r s h g = g

in_next_inner :
    (r s : Removed) (f : Forest → Forest)
    → is_inner r ≡ false
    → is_inner s ≡ false
    → is_inner (in_next r f s) ≡ false
in_next_inner absent s f h g = g
in_next_inner inner s f h g = cc
in_next_inner (gone x n) s f h g = refl

remove_leaf :
    (k : Entry) (b d : ℕ) (f : Forest) → Low k d f → IsAged b f → is_inner (remove d k f) ≡ false
unfolding remove
remove_leaf k b d nil low aged = refl
remove_leaf k b d (node toks_h toks cache clock node_id next rest) (own, low, later)
      (le, aged, aged') =
    inner_either (alike (clock, d, node_id) k) (leaf_of cache next rest)
      (in_next (remove (suc d) k next) (λ n. node toks_h toks cache clock node_id n rest)
        (in_next (remove d k rest) (λ r. node toks_h toks cache clock node_id next r) absent))
      (λ u. leaf_inner k d cache clock node_id next rest u low aged)
      (in_next_inner (remove (suc d) k next)
        (in_next (remove d k rest) (λ r. node toks_h toks cache clock node_id next r) absent)
        (λ n. node toks_h toks cache clock node_id n rest)
        (remove_leaf k clock (suc d) next low aged)
        (in_next_inner (remove d k rest) absent (λ r. node toks_h toks cache clock node_id next r)
          (remove_leaf k b d rest later aged') refl))

-- A removal takes one node, and leaves the clocks in order.
abbrev After : ℕ → ℕ → Removed → Type 0
After b n absent = Unit
After b n inner = Unit
After b n (gone x f) = (n ≡ suc (number_of f)) × IsAged b f

in_next-After :
    (b n c m : ℕ) (r s : Removed) (f : Forest → Forest)
    → After c m r
    → After b n s
    → ((g : Forest)
        → m ≡ suc (number_of g)
        → IsAged c g
        → (n ≡ suc (number_of (f g))) × IsAged b (f g))
    → After b n (in_next r f s)
in_next-After b n c m absent s f h g up = g
in_next-After b n c m inner s f h g up = tt
in_next-After b n c m (gone x t) s f h g up = up t h.0 h.1

leaf_of-After :
    (b cache : ℕ) (next rest : Forest)
    → IsAged b rest
    → After b (suc (number_of next + number_of rest)) (leaf_of cache next rest)
unfolding number_of
leaf_of-After b cache nil rest h = (omega arith, h)
leaf_of-After b cache (node toks_h toks cache' clock node_id next rest') rest h = tt

remove_one : (k : Entry) (b d : ℕ) (f : Forest) → IsAged b f → After b (number_of f) (remove d k f)
unfolding remove number_of
remove_one k b d nil aged = tt
remove_one k b d (node toks_h toks cache clock node_id next rest) (le, aged, aged') =
    let n = suc (number_of next + number_of rest) in
    let later =
      in_next-After b n b (number_of rest) (remove d k rest) absent
        (λ r. node toks_h toks cache clock node_id next r) (remove_one k b d rest aged') tt
        (λ g e a. (omega arith, (le, aged, a))) in
    let lower =
      in_next-After b n clock (number_of next) (remove (suc d) k next)
        (in_next (remove d k rest) (λ r. node toks_h toks cache clock node_id next r) absent)
        (λ t. node toks_h toks cache clock node_id t rest) (remove_one k clock (suc d) next aged)
        later (λ g e a. (omega arith, (le, a, aged'))) in
    either_way (After b n) (alike (clock, d, node_id) k) (leaf_of cache next rest)
      (in_next (remove (suc d) k next) (λ t. node toks_h toks cache clock node_id t rest)
        (in_next (remove d k rest) (λ r. node toks_h toks cache clock node_id next r) absent))
      (leaf_of-After b cache next rest aged') lower

-- The invariant: the nodes are counted, and their clocks are in order and not in the future.
pub record IsSound (c : Cache) : Type 0 where
  pub aged : IsAged c.clock c.nodes
  pub counted : c.num_nodes ≡ number_of c.nodes

first_exists : (a : Entry) (y : Option Entry) → (k : Entry) × (first_entry (some a) y ≡ some k)
unfolding first_entry
first_exists a none = (a, refl)
first_exists a (some b) = ((if before b a then b else a), refl)

least_exists : (d : ℕ) (f : Forest) → 0 < number_of f → (k : Entry) × (least d f ≡ some k)
unfolding least number_of
least_exists d nil h = absurd (omega arith)
least_exists d (node toks_h toks cache clock node_id next rest) h =
    first_exists (clock, d, node_id) (first_entry (least (suc d) next) (least d rest))

gone_one :
    (b n : ℕ) (r : Removed)
    → is_absent r ≡ false
    → is_inner r ≡ false
    → After b n r
    → (x : ℕ) × (f : Forest) × (r ≡ gone x f) × (n ≡ suc (number_of f)) × IsAged b f
gone_one b n absent h g a = cc
gone_one b n inner h g a = cc
gone_one b n (gone x f) h g a = (x, f, refl, a.0, a.1)

evict_step :
    (n : ℕ) (c : Cache) (k : Entry) (x : ℕ) (f : Forest)
    → least 0 c.nodes ≡ some k
    → remove 0 k c.nodes ≡ gone x f
    → evict (suc n) c ≡ evict n (record c { nodes = f; free_caches = x ∷ c.free_caches })
unfolding evict
evict_step n c k x f e e' = rw (e, evict) (rw e' refl)

evict_lem :
    (n : ℕ) (c : Cache)
    → IsAged c.clock c.nodes
    → n ≤ number_of c.nodes
    → (e : Cache) × (evict n c ≡ some e)
      × (number_of c.nodes ≡ number_of e.nodes + n)
      × (e.num_nodes ≡ c.num_nodes)
      × (e.clock ≡ c.clock)
      × IsAged c.clock e.nodes
unfolding evict
evict_lem zero c aged h = (c, refl, omega arith, refl, refl, aged)
evict_lem (suc n) c aged h =
    let (k, is_k) = least_exists 0 c.nodes (omega arith) in
    let low : Low k 0 c.nodes = least-Low k 0 c.nodes (rw is_k (before_refl k)) in
    let (x, f, is_f, fewer, aged') =
      gone_one c.clock (number_of c.nodes) (remove 0 k c.nodes) (least_found k 0 c.nodes is_k)
        (remove_leaf k c.clock 0 c.nodes low aged) (remove_one k c.clock 0 c.nodes aged) in
    let d = record c { nodes = f; free_caches = x ∷ c.free_caches } in
    let (e, made, left, same_number, same_clock, aged_e) = evict_lem n d aged' (omega arith) in
    (e, evict_step n c k x f is_k is_f ∙ made, omega arith, same_number, same_clock, aged_e)

pub IsAged-at : (a b : ℕ) (f : Forest) → a ≡ b → IsAged b f → IsAged a f
IsAged-at a b f e h = rw e h

maintain_run :
    (c : Cache)
    → c.num_nodes ≡ number_of c.nodes
    → c.limit < c.num_nodes
    → let n = c.num_nodes - 3 * c.limit / 4 in
      maintain c ≡ evict n (record c { num_nodes = c.num_nodes - n })
unfolding maintain
maintain_run c h g = ground arith

maintain_small : (c : Cache) → c.num_nodes ≤ c.limit → maintain c ≡ some c
unfolding maintain
maintain_small c h = ground arith

le_or_lt : (i j : ℕ) → (i ≤ j) ⊎ (j < i)
le_or_lt i j = ground arith

pub maintain_lem :
    (c : Cache)
    → IsSound c
    → (d : Cache) × (maintain c ≡ some d) × IsSound d × (d.num_nodes ≤ c.limit)
maintain_lem c s = elim (le_or_lt c.num_nodes c.limit) [
  | inl h ↦ (c, maintain_small c h, s, h)
  | inr h ↦
      let n = c.num_nodes - 3 * c.limit / 4 in
      let (e, made, left, same_number, same_clock, aged) =
        evict_lem n (record c { num_nodes = c.num_nodes - n }) s.aged (omega (arith, s.counted)) in
      let aged' : IsAged e.clock e.nodes = IsAged-at e.clock c.clock e.nodes same_clock aged in
      (
        e,
        maintain_run c s.counted h ∙ made,
        record { aged = aged'; counted = omega (arith, s.counted, left, same_number) },
        omega (arith, same_number),
      )
]
