-- ===== src/Data/FilterMap.antt =====
-- cwm/data/ops/filter_map.py: FilterMap, and the operators `filter` and `map` made from it. The
-- object's state is that of the dataset below; `fn` is stateless, as the code's comment asks.
use cwm.Prelude.{
  ℕ, zero, suc, ◌<◌, ◌≡◌, refl, ap, ◌∙◌, Bool, true, List, [], ◌∷◌, map, arith, if◌then◌else◌,
  length, Bool-cases, inl, inr,
}
use cwm.Data.{Outcome, item, stop, fault, spin, Dataset, at, Yields, done, more, Resumes}

module _ {S D A B : Type 0} (ds : Dataset S D A) (fn : A → Bool × B) where
  -- The body of the loop; `again` is the next round.
  filter_map_round : (S → Outcome B × S) → Outcome A × S → Outcome B × S
  filter_map_round again (item a, s) = if (fn a).0 then (item (fn a).1, s) else again s
  filter_map_round again (stop, s) = (stop, s)
  filter_map_round again (fault, s) = (fault, s)
  filter_map_round again (spin, s) = (spin, s)

  filter_map_next : ℕ → S → Outcome B × S
  filter_map_next zero s = (spin, s)
  filter_map_next (suc fuel) s = filter_map_round (filter_map_next fuel) (ds.next s)

module _ {S D A B : Type 0} (fuel : ℕ) (ds : Dataset S D A) (fn : A → Bool × B) where
  unfoldable pub filter_map : Dataset S D B
  unfolding filter_map_next filter_map_round
  filter_map = record {
    next = filter_map_next ds fn fuel;
    reset = ds.reset;
    state_dict = ds.state_dict;
    load_state_dict = ds.load_state_dict;
  }

module _ {S D A : Type 0} (fuel : ℕ) (ds : Dataset S D A) where
  unfoldable pub filter_op : (A → Bool) → Dataset S D A
  unfolding filter_map
  filter_op fn = filter_map fuel ds (λ x. (fn x, x))

module _ {S D A B : Type 0} (fuel : ℕ) (ds : Dataset S D A) where
  unfoldable pub map_op : (A → B) → Dataset S D B
  unfolding filter_map
  map_op fn = filter_map fuel ds (λ x. (true, fn x))

-- The items that pass, as `fn` maps them.
unfoldable pub select : {A B : Type 0} → (A → Bool × B) → List A → List B
select fn [] = []
select fn (a ∷ r) = if (fn a).0 then (fn a).1 ∷ select fn r else select fn r

-- Two states with the same next call yield the same.
pub Yields-same_next :
    {S D A : Type 0} (ds : Dataset S D A) {s t : S} {xs : List A}
    → ds.next s ≡ ds.next t
    → Yields ds t xs
    → Yields ds s xs
Yields-same_next ds {s} {t} e (done _ (at _ u p q)) = done s (at s u (e ∙ p) q)
Yields-same_next ds {s} {t} e (more _ u a r p y) = more s u a r (e ∙ p) y

module _ {S D A B : Type 0} (ds : Dataset S D A) (fn : A → Bool × B) where
  -- With more rounds than items left, the number of rounds does not matter.
  same_rounds :
      (f g : ℕ) {s : S} {xs : List A}
      → Yields ds s xs
      → length xs < f
      → length xs < g
      → filter_map_next ds fn f s ≡ filter_map_next ds fn g s
  unfolding filter_map_next filter_map_round
  same_rounds zero g y p q = elim p [ ]
  same_rounds (suc f) zero y p q = elim q [ ]
  same_rounds (suc f) (suc g) (done s (at _ u e h)) p q = ground arith
  same_rounds (suc f) (suc g) (more s s' a r e y) p q =
      ground (arith, same_rounds f g y (omega arith) (omega arith))

  -- Over a dataset that yields `xs`, a FilterMap yields the items of `xs` that `fn` keeps, in
  -- order and as it maps them, and stops, if the rounds allowed are more than the items.
  pub filter_map-Yields :
      (fuel : ℕ) {s : S} {xs : List A}
      → length xs < fuel
      → Yields ds s xs
      → Yields (filter_map fuel ds fn) s (select fn xs)
  unfolding filter_map filter_map_next filter_map_round select
  filter_map-Yields zero h y = elim h [ ]
  filter_map-Yields (suc fuel) h (done s (at _ u e f)) =
      done s (at s u (ground arith) (ground arith))
  filter_map-Yields (suc fuel) h (more s s' a r e y) =
      let rest = filter_map-Yields (suc fuel) (omega arith) y in
      elim (Bool-cases (fn a).0) [
        | inl kept ↦ rw kept (more s s' (fn a).1 (select fn r) (ground arith) rest)
        | inr dropped ↦ rw dropped (
            Yields-same_next (filter_map (suc fuel) ds fn)
              (ground (arith, same_rounds fuel (suc fuel) y (omega arith) (omega arith))) rest)
      ]

-- `select` at the two operators' functions.
pub select-map :
    {A B : Type 0} (fn : A → B) (xs : List A) → select (λ x. (true, fn x)) xs ≡ map fn xs
unfolding select
select-map fn [] = refl
select-map fn (a ∷ r) = ap (◌∷◌ (fn a)) (select-map fn r)

module _ {S D A B : Type 0} (fuel : ℕ) (ds : Dataset S D A) where
  -- The operator `map` yields the image of each item, in order.
  pub map_op-Yields :
      {s : S} {xs : List A} (fn : A → B)
      → length xs < fuel
      → Yields ds s xs
      → Yields (map_op fuel ds fn) s (map fn xs)
  unfolding map_op
  map_op-Yields {xs = xs} fn h y =
      rw (← select-map fn xs) (filter_map-Yields ds (λ x. (true, fn x)) fuel h y)

  like_after :
      (Like : S → S → Type 0)
      → Resumes ds Like
      → (fn : A → Bool × B) (again : S → Outcome B × S) → ((t : S) → Like (again t).1 t)
      → (o : Outcome A × S) {s : S} → Like o.1 s
      → Like (filter_map_round ds fn again o).1 s
  unfolding filter_map_round
  like_after Like r fn again k (item a, t) h = elim (Bool-cases (fn a).0) [
    | inl kept ↦ rw kept h
    | inr dropped ↦ rw dropped (r.like_trans (k t) h)
  ]
  like_after Like r fn again k (stop, t) h = h
  like_after Like r fn again k (fault, t) h = h
  like_after Like r fn again k (spin, t) h = h

  like_round :
      (Like : S → S → Type 0)
      → Resumes ds Like
      → (fn : A → Bool × B) (f : ℕ) (s : S) → Like (filter_map_next ds fn f s).1 s
  unfolding filter_map_next
  like_round Like r fn zero s = r.like_refl s
  like_round Like r fn (suc f) s =
      like_after Like r fn (filter_map_next ds fn f) (like_round Like r fn f) (ds.next s)
        (r.like_next s)

  -- A FilterMap is restored from a saved state wherever the dataset below is.
  pub filter_map-Resumes :
      (Like : S → S → Type 0) (fn : A → Bool × B)
      → Resumes ds Like
      → Resumes (filter_map fuel ds fn) Like
  unfolding filter_map
  filter_map-Resumes Like fn r = record {
    like_refl = r.like_refl;
    like_trans = r.like_trans;
    like_next = like_round Like r fn fuel;
    like_reset = r.like_reset;
    load_saved = r.load_saved;
  }
