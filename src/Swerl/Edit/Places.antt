-- ===== src/Swerl/Edit/Places.antt =====
-- `find_all_occurrences` finds every place of a text.
use mathlib.Core.Option
use mathlib.Core.Path.{subst}
use mathlib.Core.Option.{some-injective}
use cwm.Prelude.{
  ℕ, zero, suc, ◌+◌, ◌-◌, ◌≤◌, ◌<◌, ◌≡◌, refl, sym, ◌∙◌, inl, inr, Bool, true, false, List, [], ◌∷◌,
  Option, none, some, length, drop, Bool-cases, Option-cases, arith,
}
use cwm.Prelude.Text.{starts_with}
use cwm.Swerl.Edit.{find, find_loop, find_all_occurrences}

-- The text `w` is at place `i`.
abbrev pub at : List ℕ → List ℕ → ℕ → Bool
at w text i = starts_with w (drop i text)

pub at-nil : (c : ℕ) (w : List ℕ) (i : ℕ) → at (c ∷ w) [] i ≡ false
unfolding starts_with
at-nil c w zero = refl
at-nil c w (suc i) = refl

-- `i` is the first place from `start` on.
pub record First (w text : List ℕ) (start i : ℕ) : Type 0 where
  pub from : start ≤ i
  pub inside : i < length text
  pub here : at w text i ≡ true
  pub before : (j : ℕ) → start ≤ j → j < i → at w text j ≡ false

map-suc : (o : Option ℕ) (i : ℕ) → Option.map suc o ≡ some i → (k : ℕ) × (o ≡ some k) × (i ≡ suc k)
map-suc none i e = cc
map-suc (some k) i e = (k, refl, sym (some-injective (suc k) i e))

map-none : (o : Option ℕ) → Option.map suc o ≡ none → o ≡ none
map-none none e = refl
map-none (some k) e = cc

module _ (c : ℕ) (w : List ℕ) where
  none-later :
      (d : ℕ) (text : List ℕ)
      → starts_with (c ∷ w) (d ∷ text) ≡ false
      → ((j : ℕ) → 0 ≤ j → at (c ∷ w) text j ≡ false)
      → (j : ℕ) → at (c ∷ w) (d ∷ text) j ≡ false
  none-later d text n h zero = n
  none-later d text n h (suc j) = h j (omega arith)

  before-later :
      (d : ℕ) (text : List ℕ) (start start' k : ℕ)
      → start ≤ start' + 1
      → start' ≤ start - 1
      → (start ≡ 0 → at (c ∷ w) (d ∷ text) 0 ≡ false)
      → First (c ∷ w) text start' k
      → (j : ℕ) → start ≤ j
      → j < suc k
      → at (c ∷ w) (d ∷ text) j ≡ false
  before-later d text start start' k low high n r zero h b = n (omega arith)
  before-later d text start start' k low high n r (suc j) h b =
      r.before j (omega arith) (omega arith)

  First-here :
      (d : ℕ) (text : List ℕ) (i : ℕ)
      → starts_with (c ∷ w) (d ∷ text) ≡ true
      → 0 ≡ i
      → First (c ∷ w) (d ∷ text) 0 i
  First-here d text i y q =
      subst (λ u. First (c ∷ w) (d ∷ text) 0 u) q
        (record {
          from = omega arith;
          inside = omega arith;
          here = y;
          before = λ j h b. absurd (omega arith);
        })

  find-here :
      (d : ℕ) (text : List ℕ)
      → starts_with (c ∷ w) (d ∷ text) ≡ true
      → find (c ∷ w) (d ∷ text) 0 ≡ some 0
  unfolding find
  find-here d text y = rw y

  find-later :
      (d : ℕ) (text : List ℕ)
      → starts_with (c ∷ w) (d ∷ text) ≡ false
      → find (c ∷ w) (d ∷ text) 0 ≡ Option.map suc (find (c ∷ w) text 0)
  unfolding find
  find-later d text n = rw n

  pub find-none :
      (text : List ℕ) (start : ℕ)
      → find (c ∷ w) text start ≡ none
      → (j : ℕ) → start ≤ j
      → at (c ∷ w) text j ≡ false
  unfolding find
  find-none [] start e j h = at-nil c w j
  find-none (d ∷ text) zero e j h = elim (Bool-cases (starts_with (c ∷ w) (d ∷ text))) [
    | inl y ↦ let f = find-here d text y in cc
    | inr n ↦
        none-later d text n
          (find-none text 0 (map-none (find (c ∷ w) text 0) (sym (find-later d text n) ∙ e))) j
  ]
  find-none (d ∷ text) (suc start) e zero h = absurd (omega arith)
  find-none (d ∷ text) (suc start) e (suc j) h =
      find-none text start (map-none (find (c ∷ w) text start) e) j (omega arith)

  First-later :
      (d : ℕ) (text : List ℕ) (start start' k : ℕ)
      → start ≤ start' + 1
      → start' ≤ start - 1
      → (start ≡ 0 → at (c ∷ w) (d ∷ text) 0 ≡ false)
      → First (c ∷ w) text start' k
      → First (c ∷ w) (d ∷ text) start (suc k)
  First-later d text start start' k low high n r = record {
    from = omega (arith, r.from);
    inside = omega (arith, r.inside);
    here = r.here;
    before = before-later d text start start' k low high n r;
  }

  -- What `find` returns is the first place.
  pub find-First :
      (text : List ℕ) (start i : ℕ) → find (c ∷ w) text start ≡ some i → First (c ∷ w) text start i
  unfolding find starts_with
  find-First [] zero i e = cc
  find-First [] (suc start) i e = cc
  find-First (d ∷ text) zero i e = elim (Bool-cases (starts_with (c ∷ w) (d ∷ text))) [
    | inl y ↦ First-here d text i y (some-injective 0 i (sym (find-here d text y) ∙ e))
    | inr n ↦
        let (k, f, q) = map-suc (find (c ∷ w) text 0) i (sym (find-later d text n) ∙ e) in
        subst (λ u. First (c ∷ w) (d ∷ text) 0 u) (sym q)
          (First-later d text 0 0 k (omega arith) (omega arith) (λ z. n) (find-First text 0 k f))
  ]
  find-First (d ∷ text) (suc start) i e =
      let (k, f, q) = map-suc (find (c ∷ w) text start) i e in
      subst (λ u. First (c ∷ w) (d ∷ text) (suc start) u) (sym q)
        (First-later d text (suc start) start k (omega arith) (omega arith)
          (λ z. absurd (omega arith)) (find-First text start k f))

-- The list has every place from `start` on, in increasing order.
pub data All (w text : List ℕ) : ℕ → List ℕ → Type 0 where
  no_more : (start : ℕ) → ((j : ℕ) → start ≤ j → at w text j ≡ false) → All w text start []
  one_more :
      (start i : ℕ) (rest : List ℕ)
      → First w text start i
      → All w text (i + 1) rest
      → All w text start (i ∷ rest)

module _ (c : ℕ) (w text : List ℕ) where
  find_loop-All :
      (fuel start : ℕ)
      → length text + 1 < fuel + start
      → 0 < fuel
      → (is : List ℕ) × (find_loop fuel text (c ∷ w) start ≡ some is) × All (c ∷ w) text start is
  unfolding find_loop
  find_loop-All zero start h p = absurd (omega arith)
  find_loop-All (suc fuel) start h p = elim (Option-cases (find (c ∷ w) text start)) [
    | inl e ↦ ([], rw (e, find_loop), no_more start (find-none c w text start e))
    | inr (i, e) ↦
        let r = find-First c w text start i e in
        let (is, f, a) =
          find_loop-All fuel (i + 1) (omega (arith, r.from)) (omega (arith, r.from, r.inside)) in
        (i ∷ is, rw (e, find_loop, f), one_more start i is r a)
  ]

  -- The rounds allowed are enough.
  pub find_all_occurrences-All :
      (is : List ℕ) × (find_all_occurrences text (c ∷ w) ≡ some is) × All (c ∷ w) text 0 is
  unfolding find_all_occurrences
  find_all_occurrences-All = find_loop-All (length text + 2) 0 (omega arith) (omega arith)
