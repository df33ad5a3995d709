-- ===== src/Evals/Majority/Selected.antt =====
-- The patch that is selected for an instance.
use mathlib.Core.Option.{some-injective}
use cwm.Prelude.{
  ℕ, zero, suc, ◌+◌, ◌*◌, ◌≤◌, ◌<◌, ◌≡◌, ◌≢◌, ◌⊎◌, refl, sym, ◌∙◌, ap, inl, inr, Bool, true, List,
  [], ◌∷◌, Option, none, some, ltb, length, length-take, get_elem?, Bool-cases, Option-cases, arith,
}
use cwm.Prelude.Text.{same}
use cwm.Prelude.Dict.{get, get-modify_equal, get-modify_other, no_entry, get-entry, entry-get}
use cwm.Evals.Majority.{
  Result, Tally, count_of, outcomes_of, tally_patch, tally, subsample, most_common, sum, no_patch,
  selected, Selection, within, selection, choose, vote,
}
use cwm.Evals.Majority.Counts.{outcomes_with, same_no_text, tally-Counted, tally-Distinct}

-- The entries of a counter: under a patch that is not empty, and not 0.
IsCounter : List (List ℕ × ℕ) → Type 0
IsCounter d = (get [] d ≡ none) × ((p : List ℕ) → get p d ≢ some 0)

IsCounter-patch :
    (t : Tally) (p : List ℕ) (b : Bool) → IsCounter t.counts → IsCounter (tally_patch t p b).counts
unfolding tally_patch IsCounter
IsCounter-patch t [] b h = h
IsCounter-patch t (c ∷ w) b (e, n) = (
  get-modify_other (λ o. count_of o + 1) (c ∷ w) [] t.counts (same_no_text c w) ∙ e,
  λ p. elim (Bool-cases (same (c ∷ w) p)) [
    | inl y ↦ λ z.
        let g = get-modify_equal (λ o. count_of o + 1) (c ∷ w) p t.counts y in
        let f : count_of (get p t.counts) + 1 ≡ 0 =
          some-injective (count_of (get p t.counts) + 1) 0 (sym g ∙ z) in
        omega arith
    | inr m ↦ λ z. n p (sym (get-modify_other (λ o. count_of o + 1) (c ∷ w) p t.counts m) ∙ z)
  ],
)

IsCounter-tally :
    (t : Tally) (rs : List Result) → IsCounter t.counts → IsCounter (tally t rs).counts
unfolding tally
IsCounter-tally t [] h = h
IsCounter-tally t (r ∷ rs) h =
    IsCounter-tally (tally_patch t r.patch r.passing) rs (IsCounter-patch t r.patch r.passing h)

-- An entry of the list that has the highest count.
record Top (m : List ℕ × ℕ) (l : List (List ℕ × ℕ)) : Type 0 where
  place : (i : ℕ) × (get_elem? l i ≡ some m)
  best : (j : ℕ) (x : List ℕ × ℕ) → get_elem? l j ≡ some x → x.1 ≤ m.1

best_here :
    (e m : List ℕ × ℕ) (l : List (List ℕ × ℕ))
    → e.1 ≤ m.1
    → ((j : ℕ) (x : List ℕ × ℕ) → get_elem? l j ≡ some x → x.1 ≤ m.1)
    → (j : ℕ) (x : List ℕ × ℕ) → get_elem? (e ∷ l) j ≡ some x
    → x.1 ≤ m.1
best_here e m l h b zero x f =
    let q : e.1 ≡ x.1 = ap (λ z. z.1) (some-injective e x f) in omega arith
best_here e m l h b (suc j) x f = b j x f

best_next :
    (e g m : List ℕ × ℕ) (l : List (List ℕ × ℕ))
    → g.1 ≤ m.1
    → ((j : ℕ) (x : List ℕ × ℕ) → get_elem? (e ∷ l) j ≡ some x → x.1 ≤ m.1)
    → (j : ℕ) (x : List ℕ × ℕ) → get_elem? (e ∷ g ∷ l) j ≡ some x
    → x.1 ≤ m.1
best_next e g m l h b zero x f = b 0 x f
best_next e g m l h b (suc j) x f = best_here g m l h (λ k. b (suc k)) j x f

place_next :
    (e g m : List ℕ × ℕ) (l : List (List ℕ × ℕ))
    → (i : ℕ) → get_elem? (e ∷ l) i ≡ some m
    → (k : ℕ) × (get_elem? (e ∷ g ∷ l) k ≡ some m)
place_next e g m l zero f = (0, f)
place_next e g m l (suc i) f = (suc (suc i), f)

-- The most common entry is one of the counter, and none has a higher count.
most_common-Top : (e : List ℕ × ℕ) (es : List (List ℕ × ℕ)) → Top (most_common e es) (e ∷ es)
unfolding most_common
most_common-Top e [] = record {
  place = (0, refl);
  best = best_here e e [] (omega arith) (λ j x f. cc);
}
most_common-Top e (g ∷ es) = elim (Bool-cases (ltb e.1 g.1)) [
  | inl y ↦
      let t = most_common-Top g es in
      let h = t.best 0 g refl in
      rw (y, most_common)
        (record {
          place = (suc t.place.0, t.place.1);
          best = best_here e (most_common g es) (g ∷ es) (ground (arith, y, h)) t.best;
        })
  | inr n ↦
      let t = most_common-Top e es in
      let h = t.best 0 e refl in
      rw (n, most_common)
        (record {
          place = place_next e g (most_common e es) es t.place.0 t.place.1;
          best = best_next e g (most_common e es) es (ground (arith, n, h)) t.best;
        })
]

within-subsample :
    (max_samples : Option ℕ) (rs : List Result)
    → max_samples ≢ some 0
    → within max_samples (length (subsample max_samples rs)) ≡ true
unfolding within subsample
within-subsample none rs h = refl
within-subsample (some zero) rs h = absurd (h refl)
within-subsample (some (suc m)) rs h = ground (arith, length-take (suc m) rs)

within-le :
    (max_samples : Option ℕ) (m n : ℕ)
    → n ≤ m
    → within max_samples m ≡ true
    → within max_samples n ≡ true
unfolding within
within-le none m n h e = refl
within-le (some k) m n h e = ground (arith, e)

length-outcomes_with_le : (p : List ℕ) (rs : List Result) → length (outcomes_with p rs) ≤ length rs
length-outcomes_with_le p [] = omega arith
length-outcomes_with_le p (r ∷ rs) = ground (arith, length-outcomes_with_le p rs)

module _ (max_samples : Option ℕ) (rs : List Result) where
  -- The outcomes of the results with a patch, among those that are counted.
  abbrev pub outcomes_for : List ℕ → List Bool
  outcomes_for p = outcomes_with p (subsample max_samples rs)

  abbrev pub verdict_for : List ℕ → Selection
  verdict_for p = record {
    model_patch = p;
    occurrences = length (outcomes_for p);
    passing = ltb (length (outcomes_for p)) (2 * sum (outcomes_for p));
  }

  abbrev start : Tally
  start = record { counts = []; outcomes = [] }

  abbrev counted : Tally
  counted = tally start (subsample max_samples rs)

  count_lem :
      (c : ℕ) (w : List ℕ) (n : ℕ)
      → get (c ∷ w) counted.counts ≡ some n
      → n ≡ length (outcomes_for (c ∷ w))
  unfolding count_of
  count_lem c w n e =
      let r = tally-Counted start (subsample max_samples rs) c w in
      let f : count_of (get (c ∷ w) counted.counts) ≡ n = rw e in omega (arith, f, r.counts)

  selection-chosen :
      (c : ℕ) (w : List ℕ) (n : ℕ)
      → max_samples ≢ some 0
      → get (c ∷ w) counted.counts ≡ some n
      → selection max_samples counted.outcomes (c ∷ w, n) ≡ selected (verdict_for (c ∷ w))
  unfolding selection outcomes_of
  selection-chosen c w n h e =
      let r = tally-Counted start (subsample max_samples rs) c w in
      let q = count_lem c w n e in
      let le = length-outcomes_with_le (c ∷ w) (subsample max_samples rs) in
      let ok =
        within-le max_samples (length (subsample max_samples rs)) n (omega arith)
          (within-subsample max_samples rs h) in
      let f : outcomes_of (get (c ∷ w) counted.outcomes) ≡ outcomes_for (c ∷ w) = r.outcomes in
      rw (ok, f, q)

  none_counted :
      (c : ℕ) (w : List ℕ) → get (c ∷ w) counted.counts ≡ none → length (outcomes_for (c ∷ w)) ≡ 0
  unfolding count_of
  none_counted c w e =
      let r = tally-Counted start (subsample max_samples rs) c w in
      let f : count_of (get (c ∷ w) counted.counts) ≡ 0 = rw e in omega (arith, f, r.counts)

  -- The patch `c ∷ w` is made by most of the results, and it is what is selected.
  pub record Wins (c : ℕ) (w : List ℕ) : Type 0 where
    pub made : 0 < length (outcomes_for (c ∷ w))
    pub most : (d : ℕ) (v : List ℕ) → length (outcomes_for (d ∷ v)) ≤ length (outcomes_for (c ∷ w))
    pub vote_is : vote max_samples rs ≡ selected (verdict_for (c ∷ w))

  IsCounter-counted : IsCounter counted.counts
  unfolding IsCounter
  IsCounter-counted = IsCounter-tally start (subsample max_samples rs) (refl, λ p e. cc)

  positive : (p : List ℕ) (n : ℕ) → get p counted.counts ≡ some n → 0 < n
  unfolding IsCounter
  positive p zero g = let (_, z) = IsCounter-counted in absurd (z p g)
  positive p (suc n) g = omega arith

  no_more_than :
      (n : ℕ)
      → ((j : ℕ) (x : List ℕ × ℕ) → get_elem? counted.counts j ≡ some x → x.1 ≤ n)
      → (d : ℕ) (v : List ℕ) → length (outcomes_for (d ∷ v)) ≤ n
  no_more_than n b d v = elim (Option-cases (get (d ∷ v) counted.counts)) [
    | inl e ↦ let z = none_counted d v e in omega arith
    | inr (m, e) ↦
        let k = count_lem d v m e in
        let (j, f) = get-entry counted.counts (d ∷ v) m e in let z = b j (d ∷ v, m) f in omega arith
  ]

  Wins-top :
      max_samples ≢ some 0
      → (e : List ℕ × ℕ) (es : List (List ℕ × ℕ)) → counted.counts ≡ e ∷ es
      → (p : List ℕ) (n : ℕ) → (p, n) ≡ most_common e es
      → get p counted.counts ≡ some n
      → ((j : ℕ) (x : List ℕ × ℕ) → get_elem? counted.counts j ≡ some x → x.1 ≤ n)
      → (c : ℕ) × (w : List ℕ) × Wins c w
  unfolding vote choose IsCounter
  Wins-top h e es q [] n f g b = let (z, _) = IsCounter-counted in cc
  Wins-top h e es q (c ∷ w) n f g b =
      let k = count_lem c w n g in
      (
        c,
        w,
        record {
          made = let z = positive (c ∷ w) n g in omega arith;
          most = λ d v. let z = no_more_than n b d v in omega arith;
          vote_is = rw (q, ← f, selection-chosen c w n h g);
        },
      )

  vote-counts :
      max_samples ≢ some 0
      → (es : List (List ℕ × ℕ)) → counted.counts ≡ es
      → ((vote max_samples rs ≡ no_patch)
          × ((c : ℕ) (w : List ℕ) → length (outcomes_for (c ∷ w)) ≡ 0))
        ⊎ ((c : ℕ) × (w : List ℕ) × Wins c w)
  unfolding vote choose
  vote-counts h [] q = inl (rw q, λ c w. none_counted c w (ap (λ u. get (c ∷ w) u) q))
  vote-counts h (e ∷ es) q =
      let t = most_common-Top e es in
      let (i, f) = t.place in
      let u = tally-Distinct start (subsample max_samples rs) no_entry in
      let m = most_common e es in
      let f' : get_elem? counted.counts i ≡ some (m.0, m.1) = ap (λ z. get_elem? z i) q ∙ f in
      inr (
        Wins-top h e es q m.0 m.1 refl (entry-get counted.counts i m.0 m.1 u f')
          (λ j x g. t.best j x (sym (ap (λ z. get_elem? z j) q) ∙ g)))

  -- If the limit on samples is not 0, the vote fails no assertion. If no result among those that
  -- are counted has a patch, nothing is selected. Else the selected patch is one that the most of
  -- them made, with the number of those, and it counts as passing if more than half of those did.
  pub vote_lem :
      max_samples ≢ some 0
      → ((vote max_samples rs ≡ no_patch)
          × ((c : ℕ) (w : List ℕ) → length (outcomes_for (c ∷ w)) ≡ 0))
        ⊎ ((c : ℕ) × (w : List ℕ) × Wins c w)
  vote_lem h = vote-counts h counted.counts refl
