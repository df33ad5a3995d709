-- ===== src/Evals/Majority/Counts.antt =====
-- What the tally of the results counts.
use cwm.Prelude.{
  ℕ, ◌+◌, ◌≡◌, refl, sym, ◌∙◌, ap, inl, inr, Bool, false, List, [], ◌∷◌, ◌++◌, append_assoc,
  if◌then◌else◌, length, append-nil, Bool-cases, arith,
}
use cwm.Prelude.Text.{same}
use cwm.Prelude.Dict.{get, get-modify_equal, get-modify_other, Distinct, Distinct-modify}
use cwm.Evals.Majority.{Result, Tally, count_of, outcomes_of, tally_patch, tally}

-- The outcomes of the results with a patch, in order.
abbrev pub outcomes_with : List ℕ → List Result → List Bool
outcomes_with p [] = []
outcomes_with p (r ∷ rs) =
    let rest = outcomes_with p rs in if same r.patch p then r.passing ∷ rest else rest

-- The tally `t'` has counted `rs` on top of `t`, under a patch that is not empty.
pub record Counted (t t' : Tally) (rs : List Result) (c : ℕ) (w : List ℕ) : Type 0 where
  pub counts :
      count_of (get (c ∷ w) t'.counts)
      ≡ count_of (get (c ∷ w) t.counts) + length (outcomes_with (c ∷ w) rs)
  pub outcomes :
      outcomes_of (get (c ∷ w) t'.outcomes)
      ≡ outcomes_of (get (c ∷ w) t.outcomes) ++ outcomes_with (c ∷ w) rs

same_empty : (c : ℕ) (w : List ℕ) → same [] (c ∷ w) ≡ false
unfolding same
same_empty c w = refl

pub same_no_text : (c : ℕ) (w : List ℕ) → same (c ∷ w) [] ≡ false
unfolding same
same_no_text c w = refl

module _ (t : Tally) (passing : Bool) (c : ℕ) (w : List ℕ) where
  counts_after :
      (p : List ℕ)
      → count_of (get (c ∷ w) (tally_patch t p passing).counts)
        ≡ count_of (get (c ∷ w) t.counts) + (if same p (c ∷ w) then 1 else 0)
  unfolding tally_patch count_of
  counts_after [] = rw (same_empty c w) (omega arith)
  counts_after (d ∷ v) = elim (Bool-cases (same (d ∷ v) (c ∷ w))) [
    | inl y ↦ let g = get-modify_equal (λ o. count_of o + 1) (d ∷ v) (c ∷ w) t.counts y in rw (g, y)
    | inr n ↦
        let g = get-modify_other (λ o. count_of o + 1) (d ∷ v) (c ∷ w) t.counts n in
        rw (g, n) (omega arith)
  ]

  outcomes_after :
      (p : List ℕ)
      → outcomes_of (get (c ∷ w) (tally_patch t p passing).outcomes)
        ≡ outcomes_of (get (c ∷ w) t.outcomes) ++ (if same p (c ∷ w) then passing ∷ [] else [])
  unfolding tally_patch outcomes_of
  outcomes_after [] = rw (same_empty c w) (sym (append-nil (outcomes_of (get (c ∷ w) t.outcomes))))
  outcomes_after (d ∷ v) = elim (Bool-cases (same (d ∷ v) (c ∷ w))) [
    | inl y ↦
        let g =
          get-modify_equal (λ o. outcomes_of o ++ passing ∷ []) (d ∷ v) (c ∷ w) t.outcomes y in
        rw (g, y)
    | inr n ↦
        let g =
          get-modify_other (λ o. outcomes_of o ++ passing ∷ []) (d ∷ v) (c ∷ w) t.outcomes n in
        rw (g, n) (sym (append-nil (outcomes_of (get (c ∷ w) t.outcomes))))
  ]

length-outcomes_with :
    (p : List ℕ) (r : Result) (rs : List Result)
    → length (outcomes_with p (r ∷ rs))
      ≡ (if same r.patch p then 1 else 0) + length (outcomes_with p rs)
length-outcomes_with p r rs = elim (Bool-cases (same r.patch p)) [
  | inl y ↦ rw y (omega arith)
  | inr n ↦ rw n (omega arith)
]

append-outcomes_with :
    (p : List ℕ) (r : Result) (rs : List Result)
    → (if same r.patch p then r.passing ∷ [] else []) ++ outcomes_with p rs
      ≡ outcomes_with p (r ∷ rs)
append-outcomes_with p r rs = elim (Bool-cases (same r.patch p)) [ inl y ↦ rw y | inr n ↦ rw n ]

patch-Distinct :
    (t : Tally) (p : List ℕ) (b : Bool) → Distinct t.counts → Distinct (tally_patch t p b).counts
unfolding tally_patch
patch-Distinct t [] b u = u
patch-Distinct t (c ∷ w) b u = Distinct-modify (λ o. count_of o + 1) (c ∷ w) t.counts u

-- The tally counts each patch that is not empty, and keeps its outcomes.
pub tally-Counted :
    (t : Tally) (rs : List Result) (c : ℕ) (w : List ℕ) → Counted t (tally t rs) rs c w
unfolding tally
tally-Counted t [] c w = record {
  counts = omega arith;
  outcomes = sym (append-nil (outcomes_of (get (c ∷ w) t.outcomes)));
}
tally-Counted t (r ∷ rs) c w =
    let h = tally-Counted (tally_patch t r.patch r.passing) rs c w in
    let p = c ∷ w in
    let e = counts_after t r.passing c w r.patch in
    let f = outcomes_after t r.passing c w r.patch in
    let n = length-outcomes_with p r rs in
    record {
      counts = omega (arith, h.counts, e, n);
      outcomes =
          h.outcomes
          ∙ ap (λ u. u ++ outcomes_with p rs) f
          ∙ append_assoc (outcomes_of (get p t.outcomes))
              (if same r.patch p then r.passing ∷ [] else []) (outcomes_with p rs)
          ∙ ap (λ u. outcomes_of (get p t.outcomes) ++ u) (append-outcomes_with p r rs);
    }

pub tally-Distinct :
    (t : Tally) (rs : List Result) → Distinct t.counts → Distinct (tally t rs).counts
unfolding tally
tally-Distinct t [] u = u
tally-Distinct t (r ∷ rs) u =
    tally-Distinct (tally_patch t r.patch r.passing) rs (patch-Distinct t r.patch r.passing u)
