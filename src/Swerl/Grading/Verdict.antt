-- ===== src/Swerl/Grading/Verdict.antt =====
-- What a verdict of the grading says about the tests.
use mathlib.Core.Path.{subst}
use cwm.Prelude.{
  ℕ, zero, suc, ◌<◌, ◌≡◌, refl, sym, ◌↔◌, ◌⊎◌, ap, inl, inr, Bool, true, false, ◌&&◌, ◌||◌, List,
  [], ◌∷◌, ◌++◌, append_assoc, append-nil, Option, none, some, ◌==◌, ltb, if◌then◌else◌, length,
  get_elem?, Bool-cases, arith,
}
use cwm.Prelude.Dict.{get}
use mathlib.Core.Option.{some-injective}
use cwm.Prelude.Text.{same, same_sound, same_refl}
use cwm.Swerl.Grading.{
  Name, passed, xfail, passed_status, failed_status, test_passed, test_failed, Split, grade_case,
  grade_cases, Gold, Report, nothing_yet, get_eval_tests_report, failed, error,
  compute_fail_to_pass, compute_pass_to_pass, success_rate, is_one, between, resolved_partial,
  resolved_full, get_resolution_status,
}

-- The names that a test chooses, in order.
abbrev pub filter : (Name → Bool) → List Name → List Name
filter p [] = []
filter p (x ∷ xs) = let rest = filter p xs in if p x then x ∷ rest else rest

-- Chosen name of the list is chosen.
abbrev pub Chosen : (Name → Bool) → List Name → Type 0
Chosen p xs = (i : ℕ) × (x : Name) × (get_elem? xs i ≡ some x) × (p x ≡ true)

Chosen-filter : (p : Name → Bool) (xs : List Name) → 0 < length (filter p xs) → Chosen p xs
Chosen-filter p [] h = absurd (omega arith)
Chosen-filter p (x ∷ xs) h = elim (Bool-cases (p x)) [
  | inl e ↦ (0, x, refl, e)
  | inr e ↦
      let q : length (filter p (x ∷ xs)) ≡ length (filter p xs) = rw e in
      let (i, y, f, g) = Chosen-filter p xs (omega arith) in (suc i, y, f, g)
]

filter-Chosen : (p : Name → Bool) (xs : List Name) → Chosen p xs → 0 < length (filter p xs)
filter-Chosen p [] (i, y, f, g) = cc
filter-Chosen p (x ∷ xs) (zero, y, f, g) =
    let e : p x ≡ true = cc in
    let q : length (filter p (x ∷ xs)) ≡ suc (length (filter p xs)) = rw e in omega arith
filter-Chosen p (x ∷ xs) (suc i, y, f, g) =
    let r = filter-Chosen p xs (i, y, f, g) in ground (arith, r)

clean-Chosen : (p : Name → Bool) (xs : List Name) → (length (filter p xs) ≡ 0) ↔ (¬ Chosen p xs)
clean-Chosen p xs = (
  λ e t. let h = filter-Chosen p xs t in omega arith,
  λ n. elim (Bool-cases (ltb 0 (length (filter p xs)))) [
    | inl e ↦ absurd (n (Chosen-filter p xs (ground (arith, e))))
    | inr e ↦ ground (arith, e)
  ],
)

-- A status is not a success and a failure at once.
word_not_failed :
    (s w : List ℕ)
    → failed_status (some w) ≡ false
    → same s w ≡ true
    → failed_status (some s) ≡ false
word_not_failed s w h e = subst (λ u. failed_status (some u) ≡ false) (sym (same_sound s w e)) h

passed_word : failed_status (some passed) ≡ false
unfolding failed_status same
passed_word = refl

xfail_word : failed_status (some xfail) ≡ false
unfolding failed_status same
xfail_word = refl

status_not_failed : (o : Option (List ℕ)) → passed_status o ≡ true → failed_status o ≡ false
unfolding passed_status
status_not_failed none h = cc
status_not_failed (some s) h = elim (Bool-cases (same s passed)) [
  | inl e ↦ word_not_failed s passed passed_word e
  | inr e ↦ word_not_failed s xfail xfail_word (ground (arith, e, h))
]

passed_not_failed :
    (name : Name) (sm : List (Name × List ℕ))
    → test_passed name sm ≡ true
    → test_failed name sm ≡ false
unfolding test_passed test_failed
passed_not_failed name sm h = status_not_failed (get name sm) h

module _ (sm : List (Name × List ℕ)) where
  abbrev pub passes : Name → Bool
  passes name = test_passed name sm

  abbrev pub fails : Name → Bool
  fails name = test_failed name sm

  -- The tests that passed and those that failed.
  abbrev pub split_of : List Name → Split
  split_of names = record { success = filter passes names; failure = filter fails names }

  grade_cases_lem :
      (s : Split) (names : List Name)
      → grade_cases sm s names ≡ record {
        success = s.success ++ filter passes names;
        failure = s.failure ++ filter fails names;
      }
  unfolding grade_cases grade_case
  grade_cases_lem s [] = rw (append-nil s.success, append-nil s.failure)
  grade_cases_lem s (name ∷ names) = elim (Bool-cases (test_passed name sm)) [
    | inl e ↦
        let d = passed_not_failed name sm e in
        rw (
          e,
          d,
          grade_cases_lem (record s { success = s.success ++ name ∷ [] }) names,
          append_assoc s.success (name ∷ []) (filter passes names),
        )
    | inr e ↦ elim (Bool-cases (test_failed name sm)) [
      | inl f ↦ rw (
        e,
        f,
        grade_cases_lem (record s { failure = s.failure ++ name ∷ [] }) names,
        append_assoc s.failure (name ∷ []) (filter fails names),
      )
      | inr f ↦ rw (e, f, grade_cases_lem s names)
    ]
  ]

is_one-rate : (s : Split) → is_one (success_rate s) ≡ (length s.failure == 0)
unfolding success_rate is_one
is_one-rate s = ground arith

between-rate :
    (s : Split) → between (success_rate s) ≡ (ltb 0 (length s.failure) && ltb 0 (length s.success))
unfolding success_rate between
between-rate s = ground arith

-- The verdict of a report, from the numbers of its successes and failures.
abbrev Clean : Split → Type 0
Clean s = length s.failure ≡ 0

full_iff :
    (r : Report)
    → (get_resolution_status r ≡ resolved_full) ↔ (Clean r.fail_to_pass × Clean r.pass_to_pass)
unfolding get_resolution_status compute_fail_to_pass compute_pass_to_pass
full_iff r =
    rw (is_one-rate r.fail_to_pass, is_one-rate r.pass_to_pass, between-rate r.fail_to_pass)
      (ground arith)

partial_iff :
    (r : Report)
    → (get_resolution_status r ≡ resolved_partial) ↔ (
        0 < length r.fail_to_pass.failure
        × 0 < length r.fail_to_pass.success
        × Clean r.pass_to_pass)
unfolding get_resolution_status compute_fail_to_pass compute_pass_to_pass
partial_iff r =
    rw (is_one-rate r.fail_to_pass, is_one-rate r.pass_to_pass, between-rate r.fail_to_pass)
      (ground arith)

-- What the status of a test says, by the words of the log.
abbrev pub HasPassed : List (Name × List ℕ) → Name → Type 0
HasPassed sm name = (get name sm ≡ some passed) ⊎ (get name sm ≡ some xfail)

abbrev pub HasFailed : List (Name × List ℕ) → Name → Type 0
HasFailed sm name = (get name sm ≡ none) ⊎ (get name sm ≡ some failed) ⊎ (get name sm ≡ some error)

same_iff : (s w : List ℕ) → (same s w ≡ true) ↔ (some s ≡ some w)
same_iff s w = (
  λ e. ap (λ x. some x) (same_sound s w e),
  λ e. subst (λ x. same s x ≡ true) (some-injective s w e) (same_refl s),
)

-- One of two words.
either_iff :
    (s v w : List ℕ) → ((same s v || same s w) ≡ true) ↔ ((some s ≡ some v) ⊎ (some s ≡ some w))
either_iff s v w =
    let (f, f') = same_iff s v in
    let (g, g') = same_iff s w in
    (
      λ e. elim (Bool-cases (same s v)) [
        | inl y ↦ inl (f y)
        | inr n ↦ inr (g (ground (arith, e, n)))
      ],
      λ o. elim o [ inl y ↦ rw (f' y) refl | inr y ↦ rw (g' y) (ground arith) ],
    )

passed_status_iff :
    (o : Option (List ℕ)) → (passed_status o ≡ true) ↔ ((o ≡ some passed) ⊎ (o ≡ some xfail))
unfolding passed_status
passed_status_iff none = (λ e. cc, λ o. elim o [ inl y ↦ cc | inr y ↦ cc ])
passed_status_iff (some s) = either_iff s passed xfail

failed_status_iff :
    (o : Option (List ℕ))
    → (failed_status o ≡ true) ↔ ((o ≡ none) ⊎ (o ≡ some failed) ⊎ (o ≡ some error))
unfolding failed_status
failed_status_iff none = (λ e. inl refl, λ o. refl)
failed_status_iff (some s) =
    let (f, g) = either_iff s failed error in
    (λ e. inr (f e), λ o. elim o [ inl y ↦ cc | inr y ↦ g y ])

passes_iff : (sm : List (Name × List ℕ)) (name : Name) → (passes sm name ≡ true) ↔ HasPassed sm name
unfolding test_passed
passes_iff sm name = passed_status_iff (get name sm)

fails_iff : (sm : List (Name × List ℕ)) (name : Name) → (fails sm name ≡ true) ↔ HasFailed sm name
unfolding test_failed
fails_iff sm name = failed_status_iff (get name sm)

-- Some test of the list is of this kind.
abbrev pub Some : (Name → Type 0) → List Name → Type 0
Some P xs = (i : ℕ) × (x : Name) × (get_elem? xs i ≡ some x) × P x

Chosen-Some :
    (p : Name → Bool) (P : Name → Type 0) (xs : List Name)
    → ((x : Name) → (p x ≡ true) ↔ P x)
    → (0 < length (filter p xs) ↔ Some P xs) × ((length (filter p xs) ≡ 0) ↔ (¬ Some P xs))
Chosen-Some p P xs f =
    let to : Chosen p xs → Some P xs = λ (i, x, e, y). (i, x, e, (f x).0 y) in
    let from : Some P xs → Chosen p xs = λ (i, x, e, y). (i, x, e, (f x).1 y) in
    let (c, c') = clean-Chosen p xs in
    (
      (λ h. to (Chosen-filter p xs h), λ t. filter-Chosen p xs (from t)),
      (λ e t. c e (from t), λ n. c' (λ t. n (to t))),
    )

module _ (sm : List (Name × List ℕ)) (gold : Gold) (f2p p2p : List Name) where
  -- If both lists of required tests are given, there is a report: it lists the tests that passed
  -- and those that failed, in order. A test passed if its status is PASSED or XFAIL; it failed if
  -- its status is FAILED or ERROR and also if it has no status. The verdict is FULL exactly if no
  -- test of the two lists failed, and PARTIAL exactly if some test of FAIL_TO_PASS failed, some
  -- passed, and none of PASS_TO_PASS failed.
  pub get_resolution_status_lem :
      gold.fail_to_pass ≡ some f2p
      → gold.pass_to_pass ≡ some p2p
      → (r : Report) × (get_eval_tests_report sm gold false ≡ some r)
        × (r.fail_to_pass ≡ split_of sm f2p)
        × (r.pass_to_pass ≡ split_of sm p2p)
        × ((name : Name) → (passes sm name ≡ true) ↔ HasPassed sm name)
        × ((name : Name) → (fails sm name ≡ true) ↔ HasFailed sm name)
        × ((get_resolution_status r ≡ resolved_full)
            ↔ (¬ Some (HasFailed sm) f2p × ¬ Some (HasFailed sm) p2p))
        × ((get_resolution_status r ≡ resolved_partial)
            ↔ (Some (HasFailed sm) f2p × Some (HasPassed sm) f2p × ¬ Some (HasFailed sm) p2p))
  unfolding get_eval_tests_report
  get_resolution_status_lem a b =
      let r : Report = record {
        fail_to_pass = split_of sm f2p;
        pass_to_pass = split_of sm p2p;
        fail_to_fail = nothing_yet;
        pass_to_fail = nothing_yet;
      } in
      let (full, full') = full_iff r in
      let (partial, partial') = partial_iff r in
      let ((s, s'), (f, f')) = Chosen-Some (fails sm) (HasFailed sm) f2p (fails_iff sm) in
      let ((t, t'), _) = Chosen-Some (passes sm) (HasPassed sm) f2p (passes_iff sm) in
      let (_, (p, p')) = Chosen-Some (fails sm) (HasFailed sm) p2p (fails_iff sm) in
      (
        r,
        rw (a, b, grade_cases_lem sm nothing_yet f2p, grade_cases_lem sm nothing_yet p2p),
        refl,
        refl,
        passes_iff sm,
        fails_iff sm,
        (λ e. let (x, y) = full e in (f x, p y), λ (x, y). full' (f' x, p' y)),
        (
          λ e. let (x, y, z) = partial e in (s x, t y, p z),
          λ (x, y, z). partial' (s' x, t' y, p' z),
        ),
      )
