-- ===== src/Rl/Trajectory/Returns.antt =====
-- `return_to_go` adds up what is still to come, across contexts.
use mathlib.Core.List
use cwm.Prelude.{
  suc, arith, ◌≡◌, refl, ap, sym, ◌∙◌, true, false, List, [], ◌∷◌, ◌++◌, none, some, length,
}
use cwm.Rl.Transition.{Float}
use cwm.Rl.Trajectory.Append.{Aligned}
use cwm.Rl.Trajectory.{Trajectory, returns_in, returns_of, return_to_go}

module _ (fl : Float) where
  open fl use {Real, zero_point, add}

  -- The return of a list of rewards, when `r` comes after it: added up from the end.
  abbrev pub total : Real → List Real → Real
  total r [] = r
  total r (x ∷ xs) = add (total r xs) x

  -- The return from each place of the list on.
  abbrev pub returns : Real → List Real → List Real
  returns r [] = []
  returns r (x ∷ xs) = total r (x ∷ xs) ∷ returns r xs

  returns_in-total : (r : Real) (xs : List Real) → returns_in fl r xs ≡ (total r xs, returns r xs)
  unfolding returns_in
  returns_in-total r [] = refl
  returns_in-total r (x ∷ xs) = rw (returns_in-total r xs)

  total-append : (r : Real) (xs ys : List Real) → total r (xs ++ ys) ≡ total (total r ys) xs
  total-append r [] ys = refl
  total-append r (x ∷ xs) ys = ap (λ s. add s x) (total-append r xs ys)

  returns-append :
      (r : Real) (xs ys : List Real)
      → returns r (xs ++ ys) ≡ returns (total r ys) xs ++ returns r ys
  returns-append r [] ys = refl
  returns-append r (x ∷ xs) ys =
      ap (λ s. add s x ∷ returns r (xs ++ ys)) (total-append r xs ys)
      ∙ ap (λ rs. total (total r ys) (x ∷ xs) ∷ rs) (returns-append r xs ys)

  length-returns : (r : Real) (xs : List Real) → length (returns r xs) ≡ length xs
  length-returns r [] = refl
  length-returns r (x ∷ xs) = ap suc (length-returns r xs)

  returns_of_lem :
      (r : Real) (xss : List (List Real))
      → ((returns_of fl r xss).0 ≡ total r (List.flatten xss))
        × (List.flatten (returns_of fl r xss).1 ≡ returns r (List.flatten xss))
        × Aligned (returns_of fl r xss).1 xss
  unfolding returns_of List.flatten
  returns_of_lem r [] = (refl, refl, tt)
  returns_of_lem r (xs ∷ xss) =
      let (e, f, s) = returns_of_lem r xss in
      let s' = (returns_of fl r xss).0 in
      let h = returns_in-total s' xs in
      let rest = List.flatten xss in
      (
        ap (λ p. p.0) h ∙ ap (λ u. total u xs) e ∙ sym (total-append r xs rest),
        ap (λ p. p.1 ++ List.flatten (returns_of fl r xss).1) h
            ∙ ap (λ u. returns s' xs ++ u) f
            ∙ ap (λ u. returns u xs ++ returns r rest) e
            ∙ sym (returns-append r xs rest),
        (ap (λ p. length p.1) h ∙ length-returns s' xs, s),
      )

  module _ {Out : Type 0} where
    abbrev pub ToGo : Trajectory Real Out → Real → List (List Real) → Type 0
    ToGo t r xss =
        (return_to_go fl t ≡ some xss)
        × (List.flatten xss ≡ returns r (List.flatten t.rewards))
        × Aligned xss t.rewards

    -- For a trajectory that has ended, and for one that is cut off with a return for the rest,
    -- every token has the sum of the rewards from its own on, up to the end of the last context
    -- and with what is assumed for the rest; the contexts keep their lengths. For one that is
    -- both, or neither, there is no result but a failed assertion.
    pub return_to_go_lem :
        (t : Trajectory Real Out)
        → (t.terminated ≡ true
            → t.truncated ≡ false
            → (xss : List (List Real)) × ToGo t zero_point xss)
          × ((r : Real)
              → t.terminated ≡ false
              → t.truncated ≡ true
              → t.truncation_return ≡ some r
              → (xss : List (List Real)) × ToGo t r xss)
          × (t.terminated ≡ t.truncated → return_to_go fl t ≡ none)
    unfolding return_to_go
    return_to_go_lem t = (
      λ e f.
          let (_, p, q) = returns_of_lem zero_point t.rewards in
          ((returns_of fl zero_point t.rewards).1, (rw (f, e), p, q)),
      λ r e f g.
          let (_, p, q) = returns_of_lem r t.rewards in
          ((returns_of fl r t.rewards).1, (rw (f, e, g), p, q)),
      λ e. ground arith,
    )
