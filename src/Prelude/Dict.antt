-- ===== src/Prelude/Dict.antt =====
-- A dict whose keys are texts, as the list of its entries in the order of insertion.
use mathlib.Core.Path.{◌≡◌, refl, sym, ◌∙◌, ap, subst}
use mathlib.Core.Logic.{inl, inr}
use mathlib.Core.Bool.{true, false}
use mathlib.Core.Option.{Option, none, some}
use mathlib.Core.List.{List, [], ◌∷◌}
use Prim.Native.Nat.{ℕ, zero, suc}
use cwm.Prelude.Tests.{if◌then◌else◌, Bool-cases}
use cwm.Prelude.Lists.{get_elem?}
use cwm.Prelude.Text.{same, same_sound, same_refl, same_sym_false}

module _ {V : Type 0} where
  -- `d.get(key)`.
  abbrev pub get : List ℕ → List (List ℕ × V) → Option V
  get key [] = none
  get key ((k, v) ∷ d) = if same k key then some v else get key d

  -- `d[key] = f(d.get(key))`.
  abbrev pub modify : (Option V → V) → List ℕ → List (List ℕ × V) → List (List ℕ × V)
  modify f key [] = (key, f none) ∷ []
  modify f key ((k, v) ∷ d) =
      let rest = modify f key d in if same k key then (k, f (some v)) ∷ d else (k, v) ∷ rest

  pub get-modify :
      (f : Option V → V) (key : List ℕ) (d : List (List ℕ × V))
      → get key (modify f key d) ≡ some (f (get key d))
  get-modify f key [] = rw (same_refl key)
  get-modify f key ((k, v) ∷ d) = elim (Bool-cases (same k key)) [
    | inl e ↦ rw (e, e)
    | inr n ↦ rw (n, n) (get-modify f key d)
  ]

  pub get-modify_equal :
      (f : Option V → V) (key other : List ℕ) (d : List (List ℕ × V))
      → same key other ≡ true
      → get other (modify f key d) ≡ some (f (get other d))
  get-modify_equal f key other d y =
      subst (λ u. get u (modify f key d) ≡ some (f (get u d))) (same_sound key other y)
        (get-modify f key d)

  pub get-modify_other :
      (f : Option V → V) (key other : List ℕ) (d : List (List ℕ × V))
      → same key other ≡ false
      → get other (modify f key d) ≡ get other d
  get-modify_other f key other [] n = rw n
  get-modify_other f key other ((k, v) ∷ d) n = elim (Bool-cases (same k key)) [
    | inl e ↦
        let q = same_sound k key e in
        let m : same k other ≡ false = ap (λ u. same u other) q ∙ n in rw (e, m)
    | inr m ↦ rw m (ap (λ u. if same k other then some v else u) (get-modify_other f key other d n))
  ]

  -- Every key has one entry.
  pub data Distinct : List (List ℕ × V) → Type 0 where
    no_entry : Distinct []
    entry :
        (k : List ℕ) (v : V) (d : List (List ℕ × V))
        → get k d ≡ none
        → Distinct d
        → Distinct ((k, v) ∷ d)

  pub Distinct-modify :
      (f : Option V → V) (key : List ℕ) (d : List (List ℕ × V))
      → Distinct d
      → Distinct (modify f key d)
  Distinct-modify f key [] u = entry key (f none) [] refl no_entry
  Distinct-modify f key ((k, v) ∷ d) (entry _ _ _ a u) = elim (Bool-cases (same k key)) [
    | inl e ↦ rw e (entry k (f (some v)) d a u)
    | inr n ↦
        let m : same key k ≡ false = same_sym_false k key n in
        let g : get k (modify f key d) ≡ none = get-modify_other f key k d m ∙ a in
        rw n (entry k v (modify f key d) g (Distinct-modify f key d u))
  ]

  pub get-entry :
      (d : List (List ℕ × V)) (k : List ℕ) (v : V)
      → get k d ≡ some v
      → (i : ℕ) × (get_elem? d i ≡ some (k, v))
  get-entry [] k v e = cc
  get-entry ((k', v') ∷ d) k v e = elim (Bool-cases (same k' k)) [
    | inl y ↦
        let q = same_sound k' k y in
        let g : get k ((k', v') ∷ d) ≡ some v' = rw y in
        let h : some v' ≡ some v = sym g ∙ e in (0, cc)
    | inr n ↦
        let g : get k ((k', v') ∷ d) ≡ get k d = rw n in
        let (i, f) = get-entry d k v (sym g ∙ e) in (suc i, f)
  ]

  pub entry-get :
      (d : List (List ℕ × V)) (i : ℕ) (k : List ℕ) (v : V)
      → Distinct d
      → get_elem? d i ≡ some (k, v)
      → get k d ≡ some v
  entry-get [] i k v u e = cc
  entry-get ((k', v') ∷ d) zero k v u e =
      let g : get k' ((k', v') ∷ d) ≡ some v' = rw (same_refl k') in cc
  entry-get ((k', v') ∷ d) (suc i) k v (entry _ _ _ a u) e =
      let r = entry-get d i k v u e in
      elim (Bool-cases (same k' k)) [ inl y ↦ let q = same_sound k' k y in cc | inr n ↦ rw (n, r) ]
