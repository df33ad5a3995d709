-- ===== src/Swerl/Edit/Replaced.antt =====
-- What the edit tool does to a file.
use mathlib.Core.Path.{subst}
use cwm.Prelude.{
  ℕ, zero, suc, ◌+◌, ◌-◌, ◌≤◌, ◌<◌, ◌≡◌, ◌==◌, ◌≢◌, refl, ap, sym, ◌∙◌, inl, inr, true, false, List,
  [], ◌∷◌, ◌++◌, some, length, take, drop, take-append-drop, length-take, append_assoc, ltb,
  Bool-cases, arith,
}
use cwm.Prelude.Text.{starts_with}
use cwm.Swerl.Edit.{
  newline, find_all_occurrences, replace, Edit, missing, several, edited, lines_of, line_numbers,
  count_char, decide, edit,
}
use cwm.Swerl.Edit.Places.{at, at-nil, First, All, no_more, one_more, find_all_occurrences-All}

starts_with-split : (w t : List ℕ) → starts_with w t ≡ true → t ≡ w ++ drop (length w) t
unfolding starts_with
starts_with-split [] t h = refl
starts_with-split (c ∷ w) [] h = cc
starts_with-split (c ∷ w) (d ∷ t) h = elim (Bool-cases (c == d)) [
  | inl e ↦
      let q : c ≡ d = ground (arith, e) in
      let r : starts_with w t ≡ true = ground (arith, e, h) in let u = starts_with-split w t r in cc
  | inr n ↦ let f : starts_with (c ∷ w) (d ∷ t) ≡ false = rw n in cc
]

drop-nil : (i : ℕ) → drop {A = ℕ} i [] ≡ []
drop-nil zero = refl
drop-nil (suc i) = refl

-- `drop` of a sum, as the native sum does not compute.
drop-add_suc : (i k d : ℕ) (t : List ℕ) → drop (suc i + k) (d ∷ t) ≡ drop (i + k) t
drop-add_suc i k d t = let e : suc i + k ≡ suc (i + k) = omega arith in ap (λ n. drop n (d ∷ t)) e

drop-zero : (k d : ℕ) (t : List ℕ) → drop k t ≡ drop (0 + suc k) (d ∷ t)
drop-zero k d t = let e : suc k ≡ 0 + suc k = omega arith in ap (λ n. drop n (d ∷ t)) e

drop-drop : (i k : ℕ) (t : List ℕ) → drop k (drop i t) ≡ drop (i + k) t
drop-drop zero k t = let e : k ≡ 0 + k = omega arith in ap (λ n. drop n t) e
drop-drop (suc i) k [] = rw (drop-nil k, drop-nil (suc i + k))
drop-drop (suc i) k (d ∷ t) = rw (drop-add_suc i k d t, drop-drop i k t)

module _ (c : ℕ) (w new : List ℕ) where
  replace-none :
      (text : List ℕ) (skip : ℕ)
      → ((j : ℕ) → skip ≤ j → at (c ∷ w) text j ≡ false)
      → replace (c ∷ w) new skip text ≡ drop skip text
  unfolding replace
  replace-none [] zero h = refl
  replace-none [] (suc skip) h = refl
  replace-none (d ∷ text) (suc skip) h = replace-none text skip (λ j p. h (suc j) (omega arith))
  replace-none (d ∷ text) zero h =
      let e : starts_with (c ∷ w) (d ∷ text) ≡ false = h 0 (omega arith) in
      rw (e, replace, replace-none text zero (λ j p. h (suc j) (omega arith)))

  replace-one :
      (text : List ℕ) (i : ℕ)
      → at (c ∷ w) text i ≡ true
      → ((j : ℕ) → j ≢ i → at (c ∷ w) text j ≡ false)
      → replace (c ∷ w) new 0 text ≡ take i text ++ new ++ drop (i + length (c ∷ w)) text
  unfolding replace
  replace-one [] i y n = let f = at-nil c w i in cc
  replace-one (d ∷ text) zero y n =
      let y' : starts_with (c ∷ w) (d ∷ text) ≡ true = y in
      let e = replace-none text (length w) (λ j p. n (suc j) (omega arith)) in
      let m : length (c ∷ w) - 1 ≡ length w = omega arith in
      let z : drop (length w) text ≡ drop (0 + length (c ∷ w)) (d ∷ text) =
        drop-zero (length w) d text in
      rw (y', replace, m, e) (ap (λ u. new ++ u) z)
  replace-one (d ∷ text) (suc i) y n =
      let e : starts_with (c ∷ w) (d ∷ text) ≡ false = n 0 (omega arith) in
      let r = replace-one text i y (λ j p. n (suc j) (omega arith)) in
      rw (e, replace, r, drop-add_suc i (length (c ∷ w)) d text)

-- A text with `w` in one place.
pub record IsOnly (w text before after : List ℕ) : Type 0 where
  pub whole : text ≡ before ++ w ++ after
  pub alone : (j : ℕ) → j ≢ length before → at w text j ≡ false

at-split :
    (w text : List ℕ) (i : ℕ)
    → at w text i ≡ true
    → text ≡ take i text ++ w ++ drop (i + length w) text
at-split w text i y =
    let e = starts_with-split w (drop i text) y in
    let f = drop-drop i (length w) text in
    sym (take-append-drop i text)
    ∙ ap (λ u. take i text ++ u) (e ∙ ap (λ u. w ++ u) f)
    ∙ sym (append_assoc (take i text) w (drop (i + length w) text))

-- The lines that are told of the places where the text is.
several_lines :
    (text w : List ℕ)
    → (ls : List ℕ) × (lines_of w text (find_all_occurrences text (newline ∷ [])) ≡ several ls)
unfolding lines_of
several_lines text w =
    let (is, e, a) = find_all_occurrences-All newline [] text in (line_numbers w text 0 is, rw e)

-- With the first newline put back, the new content.
with_newline :
    (content new after : List ℕ) (i : ℕ)
    → newline ∷ drop 1 (take i (newline ∷ content) ++ (newline ∷ new) ++ after)
      ≡ take i (newline ∷ content) ++ (newline ∷ new) ++ after
with_newline content new after zero = refl
with_newline content new after (suc i) = refl

module _ (content search replacement : List ℕ) where
  abbrev pub old_text : List ℕ
  old_text = newline ∷ content

  abbrev pub searched : List ℕ
  searched = newline ∷ search

  -- How an edit may end. A place is counted from the newline that stands in front of the file.
  pub data EditEnds : Edit → Type 0 where
    not_there : ((j : ℕ) → at searched old_text j ≡ false) → EditEnds missing
    not_unique :
        (i j : ℕ) (ls : List ℕ)
        → i < j
        → at searched old_text i ≡ true
        → at searched old_text j ≡ true
        → EditEnds (several ls)
    replaced :
        (before after new_content : List ℕ)
        → IsOnly searched old_text before after
        → newline ∷ new_content ≡ before ++ (newline ∷ replacement) ++ after
        → EditEnds (
            edited new_content (count_char newline before + 1) (count_char newline new_content + 1))

  only_at :
      (i : ℕ)
      → First searched old_text 0 i
      → ((j : ℕ) → i + 1 ≤ j → at searched old_text j ≡ false)
      → (j : ℕ) → j ≢ i
      → at searched old_text j ≡ false
  only_at i r h j n = elim (Bool-cases (ltb j i)) [
    | inl e ↦ r.before j (omega arith) (ground (arith, e))
    | inr e ↦ h j (ground (arith, e, n))
  ]

  EditEnds-decide :
      (is : List ℕ)
      → All searched old_text 0 is
      → EditEnds (decide old_text searched (newline ∷ replacement) (some is))
  unfolding decide
  EditEnds-decide [] (no_more _ h) = not_there (λ j. h j (omega arith))
  EditEnds-decide (i ∷ []) (one_more _ _ _ r (no_more _ h)) =
      let before = take i old_text in
      let after = drop (i + length searched) old_text in
      let new_content = drop 1 (replace searched (newline ∷ replacement) 0 old_text) in
      let e =
        replace-one newline search (newline ∷ replacement) old_text i r.here (only_at i r h) in
      let size : length before ≡ i = omega (arith, length-take i old_text, r.inside) in
      replaced before after new_content
        (record {
          whole = at-split searched old_text i r.here;
          alone = λ j n. only_at i r h j (λ q. n (q ∙ sym size));
        })
        (ap (λ u. newline ∷ drop 1 u) e ∙ with_newline content replacement after i)
  EditEnds-decide (i ∷ j ∷ is) (one_more _ _ _ r (one_more _ _ _ q a)) =
      let (ls, e) = several_lines old_text searched in
      subst EditEnds (sym e) (not_unique i j ls (omega (arith, q.from)) r.here q.here)

  -- The tool ends in one of three ways. The search text, taken from the start of a line on, is
  -- nowhere in the file; or it is in two places at least; or it is in one place only, and then
  -- exactly that place has the replacement, all else is kept, and the line and the number of
  -- lines told are those of the change and of the new content.
  pub edit_lem : EditEnds (edit content search replacement)
  unfolding edit
  edit_lem =
      let (is, e, a) = find_all_occurrences-All newline search old_text in
      subst (λ o. EditEnds (decide old_text searched (newline ∷ replacement) o)) (sym e)
        (EditEnds-decide is a)
