-- ===== src/Data/Sources.antt =====
-- cwm/data/srcs/list.py and range.py: the two sources of items. Positions are natural numbers.
use cwm.Prelude.{
  ℕ, zero, suc, ◌+◌, ◌-◌, ◌≤◌, ◌<◌, ◌≡◌, ◌∙◌, refl, List, [], ◌∷◌, Option, none, some, arith, leb,
  if◌then◌else◌, length, get_elem?, drop, ◌⊎◌, inl, inr,
}
use cwm.Data.{Outcome, item, stop, fault, Dataset, at, Yields, done, more, Resumes}
use native.Mathlib.Numerals.{add-one}

pub record ListSrc (A : Type 0) : Type 0 where
  pub values : List A
  pub idx : ℕ

-- `values[i]`, which raises out of range.
abbrev read {ℓ} : {A : Type ℓ} → Option A → Outcome A
read none = fault
read (some a) = item a

module _ {A : Type 0} where
  unfoldable pub list_init : List A → ListSrc A
  list_init values = record { values = values; idx = 0 }

  list_next : ListSrc A → Outcome A × ListSrc A
  list_next s =
      if leb (length s.values) s.idx
      then (stop, s)
      else (read (get_elem? s.values s.idx), record s { idx = s.idx + 1 })

  unfoldable pub list_src : Dataset (ListSrc A) ℕ A
  unfolding list_next
  list_src = record {
    next = list_next;
    reset = λ s. record s { idx = 0 };
    state_dict = λ s. s.idx;
    load_state_dict = λ idx s. some (record s { idx = idx });
  }

pub record RangeSrc : Type 0 where
  pub begin : ℕ
  pub end : ℕ
  pub curr : ℕ

unfoldable pub range_init : ℕ → ℕ → RangeSrc
range_init begin end = record { begin = begin; end = end; curr = begin }

range_next : RangeSrc → Outcome ℕ × RangeSrc
range_next s = if leb s.end s.curr then (stop, s) else (item s.curr, record s { curr = s.curr + 1 })

unfoldable pub range_src : Dataset RangeSrc ℕ ℕ
unfolding range_next
range_src = record {
  next = range_next;
  reset = λ s. record s { curr = s.begin };
  state_dict = λ s. s.curr;
  load_state_dict = λ curr s. some (record s { curr = curr });
}

-- n, n + 1, … , n + k - 1.
abbrev pub count_up : ℕ → ℕ → List ℕ
count_up zero n = []
count_up (suc k) n = n ∷ count_up k (n + 1)

-- Either the position is past the end, or the element there heads what is left.
drop-cases {ℓ} :
    {A : Type ℓ} (i : ℕ) (xs : List A)
    → ((length xs ≤ i) × (drop i xs ≡ []))
      ⊎ ((a : A) × (i < length xs) × (get_elem? xs i ≡ some a) × (drop i xs ≡ a ∷ drop (i + 1) xs))
drop-cases zero [] = inl (omega arith, refl)
drop-cases zero (x ∷ xs) = inr (x, omega arith, refl, refl)
drop-cases (suc i) [] = inl (omega arith, refl)
drop-cases (suc i) (x ∷ xs) = elim (drop-cases i xs) [
  | inl (h, e) ↦ inl (omega arith, e)
  | inr (a, h, g, e) ↦ inr (a, omega arith, g, rw add-one (rw add-one at e))
]

module _ {A : Type 0} where
  list_rest :
      (k : ℕ) (s : ListSrc A)
      → length s.values ≤ s.idx + k
      → Yields list_src s (drop s.idx s.values)
  unfolding list_src
  list_rest zero s h = elim (drop-cases s.idx s.values) [
    | inl (p, e) ↦ rw e (done s (at s s (ground arith) (ground arith)))
    | inr (a, p, g, e) ↦ absurd (omega arith)
  ]
  list_rest (suc k) s h = elim (drop-cases s.idx s.values) [
    | inl (p, e) ↦ rw e (done s (at s s (ground arith) (ground arith)))
    | inr (a, p, g, e) ↦ rw e (
        more s (record s { idx = s.idx + 1 }) a (drop (s.idx + 1) s.values) (ground arith)
          (list_rest k (record s { idx = s.idx + 1 }) (omega arith)))
  ]

  -- From any position, a list dataset yields the values from there on, in order, and stops.
  pub list_src-Yields : (s : ListSrc A) → Yields list_src s (drop s.idx s.values)
  list_src-Yields s = list_rest (length s.values) s (omega arith)

  pub list_src-Resumes : Resumes (list_src {A = A}) (λ s t. s.values ≡ t.values)
  unfolding list_src
  list_src-Resumes = record {
    like_refl = λ s. refl;
    like_trans = λ p q. p ∙ q;
    like_next = λ s. ground arith;
    like_reset = λ s. refl;
    load_saved = λ s t h. ground arith;
  }

range_rest : (k : ℕ) (s : RangeSrc) → s.end - s.curr ≡ k → Yields range_src s (count_up k s.curr)
unfolding range_src
range_rest zero s h = done s (at s s (ground arith) (ground arith))
range_rest (suc k) s h =
    more s (record s { curr = s.curr + 1 }) s.curr (count_up k (s.curr + 1)) (ground arith)
      (range_rest k (record s { curr = s.curr + 1 }) (omega arith))

-- From any position, a range dataset yields the numbers from there up to `end`, which is left
-- out, and stops.
pub range_src-Yields : (s : RangeSrc) → Yields range_src s (count_up (s.end - s.curr) s.curr)
range_src-Yields s = range_rest (s.end - s.curr) s refl

pub range_src-Resumes : Resumes range_src (λ s t. (s.begin ≡ t.begin) × (s.end ≡ t.end))
unfolding range_src
range_src-Resumes = record {
  like_refl = λ s. (refl, refl);
  like_trans = λ p q. (p.0 ∙ q.0, p.1 ∙ q.1);
  like_next = λ s. ground arith;
  like_reset = λ s. (refl, refl);
  load_saved = λ s t h. ground arith;
}
