-- ===== src/Data/Chain.antt =====
-- cwm/data/ops/chain.py: ChainPolicy, which goes through the datasets once, and `chain`.
use cwm.Prelude.{
  ℕ, zero, suc, ◌+◌, ◌<◌, ◌≡◌, refl, ap, sym, ◌∙◌, Bool, true, false, List, [], ◌∷◌, ◌++◌,
  append-nil, append_assoc, Option, none, some, arith, leb, if◌then◌else◌, length, length-append,
  get_elem?, set,
}
use cwm.Data.{item, stop, Dataset, at, Yields, done, more}
use cwm.Data.FilterMap.{Yields-same_next}
use cwm.Data.Mix.{MixPolicy, Mix, mix_init, mix, mix_next}

pub record ChainPolicy : Type 0 where
  pub idx : Option ℕ
  pub cnt : Option ℕ

-- `__init__`, which ends in `reset`.
abbrev pub chain_policy : ChainPolicy
chain_policy = record { idx = some 0; cnt = none }

-- `idx` with a value past the last dataset replaced by None.
within : Option ℕ → ℕ → Option ℕ
within none cnt = none
within (some idx) cnt = if leb cnt idx then none else some idx

select_dataset : ChainPolicy → Option (Option ℕ × ChainPolicy)
unfolding within
select_dataset p = elim p.cnt [
  | none ↦ none
  | some cnt ↦ some (within p.idx cnt, record p { idx = within p.idx cnt })
]

is_some {ℓ} : {A : Type ℓ} → Option A → Bool
is_some none = false
is_some (some a) = true

-- The argument is not read; the assertions want `idx` and `cnt` to be there.
exhaust : ℕ → ChainPolicy → Option (Bool × ChainPolicy)
unfolding within is_some
exhaust _ p = elim p.idx [
  | none ↦ none
  | some idx ↦ elim p.cnt [
    | none ↦ none
    | some cnt ↦
        let next : Option ℕ = within (some (idx + 1)) cnt in
        some (is_some next, record p { idx = next })
  ]
]

unfoldable pub chain_ops : MixPolicy ChainPolicy (Option ℕ × Option ℕ)
unfolding select_dataset exhaust
chain_ops = record {
  initialize = λ n p. record p { cnt = some n };
  policy_reset = λ p. record p { idx = some 0 };
  select_dataset = select_dataset;
  exhaust = exhaust;
  policy_state_dict = λ p. (p.idx, p.cnt);
  policy_load_state_dict = λ saved p. record { idx = saved.0; cnt = saved.1 };
}

module _ (fuel : ℕ) {S D A : Type 0} (ds : Dataset S D A) where
  unfoldable pub chain : Dataset (Mix S ChainPolicy) (List D × (Option ℕ × Option ℕ)) A
  unfolding mix chain_ops
  chain = mix fuel ds chain_ops

module _ {S D A : Type 0} (ds : Dataset S D A) where
  unfoldable pub chain_init : List S → Mix S ChainPolicy
  unfolding mix_init chain_ops
  chain_init datasets = mix_init ds chain_ops datasets chain_policy

-- Datasets beside what each of them yields.
pub data AllYield {S D A : Type 0} (ds : Dataset S D A) : List S → List (List A) → Type 0 where
  nil : AllYield ds [] []
  cons :
      {s : S} {xs : List A} {rest : List S} {xss : List (List A)}
      → Yields ds s xs
      → AllYield ds rest xss
      → AllYield ds (s ∷ rest) (xs ∷ xss)

unfoldable pub concat {ℓ} : {A : Type ℓ} → List (List A) → List A
concat [] = []
concat (xs ∷ xss) = xs ++ concat xss

get_elem?-append {ℓ} :
    {A : Type ℓ} (before : List A) (a : A) (rest : List A)
    → get_elem? (before ++ a ∷ rest) (length before) ≡ some a
get_elem?-append [] a rest = refl
get_elem?-append (b ∷ before) a rest = get_elem?-append before a rest

set-append {ℓ} :
    {A : Type ℓ} (before : List A) (a b : A) (rest : List A)
    → set (before ++ a ∷ rest) (length before) b ≡ before ++ b ∷ rest
set-append [] a b rest = refl
set-append (c ∷ before) a b rest = ap (◌∷◌ c) (set-append before a b rest)

position : {S : Type 0} → List S → List S → Option ℕ
position before [] = none
position before (s ∷ rest) = some (length before)

module _ {S D A : Type 0} (ds : Dataset S D A) where
  -- The chain with the datasets `before` gone through and `rest` to come.
  chain_at : List S → List S → Mix S ChainPolicy
  unfolding position
  chain_at before rest = record {
    datasets = before ++ rest;
    policy = record { idx = position before rest; cnt = some (length (before ++ rest)) };
  }

  -- A round that draws an item.
  round_item :
      (f : ℕ) (before : List S) (s s' : S) (rest : List S) (a : A)
      → ds.next s ≡ (item a, s')
      → mix_next ds chain_ops (suc f) (chain_at before (s ∷ rest))
        ≡ (item a, chain_at before (s' ∷ rest))
  unfolding mix_next chain_ops chain_at
  round_item f before s s' rest a e = ground (
    arith,
    get_elem?-append before s rest,
    set-append before s s' rest,
    length-append before (s ∷ rest),
    length-append before (s' ∷ rest),
  )

  round_end :
      (f : ℕ) (before : List S)
      → mix_next ds chain_ops (suc f) (chain_at before []) ≡ (stop, chain_at before [])
  unfolding mix_next chain_ops chain_at
  round_end f before = ground arith

  -- A round that meets the end of a dataset goes on with the next one.
  after_stop : S → List S → S
  after_stop s' [] = s'
  after_stop s' (_ ∷ _) = ds.reset s'

  round_stop :
      (f : ℕ) (before : List S) (s s' : S) (rest : List S)
      → ds.next s ≡ (stop, s')
      → mix_next ds chain_ops (suc f) (chain_at before (s ∷ rest))
        ≡ mix_next ds chain_ops f (chain_at (before ++ after_stop s' rest ∷ []) rest)
  unfolding mix_next chain_ops chain_at after_stop
  round_stop f before s s' [] e = ground (
    arith,
    get_elem?-append before s [],
    set-append before s s' [],
    length-append before (s ∷ []),
    append-nil (before ++ s' ∷ []),
    length-append before (s' ∷ []),
  )
  round_stop f before s s' (t ∷ rest) e = ground (
    arith,
    get_elem?-append before s (t ∷ rest),
    set-append before s (ds.reset s') (t ∷ rest),
    length-append before (s ∷ t ∷ rest),
    append_assoc before (ds.reset s' ∷ []) (t ∷ rest),
    length-append before (ds.reset s' ∷ []),
    length-append before (ds.reset s' ∷ t ∷ rest),
  )

  -- With more rounds than datasets left, the number of rounds does not matter.
  same_rounds :
      (f g : ℕ) (before : List S) {rest : List S} {xss : List (List A)}
      → AllYield ds rest xss
      → length rest < f
      → length rest < g
      → mix_next ds chain_ops f (chain_at before rest)
        ≡ mix_next ds chain_ops g (chain_at before rest)
  same_rounds zero g before y p q = elim p [ ]
  same_rounds (suc f) zero before y p q = elim q [ ]
  same_rounds (suc f) (suc g) before nil p q = round_end f before ∙ sym (round_end g before)
  same_rounds (suc f) (suc g) before (cons {rest = rest} (more s s' a r e _) ys) p q =
      round_item f before s s' rest a e ∙ sym (round_item g before s s' rest a e)
  same_rounds (suc f) (suc g) before (cons {rest = rest} (done s (at _ s' e _)) ys) p q =
      round_stop f before s s' rest e
      ∙ same_rounds f g (before ++ after_stop s' rest ∷ []) ys (omega arith) (omega arith)
      ∙ sym (round_stop g before s s' rest e)

module _ (f : ℕ) {S D A : Type 0} (ds : Dataset S D A) where
  -- What the first dataset left still yields, and then the others.
  chain_first :
      (before : List S) {rest : List S} {xss : List (List A)} {s : S} {xs ys : List A}
      → AllYield ds rest xss
      → length rest < f
      → ((t : S) → Yields (chain (suc f) ds) (chain_at ds (before ++ t ∷ []) rest) ys)
      → Yields ds s xs
      → Yields (chain (suc f) ds) (chain_at ds before (s ∷ rest)) (xs ++ ys)
  unfolding chain
  chain_first before {rest = rest} all h next (done s (at _ s' e _)) =
      Yields-same_next (chain (suc f) ds)
        (round_stop ds f before s s' rest e
          ∙ same_rounds ds f (suc f) (before ++ after_stop ds s' rest ∷ []) all h (omega arith))
        (next (after_stop ds s' rest))
  chain_first before {rest = rest} {ys = ys} all h next (more s s' a r e y) =
      more (chain_at ds before (s ∷ rest)) (chain_at ds before (s' ∷ rest)) a (r ++ ys)
        (round_item ds f before s s' rest a e) (chain_first before all h next y)

  chain_rest :
      (before : List S) {rest : List S} {xss : List (List A)}
      → AllYield ds rest xss
      → length rest < suc f
      → Yields (chain (suc f) ds) (chain_at ds before rest) (concat xss)
  unfolding chain concat
  chain_rest before nil h = done (chain_at ds before []) (
      at (chain_at ds before []) (chain_at ds before []) (round_end ds f before)
        (round_end ds f before))
  chain_rest before (cons {s = s} {rest = rest} y ys) h =
      chain_first before ys (omega arith) (λ t. chain_rest (before ++ t ∷ []) ys (omega arith)) y

-- A chain of datasets yields what each of them yields, one dataset after the other, and stops, if
-- more rounds are allowed to a call of `__next__` than there are datasets.
pub chain-Yields :
    {S D A : Type 0} (ds : Dataset S D A) (fuel : ℕ) {datasets : List S} {xss : List (List A)}
    → length datasets < fuel
    → AllYield ds datasets xss
    → Yields (chain fuel ds) (chain_init ds datasets) (concat xss)
unfolding chain chain_init chain_at
chain-Yields ds zero h all = elim h [ ]
chain-Yields ds (suc f) h nil =
    unfold mix_next concat in
    done (chain_init ds [])
      (at (chain_init ds []) (chain_at ds [] []) (ground arith) (ground arith))
chain-Yields ds (suc f) h (cons y ys) = chain_rest f ds [] (cons y ys) h
