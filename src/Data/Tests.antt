-- ===== src/Data/Tests.antt =====
-- Runs of the datasets, and the theorems about them at concrete pipelines.
use cwm.Prelude.{ℕ, ◌+◌, ◌≡◌, refl, Bool, List, [], ◌∷◌, arith, leb}
use cwm.Data.{item, Yields, Resumes}
use cwm.Data.Sources.{
  ListSrc, list_src, list_src-Yields, list_src-Resumes, range_src, range_src-Yields,
}
use cwm.Data.FilterMap.{filter_map, select, filter_map-Yields}
use cwm.Data.Mix.{mix}
use cwm.Data.Mix.Resume.{mix-Resumes, IsLike}
use cwm.Data.Chain.{chain, chain_init, chain_ops, nil, cons, concat, chain-Yields}

abbrev letters : ListSrc ℕ
letters = record { values = 10 ∷ 20 ∷ 30 ∷ []; idx = 1 }

abbrev two_lists : List (ListSrc ℕ)
two_lists = record { values = 1 ∷ []; idx = 0 } ∷ record { values = 2 ∷ 3 ∷ []; idx = 0 } ∷ []

list_src-Yields_example : Yields list_src letters (20 ∷ 30 ∷ [])
list_src-Yields_example = list_src-Yields letters

range_src-Yields_example : Yields range_src (record { begin = 2; end = 5; curr = 3 }) (3 ∷ 4 ∷ [])
range_src-Yields_example = range_src-Yields (record { begin = 2; end = 5; curr = 3 })

abbrev big : ℕ → Bool × ℕ
big n = (leb 20 n, n + 1)

filter_map-Yields_example :
    Yields (filter_map 5 list_src big) (record letters { idx = 0 }) (21 ∷ 31 ∷ [])
unfolding select
filter_map-Yields_example =
    filter_map-Yields list_src big 5 (omega arith) (list_src-Yields (record letters { idx = 0 }))

chain-Yields_example : Yields (chain 3 list_src) (chain_init list_src two_lists) (1 ∷ 2 ∷ 3 ∷ [])
unfolding concat
chain-Yields_example = chain-Yields list_src 3 (omega arith) (
    cons (list_src-Yields (record { values = 1 ∷ []; idx = 0 }))
      (cons (list_src-Yields (record { values = 2 ∷ 3 ∷ []; idx = 0 })) nil))

mix-Resumes_example :
    Resumes {A = ℕ}
      (mix 3 list_src chain_ops)
      (IsLike list_src chain_ops (λ s t. s.values ≡ t.values) list_src-Resumes)
unfolding chain_ops
mix-Resumes_example =
    mix-Resumes list_src chain_ops (λ s t. s.values ≡ t.values) list_src-Resumes 3 (λ p q. refl)

-- The whole of a chain, call by call.
chain_run : ((chain 3 list_src).next (chain_init list_src two_lists)).0 ≡ item 1
unfolding chain chain_init list_src
chain_run = refl
