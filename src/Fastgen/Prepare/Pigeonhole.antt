-- ===== src/Fastgen/Prepare/Pigeonhole.antt =====
-- A list in which every number below `n` occurs has at least `n` elements.
use cwm.Prelude.{
  ℕ, zero, suc, ◌+◌, ◌≤◌, ◌<◌, ◌≡◌, ◌≢◌, List, [], ◌∷◌, arith, ◌==◌, if◌then◌else◌, length,
}
use cwm.Fastgen.BlockSet.{count}

remove : ℕ → List ℕ → List ℕ
remove x [] = []
remove x (y ∷ l) = if y == x then l else y ∷ remove x l

length-remove : (x : ℕ) (l : List ℕ) → 0 < count x l → length (remove x l) + 1 ≡ length l
unfolding remove count
length-remove x [] h = elim h [ ]
length-remove x (y ∷ l) h = ground (arith, length-remove x l)

count-remove_ne : (x y : ℕ) (l : List ℕ) → x ≢ y → count y (remove x l) ≡ count y l
unfolding remove count
count-remove_ne x y [] h = ground arith
count-remove_ne x y (z ∷ l) h = ground (arith, count-remove_ne x y l h)

pub pigeonhole : (n : ℕ) (l : List ℕ) → ((b : ℕ) → b < n → 0 < count b l) → n ≤ length l
pigeonhole zero l h = omega arith
pigeonhole (suc n) l h = omega (
  arith,
  length-remove n l (h n (omega arith)),
  pigeonhole n (remove n l)
      (λ b p. omega (arith, count-remove_ne n b l (omega arith), h b (omega arith))),
)
