-- ===== src/Prelude/Text.antt =====
-- Texts as lists of character codes: equality, Python's `in`, and what starts with what.
use mathlib.Core.Path.{◌≡◌, refl}
use mathlib.Core.Logic.{inl, inr}
use mathlib.Core.Bool.{Bool, true, false, ◌&&◌, ◌||◌}
use mathlib.Core.List.{List, [], ◌∷◌}
use Prim.Native.Char.{code}
use Prim.Native.String.{String}
use Prim.Native.Nat.{ℕ}
use native.Mathlib.Omega.{arith}
use cwm.Prelude.Tests.{◌==◌, Bool-cases}

-- The characters of a literal.
abbrev pub codes : String → List ℕ
codes String.[] = []
codes (String.◌∷◌ c s) = code c ∷ codes s

-- `text.startswith(w)`.
unfoldable pub starts_with : List ℕ → List ℕ → Bool
starts_with [] text = true
starts_with (c ∷ w) [] = false
starts_with (c ∷ w) (d ∷ text) = c == d && starts_with w text

-- `w in text`.
unfoldable pub occurs : List ℕ → List ℕ → Bool
unfolding starts_with
occurs w [] = starts_with w []
occurs w (d ∷ text) = starts_with w (d ∷ text) || occurs w text

-- `a == b` on texts.
unfoldable pub same : List ℕ → List ℕ → Bool
same [] [] = true
same [] (d ∷ b) = false
same (c ∷ a) [] = false
same (c ∷ a) (d ∷ b) = c == d && same a b

pub same_sound : (a b : List ℕ) → same a b ≡ true → a ≡ b
unfolding same
same_sound [] [] h = refl
same_sound [] (d ∷ b) h = cc
same_sound (c ∷ a) [] h = cc
same_sound (c ∷ a) (d ∷ b) h = elim (Bool-cases (c == d)) [
  | inl e ↦
      let q : c ≡ d = ground (arith, e) in
      let r : same a b ≡ true = ground (arith, e, h) in let t = same_sound a b r in cc
  | inr n ↦ let f : same (c ∷ a) (d ∷ b) ≡ false = rw n in cc
]

pub same_refl : (a : List ℕ) → same a a ≡ true
unfolding same
same_refl [] = refl
same_refl (c ∷ a) = ground (arith, same_refl a)

pub same_sym_false : (a b : List ℕ) → same a b ≡ false → same b a ≡ false
same_sym_false a b n = elim (Bool-cases (same b a)) [
  | inl y ↦ let q = same_sound b a y in let r = same_refl a in cc
  | inr m ↦ m
]
