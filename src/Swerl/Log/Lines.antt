-- ===== src/Swerl/Log/Lines.antt =====
-- The lines and the words of a text.
use cwm.Prelude.{
  ℕ, ◌≡◌, refl, ap, sym, ◌∙◌, Bool, false, List, [], ◌∷◌, ◌++◌, append-nil, append_assoc, ◌==◌,
}
use cwm.Swerl.Edit.{newline}
use cwm.Swerl.Log.{split_lines, is_space, words_from, words, space}

-- No character of the text is one of those.
abbrev pub Free : (ℕ → Bool) → List ℕ → Type 0
Free p [] = Unit
Free p (c ∷ t) = (p c ≡ false) × Free p t

abbrev pub is_newline : ℕ → Bool
is_newline c = c == newline

-- A text with a newline after each line.
abbrev pub lines_text : List (List ℕ) → List ℕ
lines_text [] = []
lines_text (l ∷ ls) = l ++ newline ∷ lines_text ls

abbrev pub AllFree : (ℕ → Bool) → List (List ℕ) → Type 0
AllFree p [] = Unit
AllFree p (l ∷ ls) = Free p l × AllFree p ls

split_lines-line :
    (l t : List ℕ) → Free is_newline l → split_lines (l ++ newline ∷ t) ≡ l ∷ split_lines t
unfolding split_lines
split_lines-line [] t h = refl
split_lines-line (c ∷ l) t h = rw (h.0, split_lines-line l t h.1)

-- The lines of such a text are its lines, and an empty one at the end.
pub split_lines-lines_text :
    (ls : List (List ℕ)) → AllFree is_newline ls → split_lines (lines_text ls) ≡ ls ++ [] ∷ []
unfolding split_lines
split_lines-lines_text [] h = refl
split_lines-lines_text (l ∷ ls) h =
    split_lines-line l (lines_text ls) h.0 ∙ ap (λ r. l ∷ r) (split_lines-lines_text ls h.1)

-- A word is not empty and has no space.
abbrev pub IsWord : List ℕ → Type 0
IsWord [] = ⊥
IsWord (c ∷ w) = Free is_space (c ∷ w)

words_next :
    (u : List ℕ) (c : ℕ) (t : List ℕ)
    → is_space c ≡ false
    → words_from u (c ∷ t) ≡ words_from (u ++ c ∷ []) t
unfolding words_from
words_next u c t e = rw (e, words_from)

words_from-word : (u w t : List ℕ) → Free is_space w → words_from u (w ++ t) ≡ words_from (u ++ w) t
words_from-word u [] t h = ap (λ v. words_from v t) (sym (append-nil u))
words_from-word u (c ∷ w) t h =
    words_next u c (w ++ t) h.0
    ∙ words_from-word (u ++ c ∷ []) w t h.1
    ∙ ap (λ v. words_from v t) (append_assoc u (c ∷ []) w)

words_from-space : (c : ℕ) (w t : List ℕ) → words_from (c ∷ w) (space ∷ t) ≡ (c ∷ w) ∷ words t
unfolding words_from is_space
words_from-space c w t = refl

-- A word, and what follows it.
pub words-word : (w t : List ℕ) → IsWord w → words (w ++ space ∷ t) ≡ w ∷ words t
words-word [] t h = absurd h
words-word (c ∷ w) t h = words_from-word [] (c ∷ w) (space ∷ t) h ∙ words_from-space c w t

pub words-last : (w : List ℕ) → IsWord w → words w ≡ w ∷ []
unfolding words_from
words-last [] h = absurd h
words-last (c ∷ w) h = ap words (sym (append-nil (c ∷ w))) ∙ words_from-word [] (c ∷ w) [] h
