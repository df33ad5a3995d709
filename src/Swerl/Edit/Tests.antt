-- ===== src/Swerl/Edit/Tests.antt =====
-- The edit tool on files of a few lines; the letters are a (97), b (98) and c (99).
use cwm.Prelude.{ℕ, ◌≡◌, refl, List, [], ◌∷◌}
use cwm.Prelude.Text.{starts_with}
use cwm.Swerl.Edit.{
  newline, find, find_loop, find_all_occurrences, replace, count_char, missing, several, edited,
  edit,
}
use cwm.Swerl.Edit.Replaced.{EditEnds, edit_lem}

-- a, b, c on a line each.
abbrev three_lines : List ℕ
three_lines = 97 ∷ newline ∷ 98 ∷ newline ∷ 99 ∷ []

abbrev twice : List ℕ
twice = 97 ∷ newline ∷ 98 ∷ newline ∷ 97 ∷ []

second_line :
    edit three_lines (98 ∷ []) (99 ∷ newline ∷ 99 ∷ [])
    ≡ edited (97 ∷ newline ∷ 99 ∷ newline ∷ 99 ∷ newline ∷ 99 ∷ []) 2 4
unfolding edit find_all_occurrences find_loop find replace starts_with count_char
second_line = refl

two_places : edit twice (97 ∷ []) [] ≡ several (1 ∷ 3 ∷ [])
unfolding edit find_all_occurrences find_loop find replace starts_with count_char
two_places = refl

nowhere : edit three_lines (98 ∷ 98 ∷ []) [] ≡ missing
unfolding edit find_all_occurrences find_loop find replace starts_with count_char
nowhere = refl

edit_lem_example : EditEnds three_lines (98 ∷ []) (99 ∷ []) (edit three_lines (98 ∷ []) (99 ∷ []))
edit_lem_example = edit_lem three_lines (98 ∷ []) (99 ∷ [])
