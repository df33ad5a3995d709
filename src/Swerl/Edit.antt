-- ===== src/Swerl/Edit.antt =====
-- cwm/rl/swerl/plugins/edit.py: a search text that is in a file once is replaced. The regular
-- expression that takes the command apart and the file system are not modelled: `edit` starts from
-- the content of the file and the two texts, and its messages are kept to the numbers in them.
pub mod Places
pub mod Replaced
mod Tests
use mathlib.Core.Option
use cwm.Prelude.{
  ℕ, zero, suc, ◌+◌, ◌-◌, Bool, true, false, List, [], ◌∷◌, ◌++◌, Option, none, some, ◌==◌,
  if◌then◌else◌, length, take, drop,
}
use cwm.Prelude.Text.{starts_with}

abbrev pub newline : ℕ
newline = 10

-- `text.find(w, start)`; `none` for -1.
unfoldable pub find : List ℕ → List ℕ → ℕ → Option ℕ
unfolding starts_with
find w [] zero = if starts_with w [] then some 0 else none
find w (c ∷ text) zero =
    if starts_with w (c ∷ text) then some 0 else Option.map suc (find w text zero)
find w [] (suc start) = none
find w (c ∷ text) (suc start) = Option.map suc (find w text start)

-- The loop that looks for the next place; `none` where its rounds run out.
unfoldable pub find_loop : ℕ → List ℕ → List ℕ → ℕ → Option (List ℕ)
find_loop zero text w start = none
find_loop (suc fuel) text w start = elim (find w text start) [
  | none ↦ some []
  | some i ↦ Option.map (λ rest. i ∷ rest) (find_loop fuel text w (i + 1))
]

unfoldable pub find_all_occurrences : List ℕ → List ℕ → Option (List ℕ)
find_all_occurrences text w = find_loop (length text + 2) text w 0

-- `text.replace(w, new)` for a text `w` that is not empty; `skip` characters of a match are left.
unfoldable pub replace : List ℕ → List ℕ → ℕ → List ℕ → List ℕ
replace w new skip [] = []
replace w new (suc skip) (c ∷ text) = replace w new skip text
replace w new zero (c ∷ text) = elim (starts_with w (c ∷ text)) [
  | true ↦ new ++ replace w new (length w - 1) text
  | false ↦ c ∷ replace w new zero text
]

-- `text.count(c)` for a character.
unfoldable pub count_char : ℕ → List ℕ → ℕ
count_char c [] = 0
count_char c (d ∷ text) = (if d == c then 1 else 0) + count_char c text

-- The lines where the search text starts: `k` counts the newlines before.
line_numbers : List ℕ → List ℕ → ℕ → List ℕ → List ℕ
line_numbers w text k [] = []
line_numbers w text k (i ∷ is) =
    let rest = line_numbers w text (k + 1) is in
    if starts_with w (drop i text) then (k + 1) ∷ rest else rest

-- How the tool ends. `edited` has the new content, the line of the change and the number of lines.
pub data Edit : Type 0 where
  missing : Edit
  several : List ℕ → Edit
  edited : List ℕ → ℕ → ℕ → Edit
  out_of_rounds : Edit

lines_of : List ℕ → List ℕ → Option (List ℕ) → Edit
lines_of w text none = out_of_rounds
lines_of w text (some newlines) = several (line_numbers w text 0 newlines)

-- What is done about the places found.
decide : List ℕ → List ℕ → List ℕ → Option (List ℕ) → Edit
unfolding lines_of line_numbers count_char
decide text w new none = out_of_rounds
decide text w new (some []) = missing
decide text w new (some (i ∷ [])) =
    let content = drop 1 (replace w new 0 text) in
    edited content (count_char newline (take i text) + 1) (count_char newline content + 1)
decide text w new (some (i ∷ j ∷ is)) = lines_of w text (find_all_occurrences text (newline ∷ []))

-- A newline goes in front of each text, so that whole lines are compared from their start on.
unfoldable pub edit : List ℕ → List ℕ → List ℕ → Edit
unfolding decide
edit content search replacement =
    let text = newline ∷ content in
    let w = newline ∷ search in decide text w (newline ∷ replacement) (find_all_occurrences text w)
