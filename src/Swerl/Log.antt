-- ===== src/Swerl/Log.antt =====
-- cwm/rl/swerl/eval_backend/utils/pytest_parser.py, and `parse_log_pytest` of log_parsers.py, which
-- differs from it only in the statuses that begin a line: both are `parse_log`.
pub mod Lines
pub mod Parsed
pub mod Tests
use cwm.Prelude.{
  ℕ, zero, suc, Bool, true, false, ◌||◌, List, [], ◌∷◌, ◌++◌, Option, none, some, ◌==◌, leb, ◌&&◌,
  if◌then◌else◌,
}
use cwm.Prelude.Text.{starts_with}
use cwm.Prelude.Dict.{modify}
use cwm.Swerl.Edit.{newline, replace}
use cwm.Swerl.Grading.{Name, passed, failed, skipped, error, xfail}

-- `text.split("\n")`.
cons_line : ℕ → List (List ℕ) → List (List ℕ)
cons_line c [] = (c ∷ []) ∷ []
cons_line c (l ∷ ls) = (c ∷ l) ∷ ls

unfoldable pub split_lines : List ℕ → List (List ℕ)
unfolding cons_line
split_lines [] = [] ∷ []
split_lines (c ∷ text) =
    let rest = split_lines text in if c == newline then [] ∷ rest else cons_line c rest

-- The characters between the words of `text.split()`.
unfoldable pub is_space : ℕ → Bool
is_space c =
    (leb 9 c && leb c 13)
    || ((leb 28 c && leb c 32)
        || (c == 133
            || (c == 160
                || (c == 5760
                    || ((leb 8192 c && leb c 8202)
                        || (c == 8232
                            || (c == 8233 || (c == 8239 || (c == 8287 || c == 12288)))))))))

flush : List ℕ → List (List ℕ) → List (List ℕ)
flush [] ws = ws
flush (c ∷ w) ws = (c ∷ w) ∷ ws

-- `w` is the word that has begun.
unfoldable pub words_from : List ℕ → List ℕ → List (List ℕ)
unfolding flush
words_from w [] = flush w []
words_from w (c ∷ text) = elim (is_space c) [
  | true ↦ flush w (words_from [] text)
  | false ↦ words_from (w ++ c ∷ []) text
]

-- `text.split()`.
abbrev pub words : List ℕ → List (List ℕ)
words text = words_from [] text

-- The values of the enumeration TestStatus of pytest_parser.py, and of that of constants.py.
abbrev pub pytest_statuses : List (List ℕ)
pytest_statuses = failed ∷ passed ∷ skipped ∷ error ∷ []

abbrev pub all_statuses : List (List ℕ)
all_statuses = failed ∷ passed ∷ skipped ∷ error ∷ xfail ∷ []

-- `any([line.startswith(x.value) for x in TestStatus])`.
unfoldable pub has_status : List (List ℕ) → List ℕ → Bool
has_status [] line = false
has_status (s ∷ ss) line = starts_with s line || has_status ss line

-- `test_status_map[test_case[1]] = test_case[0]`, if there are two words.
unfoldable pub record_words : List (List ℕ) → List (Name × List ℕ) → List (Name × List ℕ)
record_words [] sm = sm
record_words (status ∷ []) sm = sm
record_words (status ∷ name ∷ ws) sm = modify (λ old. status) name sm

abbrev pub space : ℕ
space = 32

abbrev pub dash : List ℕ
dash = space ∷ 45 ∷ space ∷ []

-- `line.replace(" - ", " ")` for a line of a failed test.
unfoldable pub undash : List ℕ → List ℕ
undash line = if starts_with failed line then replace dash (space ∷ []) 0 line else line

unfoldable pub parse_line : List (List ℕ) → List ℕ → List (Name × List ℕ) → List (Name × List ℕ)
parse_line statuses line sm =
    if has_status statuses line then record_words (words (undash line)) sm else sm

unfoldable pub parse_lines :
    List (List ℕ) → List (List ℕ) → List (Name × List ℕ) → List (Name × List ℕ)
parse_lines statuses [] sm = sm
parse_lines statuses (line ∷ lines) sm = parse_lines statuses lines (parse_line statuses line sm)

unfoldable pub parse_log : List (List ℕ) → List ℕ → List (Name × List ℕ)
parse_log statuses log = parse_lines statuses (split_lines log) []
