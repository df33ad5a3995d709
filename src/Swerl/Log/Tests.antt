-- ===== src/Swerl/Log/Tests.antt =====
-- A log of three tests.
use cwm.Prelude.{
  ◌≡◌, refl, List, [], ◌∷◌, ◌++◌, Bool, true, false, ◌&&◌, and_true, not, sym, Bool-cases, inl, inr,
  ℕ, Option, none, some, map,
}
use cwm.Prelude.Text.{codes}
use cwm.Swerl.Log.{pytest_statuses, parse_log, has_status, is_space}
use cwm.Swerl.Log.Lines.{lines_text, Free, AllFree, is_newline}
use cwm.Swerl.Log.Parsed.{Line, result, other, line_text, results, AllReadable, parse_log_lem}

abbrev pub log_lines : List Line
log_lines =
    other (codes "+++ patch applied okay +++")
    ∷ other (codes "== short test summary info ==")
    ∷ result (codes "PASSED") (codes "a.py::t") none
    ∷ result (codes "FAILED") (codes "b.py::u") (some (codes "- assert 1 - 2"))
    ∷ result (codes "FAILED") (codes "a.py::t") none
    ∷ []

no_char : (ℕ → Bool) → List ℕ → Bool
no_char p [] = true
no_char p (c ∷ t) = not (p c) && no_char p t

flipped : (b : Bool) → not b ≡ true → b ≡ false
flipped false h = refl
flipped true h = sym h

no_char-Free : (p : ℕ → Bool) (t : List ℕ) → no_char p t ≡ true → Free p t
unfolding no_char
no_char-Free p [] h = tt
no_char-Free p (c ∷ t) h =
    let (n, r) = and_true (not (p c)) (no_char p t) h in (flipped (p c) n, no_char-Free p t r)

pub log_readable : AllReadable pytest_statuses log_lines
unfolding cwm.Swerl.Log.Parsed.AllReadable cwm.Swerl.Log.Parsed.IsReadable cwm.Swerl.Log.has_status
    cwm.Prelude.Text.starts_with cwm.Prelude.Text.same cwm.Swerl.Log.is_space no_char
log_readable = (
  refl,
  (
    refl,
    (
      (
        refl,
        no_char-Free is_space (codes "PASSED") refl,
        no_char-Free is_space (codes "a.py::t") refl,
        refl,
      ),
      (
        (
          refl,
          no_char-Free is_space (codes "FAILED") refl,
          no_char-Free is_space (codes "b.py::u") refl,
          refl,
        ),
        (
          (
            refl,
            no_char-Free is_space (codes "FAILED") refl,
            no_char-Free is_space (codes "a.py::t") refl,
            refl,
          ),
          tt,
        ),
      ),
    ),
  ),
)

pub log_lines_free : AllFree is_newline (map line_text log_lines)
unfolding no_char cwm.Swerl.Log.Parsed.line_text
log_lines_free = (
  no_char-Free is_newline (codes "+++ patch applied okay +++") refl,
  (
    no_char-Free is_newline (codes "== short test summary info ==") refl,
    (
      no_char-Free is_newline (codes "PASSED a.py::t") refl,
      (
        no_char-Free is_newline (codes "FAILED b.py::u - assert 1 - 2") refl,
        (no_char-Free is_newline (codes "FAILED a.py::t") refl, tt),
      ),
    ),
  ),
)

no_empty_status : has_status pytest_statuses [] ≡ false
unfolding has_status cwm.Prelude.Text.starts_with
no_empty_status = refl

parse_log_lem_example :
    parse_log pytest_statuses (lines_text (map line_text log_lines)) ≡ results log_lines []
parse_log_lem_example =
    parse_log_lem pytest_statuses log_lines log_readable log_lines_free no_empty_status

two_results :
    results log_lines []
    ≡ (codes "a.py::t", codes "FAILED") ∷ (codes "b.py::u", codes "FAILED") ∷ []
unfolding results cwm.Prelude.Text.same
two_results = refl
