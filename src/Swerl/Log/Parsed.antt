-- ===== src/Swerl/Log/Parsed.antt =====
-- `parse_log` reads a log that is made of result lines and of other lines.
use mathlib.Core.Path.{subst}
use cwm.Prelude.{
  ℕ, ◌≡◌, refl, ap, sym, ◌∙◌, true, false, List, [], ◌∷◌, ◌++◌, append-nil, Option, none, some,
  ◌==◌, map, and_true, or_intro, or_right, Bool-cases, inl, inr, arith,
}
use cwm.Prelude.Text.{starts_with, same}
use cwm.Prelude.Dict.{modify}
use cwm.Swerl.Edit.{replace}
use cwm.Swerl.Grading.{Name, failed}
use cwm.Swerl.Log.{
  is_space, words, has_status, record_words, space, dash, undash, parse_line, parse_lines,
  parse_log,
}
use cwm.Swerl.Log.Lines.{
  Free, is_newline, lines_text, AllFree, split_lines-lines_text, IsWord, words-word, words-last,
}

-- A line of the short summary: a status, a name and what may stand behind it; or another line.
pub data Line : Type 0 where
  result : List ℕ → Name → Option (List ℕ) → Line
  other : List ℕ → Line

unfoldable pub tail_text : Option (List ℕ) → List ℕ
tail_text none = []
tail_text (some rest) = space ∷ rest

unfoldable pub line_text : Line → List ℕ
unfolding tail_text
line_text (result status name rest) = status ++ space ∷ (name ++ tail_text rest)
line_text (other l) = l

-- What the lines say, in order: a later line of a name replaces its status.
unfoldable pub results : List Line → List (Name × List ℕ) → List (Name × List ℕ)
results [] sm = sm
results (result status name rest ∷ ls) sm = results ls (modify (λ old. status) name sm)
results (other l ∷ ls) sm = results ls sm

starts_with-append : (w u t : List ℕ) → starts_with w u ≡ true → starts_with w (u ++ t) ≡ true
unfolding starts_with
starts_with-append [] u t h = refl
starts_with-append (c ∷ w) [] t h = cc
starts_with-append (c ∷ w) (d ∷ u) t h =
    let (e, r) = and_true (c == d) (starts_with w u) h in rw (e, starts_with-append w u t r)

has_status-append :
    (ss : List (List ℕ)) (u t : List ℕ) → has_status ss u ≡ true → has_status ss (u ++ t) ≡ true
unfolding has_status
has_status-append [] u t h = h
has_status-append (s ∷ ss) u t h = elim (Bool-cases (starts_with s u)) [
  | inl y ↦ rw (starts_with-append s u t y)
  | inr n ↦
      or_intro (starts_with s (u ++ t)) (has_status ss (u ++ t))
        (has_status-append ss u t (or_right (starts_with s u) (has_status ss u) n h))
]

abbrev undashed : List ℕ → List ℕ
undashed t = replace dash (space ∷ []) 0 t

not_space : (c : ℕ) → is_space c ≡ false → (space == c) ≡ false
unfolding is_space
not_space c h = elim (Bool-cases (space == c)) [
  | inl e ↦
      let q : space ≡ c = ground (arith, e) in
      let z : is_space space ≡ false = subst (λ x. is_space x ≡ false) (sym q) h in cc
  | inr n ↦ n
]

not_dash : (c : ℕ) (t : List ℕ) → is_space c ≡ false → starts_with dash (c ∷ t) ≡ false
unfolding starts_with
not_dash c t h = rw (not_space c h)

undashed_keep :
    (c : ℕ) (t : List ℕ) → starts_with dash (c ∷ t) ≡ false → undashed (c ∷ t) ≡ c ∷ undashed t
unfolding replace
undashed_keep c t e = rw (e, replace)

undashed-Free : (u t : List ℕ) → Free is_space u → undashed (u ++ t) ≡ u ++ undashed t
undashed-Free [] t h = refl
undashed-Free (c ∷ u) t h =
    undashed_keep c (u ++ t) (not_dash c (u ++ t) h.0) ∙ ap (λ r. c ∷ r) (undashed-Free u t h.1)

dash_name :
    (n t : List ℕ)
    → IsWord n
    → same n (45 ∷ []) ≡ false
    → starts_with dash (space ∷ (n ++ t)) ≡ false
unfolding starts_with same
dash_name [] t h e = absurd h
dash_name (c ∷ []) t h e = elim (Bool-cases (45 == c)) [
  | inl y ↦
      let z : (c == 45) ≡ true = ground (arith, y) in
      let f : same (c ∷ []) (45 ∷ []) ≡ true = rw z in cc
  | inr m ↦ rw m
]
dash_name (c ∷ d ∷ n) t h e = elim (Bool-cases (45 == c)) [
  | inl y ↦ rw (y, not_space d h.1.0)
  | inr m ↦ rw m
]

undashed_tail :
    (rest : Option (List ℕ)) → (r : Option (List ℕ)) × (undashed (tail_text rest) ≡ tail_text r)
unfolding replace tail_text
undashed_tail none = (none, refl)
undashed_tail (some rest) = elim (Bool-cases (starts_with dash (space ∷ rest))) [
  | inl y ↦ (some (replace dash (space ∷ []) 2 rest), rw (y, replace))
  | inr n ↦ (some (undashed rest), rw (n, replace))
]

-- With or without its dash, a result line has the status and the name for its first words.
two_words :
    (s n : List ℕ) (rest : Option (List ℕ))
    → IsWord s
    → IsWord n
    → (ws : List (List ℕ)) × (words (s ++ space ∷ (n ++ tail_text rest)) ≡ s ∷ n ∷ ws)
unfolding tail_text
two_words s n none hs hn = (
  [],
  words-word s (n ++ []) hs
      ∙ ap (λ u. s ∷ words u) (append-nil n)
      ∙ ap (λ u. s ∷ u) (words-last n hn),
)
two_words s n (some rest) hs hn =
    (words rest, words-word s (n ++ space ∷ rest) hs ∙ ap (λ u. s ∷ u) (words-word n rest hn))

IsWord-Free : (w : List ℕ) → IsWord w → Free is_space w
IsWord-Free [] h = absurd h
IsWord-Free (c ∷ w) h = h

undashed_line :
    (s n : List ℕ) (rest : Option (List ℕ))
    → IsWord s
    → IsWord n
    → same n (45 ∷ []) ≡ false
    → (r : Option (List ℕ)) × (undashed (s ++ space ∷ (n ++ tail_text rest))
        ≡ s ++ space ∷ (n ++ tail_text r))
undashed_line s n rest hs hn e =
    let (r, f) = undashed_tail rest in
    (
      r,
      undashed-Free s (space ∷ (n ++ tail_text rest)) (IsWord-Free s hs)
          ∙ ap (λ u. s ++ u)
              (undashed_keep space (n ++ tail_text rest) (dash_name n (tail_text rest) hn e)
                ∙ ap (λ u. space ∷ u)
                    (undashed-Free n (tail_text rest) (IsWord-Free n hn) ∙ ap (λ u. n ++ u) f)),
    )

-- A line that the parser reads as it is meant: the status is one of those looked for, the name is
-- a word and not a single dash, and another line does not begin with a status.
unfoldable pub IsReadable : List (List ℕ) → Line → Type 0
IsReadable ss (result s n rest) =
    (has_status ss s ≡ true) × IsWord s × IsWord n × (same n (45 ∷ []) ≡ false)
IsReadable ss (other l) = has_status ss l ≡ false

unfoldable pub AllReadable : List (List ℕ) → List Line → Type 0
AllReadable ss [] = Unit
AllReadable ss (l ∷ ls) = IsReadable ss l × AllReadable ss ls

undash-words :
    (s n : List ℕ) (rest : Option (List ℕ))
    → IsWord s
    → IsWord n
    → same n (45 ∷ []) ≡ false
    → (ws : List (List ℕ)) × (words (undash (s ++ space ∷ (n ++ tail_text rest))) ≡ s ∷ n ∷ ws)
unfolding undash
undash-words s n rest hs hn e =
    elim (Bool-cases (starts_with failed (s ++ space ∷ (n ++ tail_text rest)))) [
      | inl y ↦
          let (r, f) = undashed_line s n rest hs hn e in
          let (ws, g) = two_words s n r hs hn in (ws, rw y (ap words f ∙ g))
      | inr m ↦ let (ws, g) = two_words s n rest hs hn in (ws, rw m g)
    ]

parse_line-other :
    (ss : List (List ℕ)) (l : List ℕ) (sm : List (Name × List ℕ))
    → has_status ss l ≡ false
    → parse_line ss l sm ≡ sm
unfolding parse_line
parse_line-other ss l sm h = rw h

parse_line-result :
    (ss : List (List ℕ)) (s n : List ℕ) (rest : Option (List ℕ)) (sm : List (Name × List ℕ))
    → IsReadable ss (result s n rest)
    → parse_line ss (s ++ space ∷ (n ++ tail_text rest)) sm ≡ modify (λ old. s) n sm
unfolding parse_line record_words IsReadable
parse_line-result ss s n rest sm h =
    let (hs, ws, wn, d) = h in
    let (us, g) = undash-words s n rest ws wn d in
    rw (has_status-append ss s (space ∷ (n ++ tail_text rest)) hs) (ap (λ w. record_words w sm) g)

parse_lines-results :
    (ss : List (List ℕ)) (ls : List Line) (sm : List (Name × List ℕ))
    → AllReadable ss ls
    → has_status ss [] ≡ false
    → parse_lines ss (map line_text ls ++ [] ∷ []) sm ≡ results ls sm
unfolding parse_lines line_text results AllReadable IsReadable
parse_lines-results ss [] sm h e = parse_line-other ss [] sm e
parse_lines-results ss (other l ∷ ls) sm h e =
    ap (λ m. parse_lines ss (map line_text ls ++ [] ∷ []) m) (parse_line-other ss l sm h.0)
    ∙ parse_lines-results ss ls sm h.1 e
parse_lines-results ss (result s n rest ∷ ls) sm h e =
    ap (λ m. parse_lines ss (map line_text ls ++ [] ∷ []) m) (parse_line-result ss s n rest sm h.0)
    ∙ parse_lines-results ss ls (modify (λ old. s) n sm) h.1 e

-- A log with a newline after each line, in which each line of a result begins with one of the
-- statuses, has a status and a name without spaces (the name is not a single dash) and may go on
-- behind a space, and in which no other line and not the empty text begins with a status, is read
-- as the results it was made of, in order, with the last status of a name. In the line of a failed
-- test this holds with " - " anywhere behind the name.
pub parse_log_lem :
    (ss : List (List ℕ)) (ls : List Line)
    → AllReadable ss ls
    → AllFree is_newline (map line_text ls)
    → has_status ss [] ≡ false
    → parse_log ss (lines_text (map line_text ls)) ≡ results ls []
unfolding parse_log
parse_log_lem ss ls h f e =
    ap (λ m. parse_lines ss m []) (split_lines-lines_text (map line_text ls) f)
    ∙ parse_lines-results ss ls [] h e
