-- ===== src/Swerl/Tools/Calls.antt =====
-- When an answer has a tool call, and when a patch is submitted.
use mathlib.Core.Option.{some-injective}
use cwm.Prelude.{
  ◌≡◌, refl, sym, ap, ◌∙◌, ◌↔◌, Bool, true, false, ◌||◌, not, List, [], ◌∷◌, ◌++◌, Option, none,
  some, ◌==◌, ltb, length, Bool-cases, inl, inr, arith,
}
use cwm.Prelude.Text.{codes, same, starts_with}
use cwm.Dialog.Tokenizer.{Text, strip}
use cwm.Swerl.Tools.{
  Parsed, refused, calls, count, parse_found, parse_tool_calls, check_calls, ToolCallResult,
  BashResult, succeeded, submit_diff_result, submit_diff_file, on_result,
}

-- One call is found, between one opening and one closing tag, and its input is not blank.
pub record IsCall (found : List (Text × Text)) (raw_output name input : Text) : Type 0 where
  pub raw_name : Text
  pub one_found : found ≡ (raw_name, input) ∷ []
  pub stripped : strip raw_name ≡ name
  pub one_opening : count (codes "<tool:") 0 raw_output ≡ 1
  pub one_closing : count (codes "</tool>") 0 raw_output ≡ 1
  pub has_input : same (strip input) [] ≡ false

IsCall-parse_found :
    (found : List (Text × Text)) (raw name input : Text)
    → IsCall found raw name input
    → parse_found found raw ≡ calls ((name, input) ∷ [])
unfolding parse_found check_calls
IsCall-parse_found found raw name input c =
    rw (c.one_found, c.one_opening, c.one_closing, c.has_input, c.stripped)

calls_of : Parsed → List (Text × Text)
calls_of (refused e) = []
calls_of (calls cs) = cs

is_refused : Parsed → Bool
is_refused (refused e) = true
is_refused (calls cs) = false

not_refused : (p : Parsed) (cs : List (Text × Text)) → p ≡ calls cs → is_refused p ≡ false
unfolding is_refused
not_refused p cs h = ap is_refused h

parse_found-one :
    (n i raw : Text) (cs : List (Text × Text))
    → parse_found ((n, i) ∷ []) raw ≡ calls cs
    → (not (1 == count (codes "<tool:") 0 raw) || not (1 == count (codes "</tool>") 0 raw)) ≡ false
    → same (strip i) [] ≡ false
    → (cs ≡ (strip n, i) ∷ []) × IsCall ((n, i) ∷ []) raw (strip n) i
unfolding parse_found check_calls calls_of
parse_found-one n i raw cs h e f =
    let z : parse_found ((n, i) ∷ []) raw ≡ calls ((strip n, i) ∷ []) = rw (e, f) in
    (
      ap calls_of (sym h ∙ z),
      record {
        raw_name = n;
        one_found = refl;
        stripped = refl;
        one_opening = ground (arith, e);
        one_closing = ground (arith, e);
        has_input = f;
      },
    )

parse_found-IsCall :
    (found : List (Text × Text)) (raw : Text) (cs : List (Text × Text))
    → parse_found found raw ≡ calls cs
    → (name : Text) × (input : Text) × (cs ≡ (name, input) ∷ []) × IsCall found raw name input
unfolding parse_found check_calls is_refused
parse_found-IsCall [] raw cs h =
    elim (Bool-cases
      (not (0 == count (codes "<tool:") 0 raw) || not (0 == count (codes "</tool>") 0 raw))) [
        | inl e ↦
            let z : is_refused (parse_found [] raw) ≡ true = rw e in
            absurd (cc (z, not_refused (parse_found [] raw) cs h))
        | inr e ↦
            let z : is_refused (parse_found [] raw) ≡ true = rw e in
            absurd (cc (z, not_refused (parse_found [] raw) cs h))
      ]
parse_found-IsCall ((n, i) ∷ []) raw cs h =
    elim (Bool-cases
      (not (1 == count (codes "<tool:") 0 raw) || not (1 == count (codes "</tool>") 0 raw))) [
        | inl e ↦
            let z : is_refused (parse_found ((n, i) ∷ []) raw) ≡ true = rw e in
            absurd (cc (z, not_refused (parse_found ((n, i) ∷ []) raw) cs h))
        | inr e ↦ elim (Bool-cases (same (strip i) [])) [
          | inl f ↦
              let z : is_refused (parse_found ((n, i) ∷ []) raw) ≡ true = rw (e, f) in
              absurd (cc (z, not_refused (parse_found ((n, i) ∷ []) raw) cs h))
          | inr f ↦ let (q, c) = parse_found-one n i raw cs h e f in (strip n, i, q, c)
        ]
      ]
parse_found-IsCall (c ∷ d ∷ found) raw cs h =
    let z : ltb 1 (length (c ∷ d ∷ found)) ≡ true = ground arith in
    let y : is_refused (parse_found (c ∷ d ∷ found) raw) ≡ true = rw z in
    absurd (cc (y, not_refused (parse_found (c ∷ d ∷ found) raw) cs h))

-- An answer has the calls cs exactly if cs is one call with the stripped name and the input of the
-- only match, the answer has one opening and one closing tag, and the input is not blank; every
-- other answer is refused.
pub parse_tool_calls_lem :
    (findall : Text → List (Text × Text)) (raw : Text) (cs : List (Text × Text))
    → (parse_tool_calls findall raw ≡ calls cs) ↔ (
        (name : Text) × (input : Text) × (cs ≡ (name, input) ∷ [])
        × IsCall (findall raw) raw name input)
unfolding parse_tool_calls
parse_tool_calls_lem findall raw cs = (
  parse_found-IsCall (findall raw) raw cs,
  λ (name, input, q, c). IsCall-parse_found (findall raw) raw name input c ∙ ap calls (sym q),
)

submit_diff_result_lem :
    (path : Text) (r : BashResult)
    → (submit_diff_result path r).success ≡ true
    → (succeeded r ≡ true)
      × (same (strip r.output) [] ≡ false)
      × (starts_with (codes "diff") r.output ≡ true)
      × ((submit_diff_result path r).output ≡ r.output)
unfolding submit_diff_result
submit_diff_result_lem path r h = elim (Bool-cases (succeeded r)) [
  | inr e ↦ let z : (submit_diff_result path r).success ≡ false = rw e in cc
  | inl e ↦ elim (Bool-cases (same (strip r.output) [])) [
    | inl f ↦ let z : (submit_diff_result path r).success ≡ false = rw (e, f) in cc
    | inr f ↦ elim (Bool-cases (starts_with (codes "diff") r.output)) [
      | inl g ↦ (e, f, g, rw (e, f, g))
      | inr g ↦ let z : (submit_diff_result path r).success ≡ false = rw (e, f, g) in cc
    ]
  ]
]

on_result-some :
    {Backend : Type 0} (f : BashResult → ToolCallResult) (x : Backend × Option BashResult)
    (r : ToolCallResult)
    → (on_result f x).1 ≡ some r
    → (out : BashResult) × (x.1 ≡ some out) × (f out ≡ r)
unfolding on_result
on_result-some f (b, none) r h = cc
on_result-some f (b, some out) r h = (out, refl, some-injective (f out) r h)

-- A submission that succeeds hands in exactly what the command `cat` printed without an error, and
-- that is not blank and begins with "diff".
pub submit_diff_file_lem :
    {Backend : Type 0} (run_bash : Backend → Text → Backend × Option BashResult) (b : Backend)
    (command : Text) (r : ToolCallResult)
    → (submit_diff_file run_bash b command).1 ≡ some r
    → r.success ≡ true
    → (out : BashResult) × ((run_bash b (codes "cat " ++ strip command)).1 ≡ some out)
      × (succeeded out ≡ true)
      × (same (strip r.output) [] ≡ false)
      × (starts_with (codes "diff") r.output ≡ true)
      × (r.output ≡ out.output)
unfolding submit_diff_file on_result
submit_diff_file_lem run_bash b command r h k =
    let path = strip command in
    let (out, e, f) =
      on_result-some (submit_diff_result path) (run_bash b (codes "cat " ++ path)) r h in
    let (y, n, d, o) = submit_diff_result_lem path out (ap (λ t. t.success) f ∙ k) in
    let q = ap (λ t. t.output) f in
    let p = sym q ∙ o in
    (out, e, y, ap (λ t. same (strip t) []) p ∙ n, ap (starts_with (codes "diff")) p ∙ d, p)
