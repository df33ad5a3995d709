-- ===== src/Data/TextLines.antt =====
-- cwm/text/data/srcs/text_file_lines.py, the class OneFileLines: a file as a dataset of its lines.
-- The file is its bytes, after decompression; `bytes.decode` is a parameter, `none` where it raises.
pub mod Refines
mod Tests
use cwm.Prelude.{
  ℕ, zero, suc, ◌+◌, List, [], ◌∷◌, Option, none, some, ◌==◌, if◌then◌else◌, length, drop,
}
use cwm.Data.{Outcome, item, stop, fault, Dataset}

-- StrDatum with its source: the text, the number of the line and its place in the file.
pub record Datum : Type 0 where
  pub val : List ℕ
  pub line_no : ℕ
  pub pos : ℕ

-- `file` is the position of the open file.
pub record OneFile : Type 0 where
  pub file : Option ℕ
  pub pos : ℕ
  pub line_no : ℕ

-- `file.readline()`: the bytes up to a newline and with it; nothing at the end of the file.
unfoldable pub readline : List ℕ → List ℕ
readline [] = []
readline (c ∷ rest) = let more = readline rest in if c == 10 then c ∷ [] else c ∷ more

-- `_close` and `reset`.
close : OneFile → OneFile
close s = record s { file = none }

unfoldable pub reset_file : OneFile → OneFile
unfolding close
reset_file s = record (close s) { pos = 0; line_no = 0 }

-- The file is opened at `pos` if it is closed.
opened : OneFile → Option ℕ → ℕ
opened s none = s.pos
opened s (some at) = at

decoded : ℕ → ℕ → Option (List ℕ) → Outcome Datum
decoded line_no pos none = fault
decoded line_no pos (some text) = item (record { val = text; line_no = line_no; pos = pos })

module _ (decode : List ℕ → Option (List ℕ)) (content : List ℕ) where
  -- What is done with the bytes that were read, for a file open at `at`.
  read_on : OneFile → ℕ → List ℕ → Outcome Datum × OneFile
  unfolding decoded
  read_on s at [] = (stop, record s { file = some at })
  read_on s at (b ∷ bytes) = (
    decoded s.line_no s.pos (decode (b ∷ bytes)),
    record {
      file = some (at + length (b ∷ bytes));
      pos = s.pos + length (b ∷ bytes);
      line_no = s.line_no + 1;
    },
  )

  file_next : OneFile → Outcome Datum × OneFile
  unfolding read_on opened
  file_next s = let at = opened s s.file in read_on s at (readline (drop at content))

  unfoldable pub one_file_lines : Dataset OneFile (ℕ × ℕ) Datum
  unfolding file_next close
  one_file_lines = record {
    next = file_next;
    reset = reset_file;
    state_dict = λ s. (s.line_no, s.pos);
    load_state_dict = λ (line_no, pos) s. some (close (record s { line_no = line_no; pos = pos }));
  }
