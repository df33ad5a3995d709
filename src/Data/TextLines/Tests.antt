-- ===== src/Data/TextLines/Tests.antt =====
-- A file of two lines, the last one without a newline.
use cwm.Prelude.{ℕ, ◌≡◌, refl, List, [], ◌∷◌, ◌++◌, Option, none, some, ltb, if◌then◌else◌, drop}
use mathlib.Core.Option
use cwm.Prelude.Text.{codes}
use cwm.Data.{item, Yields}
use cwm.Data.TextLines.{OneFile, one_file_lines, readline}
use cwm.Data.TextLines.Refines.{lines_of, AllDecode, one_file_lines_lem}

abbrev two_lines : List ℕ
two_lines = codes "ab\nc"

-- Behind the first line, with the file open.
abbrev half_way : OneFile
half_way = record { file = some 3; pos = 3; line_no = 1 }

abbrev fresh : OneFile
fresh = record { file = none; pos = 0; line_no = 0 }

abbrev keep : List ℕ → List ℕ
keep l = l

-- A decoder that fails on the bytes that are not ASCII.
ascii : List ℕ → Option (List ℕ)
ascii [] = some []
ascii (b ∷ bs) = let rest = ascii bs in if ltb b 128 then Option.map (λ t. b ∷ t) rest else none

fails_run : ascii (codes "a" ++ 200 ∷ []) ≡ none
unfolding ascii
fails_run = refl

all_ascii : AllDecode ascii keep (lines_of two_lines)
unfolding ascii
all_ascii = (refl, (refl, tt))

last_ascii : AllDecode ascii keep (lines_of (drop 3 two_lines))
unfolding ascii
last_ascii = (refl, tt)

one_file_lines_lem_example :
    Yields
      (one_file_lines ascii two_lines)
      half_way
      (record { val = codes "c"; line_no = 1; pos = 3 } ∷ [])
    × ((r : OneFile) × ((one_file_lines ascii two_lines).load_state_dict
            ((one_file_lines ascii two_lines).state_dict half_way)
            fresh
          ≡ some r)
        × Yields
            (one_file_lines ascii two_lines)
            r
            (record { val = codes "c"; line_no = 1; pos = 3 } ∷ []))
    × Yields (one_file_lines ascii two_lines) ((one_file_lines ascii two_lines).reset fresh) (
        record { val = codes "ab\n"; line_no = 0; pos = 0 }
        ∷ record { val = codes "c"; line_no = 1; pos = 3 }
        ∷ [])
one_file_lines_lem_example =
    one_file_lines_lem ascii two_lines keep half_way fresh refl all_ascii last_ascii

first_item : (one_file_lines some two_lines).next fresh ≡ (
  item (record { val = codes "ab\n"; line_no = 0; pos = 0 }),
  record { file = some 3; pos = 3; line_no = 1 },
)
unfolding one_file_lines readline
first_item = refl
