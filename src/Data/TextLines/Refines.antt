-- ===== src/Data/TextLines/Refines.antt =====
-- A file read by position is the list of its lines.
use cwm.Prelude.{
  ℕ, zero, suc, ◌+◌, ◌≡◌, refl, ap, sym, ◌∙◌, ◌⊎◌, inl, inr, List, [], ◌∷◌, Option, none, some,
  ◌==◌, if◌then◌else◌, length, drop, Bool-cases, arith,
}
use mathlib.Core.Path.{subst}
use cwm.Data.{item, stop, at, Yields, done, more}
use cwm.Data.TextLines.{
  Datum, OneFile, readline, opened, decoded, read_on, file_next, one_file_lines, close, reset_file,
}

-- The lines of a text, each with its newline.
abbrev pub first_line : ℕ → List (List ℕ) → List (List ℕ)
first_line c [] = (c ∷ []) ∷ []
first_line c (l ∷ ls) = (c ∷ l) ∷ ls

abbrev pub lines_of : List ℕ → List (List ℕ)
lines_of [] = []
lines_of (c ∷ rest) = let ls = lines_of rest in if c == 10 then (c ∷ []) ∷ ls else first_line c ls

-- The items of these lines, from a number and a position on.
abbrev pub datums : (List ℕ → List ℕ) → ℕ → ℕ → List (List ℕ) → List Datum
datums text n p [] = []
datums text n p (l ∷ ls) =
    record { val = text l; line_no = n; pos = p } ∷ datums text (n + 1) (p + length l) ls

-- `text` is what the decoder makes of each of these lines.
abbrev pub AllDecode : (List ℕ → Option (List ℕ)) → (List ℕ → List ℕ) → List (List ℕ) → Type 0
AllDecode decode text [] = Unit
AllDecode decode text (l ∷ ls) = (decode l ≡ some (text l)) × AllDecode decode text ls

-- An open file stands where the position says.
abbrev pub InSync : OneFile → Option ℕ → Type 0
InSync s none = Unit
InSync s (some h) = h ≡ s.pos

opened-InSync : (s : OneFile) (o : Option ℕ) → InSync s o → opened s o ≡ s.pos
unfolding opened
opened-InSync s none h = refl
opened-InSync s (some x) h = h

lines_of-readline :
    (c : ℕ) (rest : List ℕ)
    → (b : ℕ) × (bs : List ℕ) × (readline (c ∷ rest) ≡ b ∷ bs)
      × (lines_of (c ∷ rest) ≡ (b ∷ bs) ∷ lines_of (drop (length (b ∷ bs)) (c ∷ rest)))
unfolding readline
lines_of-readline c [] = elim (Bool-cases (c == 10)) [
  | inl y ↦ (c, [], rw y, rw y)
  | inr n ↦ (c, [], rw n, rw n)
]
lines_of-readline c (d ∷ rest) = elim (Bool-cases (c == 10)) [
  | inl y ↦ (c, [], rw y, rw y)
  | inr n ↦
      let (b, bs, e, f) = lines_of-readline d rest in
      (c, b ∷ bs, rw n (ap (λ x. c ∷ x) e), rw n (ap (first_line c) f))
]

drop-nil : (b : ℕ) → drop {A = ℕ} b [] ≡ []
drop-nil zero = refl
drop-nil (suc b) = refl

drop-drop : (a b : ℕ) (xs : List ℕ) → drop b (drop a xs) ≡ drop (a + b) xs
drop-drop zero b xs = let e : b ≡ 0 + b = omega arith in ap (λ t. drop t xs) e
drop-drop (suc a) b [] = drop-nil b ∙ sym (drop-nil (suc a + b))
drop-drop (suc a) b (x ∷ xs) =
    let e : suc (a + b) ≡ suc a + b = omega arith in drop-drop a b xs ∙ ap (λ t. drop t (x ∷ xs)) e

List-cases : (xs : List ℕ) → (xs ≡ []) ⊎ ((c : ℕ) × (rest : List ℕ) × (xs ≡ c ∷ rest))
List-cases [] = inl refl
List-cases (c ∷ rest) = inr (c, rest, refl)

module _ (decode : List ℕ → Option (List ℕ)) (content : List ℕ) where
  next_lem :
      (s : OneFile)
      → InSync s s.file
      → file_next decode content s ≡ read_on decode content s s.pos (readline (drop s.pos content))
  unfolding file_next
  next_lem s h =
      ap (λ x. read_on decode content s x (readline (drop x content))) (opened-InSync s s.file h)

  at_end :
      (s : OneFile)
      → InSync s s.file
      → drop s.pos content ≡ []
      → file_next decode content s ≡ (stop, record s { file = some s.pos })
  unfolding read_on readline
  at_end s h e = next_lem s h ∙ ap (λ xs. read_on decode content s s.pos (readline xs)) e

  module _ (text : List ℕ → List ℕ) where
    at_line :
        (s : OneFile) (c : ℕ) (rest : List ℕ) (b : ℕ) (bs : List ℕ)
        → InSync s s.file
        → drop s.pos content ≡ c ∷ rest
        → readline (c ∷ rest) ≡ b ∷ bs
        → decode (b ∷ bs) ≡ some (text (b ∷ bs))
        → file_next decode content s ≡ (
          item (record { val = text (b ∷ bs); line_no = s.line_no; pos = s.pos }),
          record {
            file = some (s.pos + length (b ∷ bs));
            pos = s.pos + length (b ∷ bs);
            line_no = s.line_no + 1;
          },
        )
    unfolding read_on decoded
    at_line s c rest b bs h e f d =
        next_lem s h
        ∙ ap (λ xs. read_on decode content s s.pos xs) (ap readline e ∙ f)
        ∙ ap
            (λ t. (
              decoded s.line_no s.pos t,
              record {
                file = some (s.pos + length (b ∷ bs));
                pos = s.pos + length (b ∷ bs);
                line_no = s.line_no + 1;
              },
            ))
            d

    Yields-rest :
        (ls : List (List ℕ)) (s : OneFile)
        → InSync s s.file
        → lines_of (drop s.pos content) ≡ ls
        → AllDecode decode text ls
        → Yields (one_file_lines decode content) s (datums text s.line_no s.pos ls)
    unfolding one_file_lines
    Yields-rest [] s h q d = elim (List-cases (drop s.pos content)) [
      | inl e ↦ done s (
          at s (record s { file = some s.pos }) (at_end s h e)
            (at_end (record s { file = some s.pos }) refl e))
      | inr (c, rest, e) ↦
          let (b, bs, _, f) = lines_of-readline c rest in
          let z = sym q ∙ ap lines_of e ∙ f in absurd (cc z)
    ]
    Yields-rest (l ∷ ls) s h q (d, ds) = elim (List-cases (drop s.pos content)) [
      | inl e ↦ let z = sym q ∙ ap lines_of e in absurd (cc z)
      | inr (c, rest, e) ↦
          let (b, bs, r, f) = lines_of-readline c rest in
          let z = sym q ∙ ap lines_of e ∙ f in
          let n = length (b ∷ bs) in
          let s₁ : OneFile = record {
            file = some (s.pos + n);
            pos = s.pos + n;
            line_no = s.line_no + 1;
          } in
          let t : lines_of (drop n (c ∷ rest)) ≡ ls = cc in
          let p = ap lines_of (sym (drop-drop s.pos n content) ∙ ap (drop n) e) ∙ t in
          let i : b ∷ bs ≡ l = cc in
          subst
            (λ x. Yields (one_file_lines decode content) s (datums text s.line_no s.pos (x ∷ ls))) i
            (more s s₁ _ _
              (at_line s c rest b bs h e r (subst (λ x. decode x ≡ some (text x)) (sym i) d))
              (Yields-rest ls s₁ refl p ds))
    ]

    -- Of a file whose lines all decode, also those cut off by the position of the object, an object
    -- whose open file, if it is open, stands at its position yields the lines behind that position,
    -- each with its number and position. So does every object that loads its saved state, whatever
    -- it did before. After a reset it yields all lines of the file.
    pub one_file_lines_lem :
        (s t : OneFile)
        → InSync s s.file
        → AllDecode decode text (lines_of content)
        → AllDecode decode text (lines_of (drop s.pos content))
        → Yields
            (one_file_lines decode content)
            s
            (datums text s.line_no s.pos (lines_of (drop s.pos content)))
          × ((r : OneFile) × ((one_file_lines decode content).load_state_dict
                  ((one_file_lines decode content).state_dict s)
                  t
                ≡ some r)
              × Yields
                  (one_file_lines decode content)
                  r
                  (datums text s.line_no s.pos (lines_of (drop s.pos content))))
          × Yields
              (one_file_lines decode content)
              ((one_file_lines decode content).reset t)
              (datums text 0 0 (lines_of content))
    unfolding one_file_lines close reset_file
    one_file_lines_lem s t h a d = (
      Yields-rest (lines_of (drop s.pos content)) s h refl d,
      (record { file = none; pos = s.pos; line_no = s.line_no }, refl, Yields-rest _ _ tt refl d),
      Yields-rest (lines_of content) (record { file = none; pos = 0; line_no = 0 }) tt refl a,
    )
