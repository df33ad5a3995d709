-- ===== src/Fastgen/Trim/Cut.antt =====
-- Where `_trim_packet` cuts an answer.
use mathlib.Core.Option
use mathlib.Core.Path.{subst}
use mathlib.Core.Option.{some-injective}
use cwm.Prelude.{
  ◌⊎◌, sym, ◌∙◌, ℕ, zero, suc, ◌+◌, ◌-◌, ◌≤◌, ◌<◌, ◌≡◌, refl, true, false, List, [], ◌∷◌, Option,
  none, some, arith, ◌==◌, if◌then◌else◌, length, take, get_elem?, Bool-cases, Option-cases, ap,
  inl, inr,
}
use Prim.Native.Nat.{min}
use cwm.Prelude.Text.{occurs}
use cwm.Fastgen.BlockSet.{count, one}
use cwm.Fastgen.Lane.{Lane}
use cwm.Fastgen.State.{Config, ok}
use cwm.Fastgen.Trim.{
  index_from, cut_at, cut_stop_tokens, cut_max_gen, present, cut_stop_str, trim_length, cut_packet,
  trim_packet,
}
use cwm.Fastgen.Trim.Search.{search_cut_lem}

-- A token from place `n` on is found there or before.
index_from-le :
    (st : ℕ) (xs : List ℕ) (n j : ℕ)
    → get_elem? xs j ≡ some st
    → n ≤ j
    → (i : ℕ) × (index_from st xs n ≡ some i) × (i ≤ j)
unfolding index_from
index_from-le st [] n j e h = cc
index_from-le st (x ∷ xs) zero zero e h = (0, ground arith, omega arith)
index_from-le st (x ∷ xs) (suc n) zero e h = absurd (omega arith)
index_from-le st (x ∷ xs) zero (suc j) e h = elim (Bool-cases (x == st)) [
  | inl here ↦ (0, rw here, omega arith)
  | inr later ↦
      let (i, f, le) = index_from-le st xs zero j e (omega arith) in
      (suc i, rw (later, f), omega arith)
]
index_from-le st (x ∷ xs) (suc n) (suc j) e h =
    let (i, f, le) = index_from-le st xs n j e (omega arith) in (suc i, rw f, omega arith)

cut_stop_tokens-le : (sts tokens : List ℕ) (n trim : ℕ) → cut_stop_tokens sts tokens n trim ≤ trim
unfolding cut_stop_tokens
cut_stop_tokens-le [] tokens n trim = omega arith
cut_stop_tokens-le (st ∷ sts) tokens n trim =
    ground (arith, cut_stop_tokens-le sts tokens n (cut_at trim (index_from st tokens n)))

cut_at-le : (trim : ℕ) (o : Option ℕ) (i j : ℕ) → o ≡ some i → i ≤ j → cut_at trim o ≤ j + 1
unfolding cut_at
cut_at-le trim none i j e h = cc
cut_at-le trim (some k) i j e h = let q = some-injective e in ground arith

one-other : (x st : ℕ) → (x == st) ≡ false → one (x == st) ≡ 0
one-other x st e = rw e

==_true : (a b : ℕ) → a ≡ b → (a == b) ≡ true
==_true a b e = ground arith

-- No cut lies behind a stop token of the part that is looked at.
cut_at_stop :
    (st : ℕ) (sts tokens : List ℕ) (n trim j : ℕ)
    → 0 < count st sts
    → get_elem? tokens j ≡ some st
    → n ≤ j
    → cut_stop_tokens sts tokens n trim ≤ j + 1
unfolding cut_stop_tokens count
cut_at_stop st [] tokens n trim j m e h = elim m [ ]
cut_at_stop st (x ∷ sts) tokens n trim j m e h = elim (Bool-cases (x == st)) [
  | inl same ↦
      let (i, f, le) = index_from-le st tokens n j e h in
      let q : x ≡ st = ground (arith, same) in
      let f' : index_from x tokens n ≡ some i = cc in
      let b = cut_stop_tokens-le sts tokens n (cut_at trim (index_from x tokens n)) in
      let c : cut_at trim (index_from x tokens n) ≤ j + 1 =
        cut_at-le trim (index_from x tokens n) i j f' le in
      omega arith
  | inr other ↦
      cut_at_stop st sts tokens n (cut_at trim (index_from x tokens n)) j
        (omega (arith, one-other x st other)) e h
]

-- Where the loop over the stop tokens ends: at the beginning, or behind a stop token.
abbrev Reached : List ℕ → List ℕ → ℕ → ℕ → ℕ → Type 0
Reached sts tokens n trim s =
    (s ≡ trim)
    ⊎ ((st : ℕ) × (j : ℕ) × (0 < count st sts)
        × (get_elem? tokens j ≡ some st)
        × (n ≤ j)
        × (s ≡ j + 1))

min_cases : (a b : ℕ) → (min a b ≡ a) ⊎ (min a b ≡ b)
min_cases a b = ground arith

behind-some :
    (st x : ℕ) (xs : List ℕ) (m n i : ℕ)
    → ((k : ℕ) → index_from st xs m ≡ some k → (get_elem? xs k ≡ some st) × (m ≤ k))
    → n ≤ suc m
    → Option.map suc (index_from st xs m) ≡ some i
    → (get_elem? (x ∷ xs) i ≡ some st) × (n ≤ i)
behind-some st x xs m n i f h e = elim (Option-cases (index_from st xs m)) [
  | inl a ↦ let z : none ≡ some i = sym (ap (Option.map suc) a) ∙ e in cc
  | inr (k, q) ↦
      let z : suc k ≡ i = some-injective (suc k) i (sym (ap (Option.map suc) q) ∙ e) in
      let (g, l) = f k q in
      subst (λ j. (get_elem? (x ∷ xs) j ≡ some st) × (n ≤ j)) z (g, omega (arith, l, h))
]

index_from-some :
    (st : ℕ) (xs : List ℕ) (n i : ℕ)
    → index_from st xs n ≡ some i
    → (get_elem? xs i ≡ some st) × (n ≤ i)
unfolding index_from
index_from-some st [] n i e = cc
index_from-some st (x ∷ xs) zero i e = elim (Bool-cases (x == st)) [
  | inl here ↦
      let z : 0 ≡ i = some-injective 0 i (sym (rw here) ∙ e) in
      let q : x ≡ st = ground (arith, here) in
      subst (λ k. (get_elem? (x ∷ xs) k ≡ some st) × (0 ≤ k)) z (ap (λ y. some y) q, omega arith)
  | inr later ↦
      behind-some st x xs zero 0 i (index_from-some st xs zero) (omega arith) (sym (rw later) ∙ e)
]
index_from-some st (x ∷ xs) (suc n) i e =
    behind-some st x xs n (suc n) i (index_from-some st xs n) (omega arith) e

cut_at-Reached :
    (st : ℕ) (sts tokens : List ℕ) (n trim : ℕ)
    → Reached (st ∷ sts) tokens n trim (cut_at trim (index_from st tokens n))
unfolding cut_at count
cut_at-Reached st sts tokens n trim = elim (Option-cases (index_from st tokens n)) [
  | inl a ↦ inl (ap (cut_at trim) a)
  | inr (i, q) ↦
      let (g, l) = index_from-some st tokens n i q in
      let here : 0 < count st (st ∷ sts) = ground arith in
      elim (min_cases trim (i + 1)) [
        | inl e ↦ inl (ap (cut_at trim) q ∙ e)
        | inr e ↦ inr (st, i, here, g, l, ap (cut_at trim) q ∙ e)
      ]
]

Reached-more :
    (st : ℕ) (sts tokens : List ℕ) (n trim t : ℕ) {s : ℕ}
    → Reached (st ∷ sts) tokens n trim t
    → Reached sts tokens n t s
    → Reached (st ∷ sts) tokens n trim s
unfolding count
Reached-more st sts tokens n trim t {s} h (inl e) =
    subst (Reached (st ∷ sts) tokens n trim) (sym e) h
Reached-more st sts tokens n trim t h (inr (x, j, m, g, l, e)) =
    inr (x, j, ground (arith, m), g, l, e)

cut_stop_tokens-Reached :
    (sts tokens : List ℕ) (n trim : ℕ)
    → Reached sts tokens n trim (cut_stop_tokens sts tokens n trim)
unfolding cut_stop_tokens
cut_stop_tokens-Reached [] tokens n trim = inl refl
cut_stop_tokens-Reached (st ∷ sts) tokens n trim =
    Reached-more st sts tokens n trim _ (cut_at-Reached st sts tokens n trim)
      (cut_stop_tokens-Reached sts tokens n (cut_at trim (index_from st tokens n)))

-- The stop tokens and the budget alone.
abbrev pub stopped_at : Config → {S : Type 0} → Lane S → ℕ
stopped_at cfg l = cut_max_gen l.max_gen (
    cut_stop_tokens cfg.stop_tokens l.tokens (length l.tokens - cfg.sync_freq - 1)
      (length l.tokens))

cut_max_gen-le : (b : Option ℕ) (n : ℕ) → cut_max_gen b n ≤ n
unfolding cut_max_gen
cut_max_gen-le none n = omega arith
cut_max_gen-le (some k) n = ground arith

cut_max_gen-budget : (b : Option ℕ) (n k : ℕ) → b ≡ some k → cut_max_gen b n ≤ k
unfolding cut_max_gen
cut_max_gen-budget none n k e = cc
cut_max_gen-budget (some m) n k e = let q = some-injective e in ground arith

cut_max_gen-cases : (b : Option ℕ) (n : ℕ) → (cut_max_gen b n ≡ n) ⊎ (b ≡ some (cut_max_gen b n))
unfolding cut_max_gen
cut_max_gen-cases none n = inl refl
cut_max_gen-cases (some k) n = elim (min_cases n k) [
  | inl e ↦ inl e
  | inr e ↦ inr (ap (λ x. some x) (sym e))
]

-- The cut that needs no text, after `s` tokens: the first place where the answer ends, a stop token
-- of the last call has been given, or the budget is used up.
pub record IsStop (cfg : Config) {S : Type 0} (l : Lane S) (s : ℕ) : Type 0 where
  pub short : s ≤ length l.tokens
  pub budget : (k : ℕ) → l.max_gen ≡ some k → s ≤ k
  pub stop :
      (st j : ℕ)
      → 0 < count st cfg.stop_tokens
      → get_elem? l.tokens j ≡ some st
      → length l.tokens - cfg.sync_freq - 1 ≤ j
      → s ≤ j + 1
  pub reached :
      (l.max_gen ≡ some s)
      ⊎ Reached cfg.stop_tokens l.tokens (length l.tokens - cfg.sync_freq - 1) (length l.tokens) s

-- Where the text cuts, for the cut `s` that needs no text: at `s` if the stop string is not in the
-- text up to there, else where the stop string is complete.
abbrev pub AtText : (List ℕ → List ℕ) → {S : Type 0} → Lane S → List ℕ → ℕ → ℕ → Type 0
AtText decode l w s n =
    (present decode w l.tokens s ≡ false × n ≡ s)
    ⊎ ((k : ℕ) × (k + 1 ≡ n)
        × (n ≤ s)
        × (present decode w l.tokens s ≡ true)
        × (present decode w l.tokens n ≡ true)
        × (present decode w l.tokens k ≡ false))

-- What a cut of the lane's answer at `n` tokens is, for the cut `s` that needs no text.
pub record IsCut (cfg : Config) (decode : List ℕ → List ℕ) {S : Type 0} (l : Lane S) (s n : ℕ)
    : Type 0 where
  pub stopped : IsStop cfg l s
  pub text : (w : List ℕ) → l.stop_str ≡ some w → AtText decode l w s n
  pub plain : l.stop_str ≡ none → n ≡ s

module _ (cfg : Config) (decode : List ℕ → List ℕ) {S : Type 0} (l : Lane S) where
  stopped_at-stop :
      (st j : ℕ)
      → 0 < count st cfg.stop_tokens
      → get_elem? l.tokens j ≡ some st
      → length l.tokens - cfg.sync_freq - 1 ≤ j
      → stopped_at cfg l ≤ j + 1
  stopped_at-stop st j m e h =
      let n = length l.tokens - cfg.sync_freq - 1 in
      let c = cut_at_stop st cfg.stop_tokens l.tokens n (length l.tokens) j m e h in
      let b =
        cut_max_gen-le l.max_gen (cut_stop_tokens cfg.stop_tokens l.tokens n (length l.tokens)) in
      omega arith

  stopped_at-IsStop : IsStop cfg l (stopped_at cfg l)
  stopped_at-IsStop =
      let n = length l.tokens - cfg.sync_freq - 1 in
      let t = cut_stop_tokens cfg.stop_tokens l.tokens n (length l.tokens) in
      let c = cut_stop_tokens-le cfg.stop_tokens l.tokens n (length l.tokens) in
      let b = cut_max_gen-le l.max_gen t in
      record {
        short = omega arith;
        budget = λ k e. cut_max_gen-budget l.max_gen t k e;
        stop = stopped_at-stop;
        reached = elim (cut_max_gen-cases l.max_gen t) [
          | inl e ↦ inr (
              subst (Reached cfg.stop_tokens l.tokens n (length l.tokens)) (sym e)
                (cut_stop_tokens-Reached cfg.stop_tokens l.tokens n (length l.tokens)))
          | inr e ↦ inl e
        ];
      }

  positive :
      (w : List ℕ) (t : ℕ)
      → occurs w (decode []) ≡ false
      → present decode w l.tokens t ≡ true
      → 0 < t
  positive w zero a y = cc
  positive w (suc t) a y = omega arith

  AtText-found :
      (w : List ℕ) (s : ℕ)
      → occurs w (decode []) ≡ false
      → present decode w l.tokens s ≡ true
      → (n : ℕ) × (cut_stop_str decode (some w) l.tokens s ≡ ok n) × AtText decode l w s n
  unfolding cut_stop_str
  AtText-found w s a y =
      let (f, t, e, r) =
        search_cut_lem (suc s) (present decode w l.tokens) 0 s (positive w s a y) (omega arith) a
          y in
      (t, rw (y, e, ==_true (f + 1) t r.next), inr (f, r.next, r.upto, y, r.yes_at, r.no_before))

  AtText-cut :
      (w : List ℕ) (s : ℕ)
      → occurs w (decode []) ≡ false
      → (n : ℕ) × (cut_stop_str decode (some w) l.tokens s ≡ ok n) × AtText decode l w s n
  unfolding cut_stop_str
  AtText-cut w s a = elim (Bool-cases (present decode w l.tokens s)) [
    | inl here ↦ AtText-found w s a here
    | inr absent ↦ (s, rw absent, inl (absent, refl))
  ]

  cut_stop_str_lem :
      (o : Option (List ℕ)) (s : ℕ)
      → l.stop_str ≡ o
      → IsStop cfg l s
      → ((w : List ℕ) → o ≡ some w → occurs w (decode []) ≡ false)
      → (n : ℕ) × (cut_stop_str decode o l.tokens s ≡ ok n) × IsCut cfg decode l s n
  unfolding cut_stop_str
  cut_stop_str_lem none s q i a = (
    s,
    refl,
    record {
      stopped = i;
      text = λ w e. let z : none ≡ some w = sym q ∙ e in cc;
      plain = λ e. refl;
    },
  )
  cut_stop_str_lem (some w) s q i a =
      let (n, e, c) = AtText-cut w s (a w refl) in
      (
        n,
        e,
        record {
          stopped = i;
          text = λ v p. subst (λ u. AtText decode l u s n) (some-injective w v (sym q ∙ p)) c;
          plain = λ p. let z : some w ≡ none = sym q ∙ p in cc;
        },
      )

  -- If the empty text does not hold the stop string, `_trim_packet` fails no assertion, and it cuts
  -- the tokens and their log probabilities at one place `n`. There is a place `s` that the tokens
  -- and the budget give: the end of the answer, the token budget, or the place just behind a stop
  -- token of the last call, and none of these is before it. If there is no stop string or it is not
  -- in the text up to `s`, the cut is at `s`; else it is at or before `s`, the stop string is in
  -- the text up to the cut, and it is not in the text that is one token shorter.
  pub trim_packet_lem :
      ((w : List ℕ) → l.stop_str ≡ some w → occurs w (decode []) ≡ false)
      → (n : ℕ) × (s : ℕ) × (trim_packet cfg decode l
          ≡ ok (record l {
            tokens = take n l.tokens;
            sample_logprobs = Option.map (take n) l.sample_logprobs;
            logprobs =
                Option.map
                  (take (if cfg.gen_prompt_logprobs then length l.prompt - 1 + n else n))
                  l.logprobs;
          }))
        × IsCut cfg decode l s n
  unfolding trim_packet trim_length cut_packet
  trim_packet_lem a =
      let (n, e, c) = cut_stop_str_lem l.stop_str (stopped_at cfg l) refl stopped_at-IsStop a in
      (n, stopped_at cfg l, rw e, c)
