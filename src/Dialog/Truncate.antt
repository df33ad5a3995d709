-- ===== src/Dialog/Truncate.antt =====
-- cwm/rl/envs/utils/dialogs.py: a message is shortened to a number of tokens. `tokens[-n:]` and
-- `tokens[:n]` are written out for a negative n, which the source does not keep away.
mod Tests
use cwm.Prelude.{
  ℕ, zero, suc, ◌+◌, ◌-◌, ◌≤◌, ◌<◌, ◌≡◌, refl, ap, ◌∙◌, ◌⊎◌, Bool, true, false, List, [], ◌∷◌, ◌++◌,
  Option, none, some, ltb, inl, inr, if◌then◌else◌, length, take, drop, length-append, length-take,
  length-drop, Bool-cases, either_way, arith, lt→ltb, take-append-drop,
}
use Prim.Native.Nat.{min}
use native.Mathlib.Decide.{dec_lt}
use cwm.Dialog.Tokenizer.{
  Text, Encoding, Message, encode, decode, encode_message, encode_body, encode_message_header,
}

pub data Side : Type 0 where
  left right : Side

-- `max_tokens - non_body_len - len(abbrev_tokens)` is `plus - minus`.
keep_last : ℕ → ℕ → List ℕ → List ℕ
keep_last plus minus tokens =
    if ltb minus plus
    then drop (length tokens - (plus - minus)) tokens
    else drop (minus - plus) tokens

keep_first : ℕ → ℕ → List ℕ → List ℕ
keep_first plus minus tokens =
    if ltb plus minus
    then take (length tokens - (minus - plus)) tokens
    else take (plus - minus) tokens

shorten : Side → ℕ → ℕ → List ℕ → List ℕ → List ℕ
unfolding keep_last keep_first
shorten left plus minus abbrev_tokens body = abbrev_tokens ++ keep_last plus minus body
shorten right plus minus abbrev_tokens body = keep_first plus minus body ++ abbrev_tokens

module _ (en : Encoding) (max_tokens : ℕ) (abbrev_tokens : List ℕ) (side : Side) where
  -- The new tokens of the body, for the tokens of the whole message.
  unfoldable pub new_tokens : ℕ → List ℕ → List ℕ
  unfolding shorten
  new_tokens total body =
      shorten side (max_tokens + length body) (total + length abbrev_tokens) abbrev_tokens body

  shorten_body : Message → ℕ → Option Text → Option Message
  shorten_body m total none = none
  shorten_body m total (some body) =
      some
        (record m { body = some (decode en (new_tokens total (encode en body false false)) true) })

  -- `maybe_truncate_message` with `add_end_token=True`; `none` is a message without a body, which
  -- `encode` refuses.
  unfoldable pub maybe_truncate_message : Message → Option Message
  unfolding shorten_body
  maybe_truncate_message m =
      let total = length (encode_message en m true) in
      if ltb max_tokens total then shorten_body m total m.body else some m

module _ (en : Encoding) (max_tokens : ℕ) (abbrev_tokens : List ℕ) (side : Side) where
  -- A message with a body stays a message.
  pub maybe_truncate_message-some :
      (m : Message) (text : Text)
      → m.body ≡ some text
      → (m' : Message) × (maybe_truncate_message en max_tokens abbrev_tokens side m ≡ some m')
  unfolding maybe_truncate_message shorten_body
  maybe_truncate_message-some m text b =
      let total = length (encode_message en m true) in
      either_way (λ o. (m' : Message) × (o ≡ some m')) (ltb max_tokens total) _ _
        (_, ap (shorten_body en max_tokens abbrev_tokens side m total) b) (m, refl)

-- The kept tokens are at the end or at the beginning of the body, and the abbreviation stands for
-- the others.
abbrev pub IsPart : Side → List ℕ → List ℕ → Type 0
IsPart left kept body = (removed : List ℕ) × (removed ++ kept ≡ body)
IsPart right kept body = (removed : List ℕ) × (kept ++ removed ≡ body)

abbrev pub joined : Side → List ℕ → List ℕ → List ℕ
joined left abbrev_tokens kept = abbrev_tokens ++ kept
joined right abbrev_tokens kept = kept ++ abbrev_tokens

length-joined :
    (side : Side) (ab kept : List ℕ) → length (joined side ab kept) ≡ length ab + length kept
length-joined left ab kept = length-append ab kept
length-joined right ab kept = omega (arith, length-append kept ab)

shorten_lem :
    (side : Side) (plus minus : ℕ) (ab body : List ℕ)
    → minus < plus
    → plus - minus ≤ length body
    → (kept : List ℕ) × (shorten side plus minus ab body ≡ joined side ab kept)
      × IsPart side kept body
      × (length kept ≡ plus - minus)
unfolding shorten keep_last keep_first
shorten_lem left plus minus ab body h k =
    let e = lt→ltb minus plus h in
    let n = length body - (plus - minus) in
    (drop n body, rw e, (take n body, take-append-drop n body), omega (arith, length-drop n body))
shorten_lem right plus minus ab body h k =
    let e : ltb plus minus ≡ false = ground arith in
    let n = plus - minus in
    (take n body, rw e, (drop n body, take-append-drop n body), omega (arith, length-take n body))

length-parts :
    (header body : List ℕ) (last : ℕ)
    → length ((header ++ body) ++ last ∷ []) ≡ length header + (length body + 1)
length-parts header body last =
    omega (arith, length-append (header ++ body) (last ∷ []), length-append header body)

module _ (en : Encoding) (max_tokens : ℕ) (abbrev_tokens : List ℕ) (side : Side) where
  abbrev pub total_of : Message → ℕ
  total_of m = length (encode_message en m true)

  -- The tokens of the body of a message that is too long.
  abbrev pub new_body : Message → Text → List ℕ
  new_body m text =
      new_tokens en max_tokens abbrev_tokens side (total_of m) (encode en text false false)

  -- The tokens of a message are those of its header, those of its body and the end.
  total_of-body :
      (m : Message) (text : Text)
      → total_of (record m { body = some text })
        ≡ length (encode_message_header en m)
          + (length (encode_body en m.source true (some text)) + 1)
  unfolding encode_message encode_message_header
  total_of-body m text =
      length-parts (encode_message_header en m) (encode_body en m.source true (some text))
        (if m.eot then en.eot_id else en.eom_id)

  long_message :
      (m : Message) (text : Text)
      → m.body ≡ some text
      → max_tokens < total_of m
      → maybe_truncate_message en max_tokens abbrev_tokens side m
        ≡ some (record m { body = some (decode en (new_body m text) true) })
  unfolding maybe_truncate_message shorten_body
  long_message m text b h =
      let e = lt→ltb max_tokens (total_of m) h in
      rw e (ap (shorten_body en max_tokens abbrev_tokens side m (total_of m)) b)

  short_message :
      (m : Message)
      → total_of m ≤ max_tokens
      → maybe_truncate_message en max_tokens abbrev_tokens side m ≡ some m
  unfolding maybe_truncate_message
  short_message m h = let e : ltb max_tokens (total_of m) ≡ false = ground arith in rw e

  -- The new tokens are the abbreviation and a part of the body, and as many as there is room for.
  new_body_lem :
      (m : Message) (text : Text)
      → max_tokens < total_of m
      → total_of m + length abbrev_tokens < max_tokens + length (encode en text false false)
      → (kept : List ℕ) × (new_body m text ≡ joined side abbrev_tokens kept)
        × IsPart side kept (encode en text false false)
        × (total_of m + length (new_body m text) ≡ max_tokens + length (encode en text false false))
  unfolding new_tokens
  new_body_lem m text h k =
      let tokens = encode en text false false in
      let (kept, f, p, n) =
        shorten_lem side (max_tokens + length tokens) (total_of m + length abbrev_tokens)
          abbrev_tokens tokens k (omega arith) in
      (kept, f, p, omega (arith, n, length-joined side abbrev_tokens kept, ap length f))

  -- Where the body stands in the message as its tokens, which says that nothing is stripped off it:
  -- if a message that is too long leaves room for a token of the body, and the new tokens come back
  -- when the new body is stripped and encoded in the message, then the message that results has
  -- just as many tokens as allowed, or as before if these are fewer. It is the message itself, or
  -- its body is the text of its last or first tokens with the abbreviation in the place of the
  -- others.
  pub maybe_truncate_message_lem :
      (m : Message) (text : Text)
      → m.body ≡ some text
      → encode_body en m.source true (some text) ≡ encode en text false false
      → (max_tokens < total_of m
          → (total_of m + length abbrev_tokens < max_tokens + length (encode en text false false))
            × (encode_body en m.source true (some (decode en (new_body m text) true))
                ≡ new_body m text))
      → (m' : Message) × (maybe_truncate_message en max_tokens abbrev_tokens side m ≡ some m')
        × (total_of m' ≡ min (total_of m) max_tokens)
        × ((m' ≡ m)
            ⊎ ((kept : List ℕ) × IsPart side kept (encode en text false false)
                × (m'
                    ≡ record m { body = some (decode en (joined side abbrev_tokens kept) true) })))
  maybe_truncate_message_lem m text b whole fits = elim (dec_lt max_tokens (total_of m)) [
    | yes h ↦
        let (room, stable) = fits h in
        let (kept, e, p, n) = new_body_lem m text h room in
        let old : total_of m
            ≡ length (encode_message_header en m) + (length (encode en text false false) + 1) =
          ap (λ o. total_of (record m { body = o })) b
          ∙ total_of-body m text
          ∙ ap (λ t. length (encode_message_header en m) + (length t + 1)) whole in
        let new =
          total_of-body m (decode en (new_body m text) true)
          ∙ ap (λ t. length (encode_message_header en m) + (length t + 1)) stable in
        (
          _,
          long_message m text b h,
          ground (arith, new, old, n),
          inr (kept, p, ap (λ t. record m { body = some (decode en t true) }) e),
        )
    | no h ↦ (m, short_message m (omega arith), ground arith, inl refl)
  ]
