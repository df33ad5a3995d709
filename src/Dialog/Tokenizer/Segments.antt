-- ===== src/Dialog/Tokenizer/Segments.antt =====
-- The messages of a dialog can be told apart in its tokens.
use cwm.Prelude.{
  ℕ, ◌≡◌, refl, ap, ◌∙◌, Bool, true, false, List, [], ◌∷◌, ◌++◌, append-nil, append_assoc, ltb,
  length, Option, none, some, if◌then◌else◌, Bool-cases, inl, inr, arith,
}
use cwm.Prelude.Text.{codes}
use cwm.Dialog.Tokenizer.{
  Text, Encoding, is_member, Role, Message, assistant_message, is_assistant, stop_tokens,
  encode_text, encode, encode_thinking, encode_body, encode_message, encode_message_header,
  encode_dialog, encode_prompt_dialog, concat_map, pieces, max_encode_chars, rounds_of,
}

-- No stop token is among the tokens.
abbrev pub Unstopped : List ℕ → List ℕ → Type 0
Unstopped stops [] = Unit
Unstopped stops (t ∷ tokens) = (is_member t stops ≡ false) × Unstopped stops tokens

-- What the tokens are before each stop token, and behind the last one.
abbrev pub cons_token : ℕ → List (List ℕ) → List (List ℕ)
cons_token t [] = (t ∷ []) ∷ []
cons_token t (s ∷ ss) = (t ∷ s) ∷ ss

abbrev pub segments : List ℕ → List ℕ → List (List ℕ)
segments stops [] = [] ∷ []
segments stops (t ∷ tokens) =
    let rest = segments stops tokens in if is_member t stops then [] ∷ rest else cons_token t rest

module _ (stops : List ℕ) where
  if-Unstopped :
      (b : Bool) (s t : List ℕ)
      → Unstopped stops s
      → Unstopped stops t
      → Unstopped stops (if b then s else t)
  if-Unstopped true s t h k = h
  if-Unstopped false s t h k = k

  Unstopped-append :
      (s t : List ℕ) → Unstopped stops s → Unstopped stops t → Unstopped stops (s ++ t)
  Unstopped-append [] t h k = k
  Unstopped-append (x ∷ s) t h k = (h.0, Unstopped-append s t h.1 k)

  segments-Unstopped : (s : List ℕ) → Unstopped stops s → segments stops s ≡ s ∷ []
  segments-Unstopped [] h = refl
  segments-Unstopped (x ∷ s) h = rw (h.0, segments-Unstopped s h.1)

  segments-append :
      (s : List ℕ) (t : ℕ) (tokens : List ℕ)
      → Unstopped stops s
      → is_member t stops ≡ true
      → segments stops (s ++ t ∷ tokens) ≡ s ∷ segments stops tokens
  segments-append [] t tokens h e = rw e
  segments-append (x ∷ s) t tokens h e = rw (h.0, segments-append s t tokens h.1 e)

  Unstopped-concat_map :
      (f : Text → List ℕ) (ts : List Text)
      → ((t : Text) → Unstopped stops (f t))
      → Unstopped stops (concat_map f ts)
  unfolding concat_map
  Unstopped-concat_map f [] h = tt
  Unstopped-concat_map f (t ∷ ts) h =
      Unstopped-append (f t) (concat_map f ts) (h t) (Unstopped-concat_map f ts h)

-- What tiktoken promises of texts: an encoded text has no token that ends a message.
pub record IsOrdinary (en : Encoding) : Type 0 where
  pub ordinary : (t : Text) → Unstopped (stop_tokens en) (en.encode_ordinary t)
  pub special : (t : Text) → Unstopped (stop_tokens en) (en.encode_special t)
  pub start_ok : is_member en.header_start_id (stop_tokens en) ≡ false
  pub end_ok : is_member en.header_end_id (stop_tokens en) ≡ false
  pub bos_ok : is_member en.bos_id (stop_tokens en) ≡ false

module _ (en : Encoding) (ok : IsOrdinary en) where
  abbrev stops_of : List ℕ
  stops_of = stop_tokens en

  encode_text-Unstopped : (t : Text) → Unstopped stops_of (encode_text en t)
  unfolding encode_text
  encode_text-Unstopped t =
      if-Unstopped stops_of (ltb (length t) max_encode_chars) (en.encode_ordinary t)
        (concat_map en.encode_ordinary (pieces max_encode_chars (rounds_of max_encode_chars t) t))
        (ok.ordinary t)
        (Unstopped-concat_map stops_of en.encode_ordinary
          (pieces max_encode_chars (rounds_of max_encode_chars t) t) ok.ordinary)

  encode_thinking-Unstopped : (t : Text) → Unstopped stops_of (encode_thinking en t)
  unfolding encode_thinking
  encode_thinking-Unstopped t =
      Unstopped-concat_map stops_of en.encode_special
        (pieces max_encode_chars (rounds_of max_encode_chars t) t) ok.special

  encode-Unstopped : (t : Text) → Unstopped stops_of (encode en t false false)
  unfolding encode
  encode-Unstopped t = Unstopped-append stops_of (encode_text en t) [] (encode_text-Unstopped t) tt

  header-Unstopped : (m : Message) → Unstopped stops_of (encode_message_header en m)
  unfolding encode_message_header
  header-Unstopped m = (
    ok.start_ok,
    Unstopped-append stops_of (encode en _ false false) _ (encode-Unstopped _)
        (ok.end_ok, encode-Unstopped (codes "\n\n")),
  )

  body-Unstopped :
      (r : Role) (b : Bool) (o : Option Text) → Unstopped stops_of (encode_body en r b o)
  unfolding encode_body
  body-Unstopped r b none = tt
  body-Unstopped r b (some body) =
      if-Unstopped stops_of (is_assistant r) _ _ (encode_thinking-Unstopped _) (encode-Unstopped _)

  -- The tokens of a message without its end.
  abbrev pub contents : Bool → Message → List ℕ
  contents closed m = encode_message_header en m ++ encode_body en m.source closed m.body

  contents-Unstopped : (b : Bool) (m : Message) → Unstopped stops_of (contents b m)
  contents-Unstopped b m =
      Unstopped-append stops_of (encode_message_header en m) (encode_body en m.source b m.body)
        (header-Unstopped m) (body-Unstopped m.source b m.body)

  end_token-stops : (b : Bool) → is_member (if b then en.eot_id else en.eom_id) stops_of ≡ true
  unfolding is_member
  end_token-stops b = elim b [ true ↦ ground arith | false ↦ ground arith ]

  regroup :
      (h b : List ℕ) (e : ℕ) (tokens : List ℕ)
      → (h ++ b ++ e ∷ []) ++ tokens ≡ (h ++ b) ++ e ∷ tokens
  regroup h b e tokens = simp (append_assoc)

  closed_message :
      (m : Message) (tokens : List ℕ)
      → segments stops_of (encode_message en m true ++ tokens)
        ≡ contents true m ∷ segments stops_of tokens
  unfolding encode_message
  closed_message m tokens =
      let e = (if m.eot then en.eot_id else en.eom_id) in
      ap (segments stops_of)
        (regroup (encode_message_header en m) (encode_body en m.source true m.body) e tokens)
      ∙ segments-append stops_of (contents true m) e tokens (contents-Unstopped true m)
          (end_token-stops m.eot)

  open_message :
      (m : Message) → segments stops_of (encode_message en m false) ≡ contents false m ∷ []
  unfolding encode_message
  open_message m =
      ap (segments stops_of) (append-nil (contents false m))
      ∙ segments-Unstopped stops_of (contents false m) (contents-Unstopped false m)

  -- The parts of a dialog: what each message says, and the beginning of the assistant's answer.
  abbrev pub parts : List Message → List (List ℕ)
  parts [] = [] ∷ []
  parts (m ∷ []) =
      if is_assistant m.source
      then contents false m ∷ []
      else contents true m ∷ encode_message_header en (assistant_message []) ∷ []
  parts (m ∷ n ∷ ms) = contents true m ∷ parts (n ∷ ms)

  segments-encode_dialog : (ms : List Message) → segments stops_of (encode_dialog en ms) ≡ parts ms
  unfolding encode_dialog
  segments-encode_dialog [] = refl
  segments-encode_dialog (m ∷ []) = elim (Bool-cases (is_assistant m.source)) [
    | inl y ↦ rw y (open_message m)
    | inr n ↦ rw n (
        closed_message m (encode_message_header en (assistant_message []))
        ∙ ap (λ r. contents true m ∷ r)
            (segments-Unstopped stops_of (encode_message_header en (assistant_message []))
              (header-Unstopped (assistant_message []))))
  ]
  segments-encode_dialog (m ∷ n ∷ ms) =
      closed_message m (encode_dialog en (n ∷ ms))
      ∙ ap (λ r. contents true m ∷ r) (segments-encode_dialog (n ∷ ms))

  -- If encoded text has no stop token, and the tokens of a header and of the beginning of a text
  -- are none, then the stop tokens of an encoded dialog stand at the ends of its messages: between
  -- them are the header and the body of each message, and behind the last one the header and the body
  -- of the answer that the assistant is to go on with, or the header of a new answer.
  pub encode_prompt_dialog_lem :
      (ms : List Message) (bos : Bool)
      → segments stops_of (encode_prompt_dialog en ms bos)
        ≡ (if bos then cons_token en.bos_id (parts ms) else parts ms)
  unfolding encode_prompt_dialog
  encode_prompt_dialog_lem ms true = rw (ok.bos_ok, segments-encode_dialog ms)
  encode_prompt_dialog_lem ms false = segments-encode_dialog ms
