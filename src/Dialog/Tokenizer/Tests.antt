-- ===== src/Dialog/Tokenizer/Tests.antt =====
-- An encoder that gives each character a token of its own.
use cwm.Prelude.{ℕ, ◌+◌, ◌-◌, ◌≡◌, refl, true, false, List, [], ◌∷◌, map, arith}
use cwm.Prelude.Text.{codes}
use cwm.Dialog.Tokenizer.{
  Text, Encoding, stop_tokens, is_member, user_message, assistant_message, Message, encode,
  encode_message, encode_message_header, encode_prompt_dialog, strip, cut_at_stop_tokens,
}
use cwm.Dialog.Tokenizer.Segments.{
  Unstopped, segments, IsOrdinary, parts, cons_token, encode_prompt_dialog_lem,
}

abbrev char_token : ℕ → ℕ
char_token c = c + 10

abbrev chars : Encoding
chars = record {
  encode_ordinary = map char_token;
  encode_special = map char_token;
  decode_bytes = map (λ t. t - 10);
  bos_id = 0;
  eos_id = 1;
  eom_id = 2;
  eot_id = 3;
  header_start_id = 4;
  header_end_id = 5;
  thinking_start_id = 6;
}

char_not_stop : (c : ℕ) → is_member (char_token c) (stop_tokens chars) ≡ false
unfolding is_member
char_not_stop c = ground arith

chars-Unstopped : (t : Text) → Unstopped (stop_tokens chars) (map char_token t)
chars-Unstopped [] = tt
chars-Unstopped (c ∷ t) = (char_not_stop c, chars-Unstopped t)

chars-IsOrdinary : IsOrdinary chars
unfolding is_member
chars-IsOrdinary = record {
  ordinary = chars-Unstopped;
  special = chars-Unstopped;
  start_ok = refl;
  end_ok = refl;
  bos_ok = refl;
}

abbrev question : List Message
question = user_message (codes " hi ") ∷ assistant_message (codes "o") ∷ []

encode_prompt_dialog_lem_example :
    segments (stop_tokens chars) (encode_prompt_dialog chars question true)
    ≡ cons_token 0 (parts chars chars-IsOrdinary question)
encode_prompt_dialog_lem_example = encode_prompt_dialog_lem chars chars-IsOrdinary question true

user_tokens :
    encode_message chars (user_message (codes " hi ")) true
    ≡ 4 ∷ 127 ∷ 125 ∷ 111 ∷ 124 ∷ 5 ∷ 20 ∷ 20 ∷ 114 ∷ 115 ∷ 3 ∷ []
unfolding encode_message encode_message_header encode strip cwm.Swerl.Log.is_space
user_tokens = refl

cut_tokens : cut_at_stop_tokens (stop_tokens chars) true (7 ∷ 3 ∷ 8 ∷ []) ≡ 7 ∷ 3 ∷ []
unfolding cut_at_stop_tokens is_member
cut_tokens = refl
