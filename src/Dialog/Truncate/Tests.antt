-- ===== src/Dialog/Truncate/Tests.antt =====
-- Messages that are shortened, with a token for each character.
use cwm.Prelude.{
  ℕ, ◌+◌, ◌-◌, ◌<◌, ◌≡◌, refl, true, false, List, [], ◌∷◌, map, some, length, ◌⊎◌, arith,
}
use cwm.Prelude.Text.{codes}
use Prim.Native.Nat.{min}
use mathlib.Core.Option
use cwm.Dialog.Tokenizer.{
  Text, Encoding, Message, user, user_message, encode, decode, encode_message, encode_body,
}
use cwm.Dialog.Truncate.{
  left, right, new_tokens, maybe_truncate_message, IsPart, joined, total_of, new_body,
  maybe_truncate_message_lem,
}

abbrev chars : Encoding
chars = record {
  encode_ordinary = map (λ c. c + 10);
  encode_special = map (λ c. c + 10);
  decode_bytes = map (λ t. t - 10);
  bos_id = 0;
  eos_id = 1;
  eom_id = 2;
  eot_id = 3;
  header_start_id = 4;
  header_end_id = 5;
  thinking_start_id = 6;
}

abbrev long : Message
long = user_message (codes "abcdefgh")

abbrev dots : List ℕ
dots = 56 ∷ 56 ∷ []

nothing_stripped :
    encode_body chars user true (some (codes "abcdefgh"))
    ≡ encode chars (codes "abcdefgh") false false
unfolding new_tokens decode encode encode_message encode_body
    cwm.Dialog.Tokenizer.encode_message_header cwm.Dialog.Tokenizer.strip cwm.Swerl.Log.is_space
    cwm.Dialog.Tokenizer.cut_at_stop_tokens cwm.Dialog.Tokenizer.is_member
    cwm.Dialog.Tokenizer.is_assistant
nothing_stripped = refl

room_left :
    (total_of chars 14 dots right long + length dots
      < 14 + length (encode chars (codes "abcdefgh") false false))
    × (encode_body chars user true
          (some (decode chars (new_body chars 14 dots right long (codes "abcdefgh")) true))
        ≡ new_body chars 14 dots right long (codes "abcdefgh"))
unfolding new_tokens decode encode encode_message encode_body
    cwm.Dialog.Tokenizer.encode_message_header cwm.Dialog.Tokenizer.strip cwm.Swerl.Log.is_space
    cwm.Dialog.Tokenizer.cut_at_stop_tokens cwm.Dialog.Tokenizer.is_member
    cwm.Dialog.Tokenizer.is_assistant
room_left = (omega arith, refl)

maybe_truncate_message_lem_example :
    (m' : Message) × (maybe_truncate_message chars 14 dots right long ≡ some m')
    × (total_of chars 14 dots right m' ≡ min (total_of chars 14 dots right long) 14)
    × ((m' ≡ long)
        ⊎ ((kept : List ℕ) × IsPart right kept (encode chars (codes "abcdefgh") false false)
            × (m' ≡ record long { body = some (decode chars (joined right dots kept) true) })))
maybe_truncate_message_lem_example =
    maybe_truncate_message_lem chars 14 dots right long (codes "abcdefgh") refl nothing_stripped
      (λ h. room_left)

shortened : maybe_truncate_message chars 14 dots right long ≡ some (user_message (codes "abc.."))
unfolding maybe_truncate_message new_tokens decode encode encode_message
    cwm.Dialog.Tokenizer.encode_message_header cwm.Dialog.Tokenizer.strip cwm.Swerl.Log.is_space
    cwm.Dialog.Tokenizer.cut_at_stop_tokens cwm.Dialog.Tokenizer.is_member
    cwm.Dialog.Tokenizer.is_assistant
shortened = refl

-- Without room for a token of the body, the left side keeps all of it.
not_shortened :
    maybe_truncate_message chars 11 dots left long ≡ some (user_message (codes "..abcdefgh"))
unfolding maybe_truncate_message new_tokens decode encode encode_message
    cwm.Dialog.Tokenizer.encode_message_header cwm.Dialog.Tokenizer.strip cwm.Swerl.Log.is_space
    cwm.Dialog.Tokenizer.cut_at_stop_tokens cwm.Dialog.Tokenizer.is_member
    cwm.Dialog.Tokenizer.is_assistant
not_shortened = refl

-- Spaces at the end are counted as tokens of the body, but they are not in the message: of 17
-- tokens with 13 in the body, 8 are kept for a limit of 14, and the message has 19.
abbrev trailing : Message
trailing = user_message (codes "abcdefgh     ")

not_short_enough :
    Option.map (total_of chars 14 dots right) (maybe_truncate_message chars 14 dots right trailing)
    ≡ some 19
unfolding maybe_truncate_message new_tokens decode encode encode_message
    cwm.Dialog.Tokenizer.encode_message_header cwm.Dialog.Tokenizer.strip cwm.Swerl.Log.is_space
    cwm.Dialog.Tokenizer.cut_at_stop_tokens cwm.Dialog.Tokenizer.is_member
    cwm.Dialog.Tokenizer.is_assistant
not_short_enough = refl
