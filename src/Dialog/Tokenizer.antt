-- ===== src/Dialog/Tokenizer.antt =====
-- cwm/text/tokenizers.py: Tokenizer, TikTokenTokenizer and CWMInstructTokenizer around the encoder
-- of tiktoken, which is a parameter; and the messages of cwm/text/datatypes.py.
pub mod Segments
mod Tests
use cwm.Prelude.{
  ℕ, zero, suc, ◌+◌, ◌-◌, ◌/◌, Bool, true, false, ◌&&◌, ◌||◌, not, List, [], ◌∷◌, ◌++◌, Option,
  none, some, ◌==◌, ltb, if◌then◌else◌, length, take, drop,
}
use cwm.Prelude.Text.{codes}
use cwm.Swerl.Log.{is_space}

abbrev pub Text : Type 0
Text = List ℕ

-- tiktoken: `encode_ordinary`, `encode` with the two thinking tokens allowed, `decode`; and the ids
-- of the special tokens.
pub record Encoding : Type 0 where
  pub encode_ordinary : Text → List ℕ
  pub encode_special : Text → List ℕ
  pub decode_bytes : List ℕ → Text
  pub bos_id : ℕ
  pub eos_id : ℕ
  pub eom_id : ℕ
  pub eot_id : ℕ
  pub header_start_id : ℕ
  pub header_end_id : ℕ
  pub thinking_start_id : ℕ

abbrev pub max_encode_chars : ℕ
max_encode_chars = 400000

-- `[text[i : i + n] for i in range(0, len(text), n)]`, a piece for each round.
pieces : ℕ → ℕ → Text → List Text
pieces n zero text = []
pieces n (suc rounds) text = take n text ∷ pieces n rounds (drop n text)

abbrev rounds_of : ℕ → Text → ℕ
rounds_of n text = (length text + (n - 1)) / n

concat_map : (Text → List ℕ) → List Text → List ℕ
concat_map f [] = []
concat_map f (t ∷ ts) = f t ++ concat_map f ts

-- `str.strip`.
lstrip : Text → Text
lstrip [] = []
lstrip (c ∷ text) = let rest = lstrip text in if is_space c then rest else c ∷ text

keep_if : ℕ → Text → Text
keep_if c [] = if is_space c then [] else c ∷ []
keep_if c (d ∷ text) = c ∷ d ∷ text

rstrip : Text → Text
unfolding keep_if
rstrip [] = []
rstrip (c ∷ text) = keep_if c (rstrip text)

unfoldable pub strip : Text → Text
unfolding lstrip rstrip
strip text = rstrip (lstrip text)

unfoldable pub is_member : ℕ → List ℕ → Bool
is_member t [] = false
is_member t (s ∷ ss) = s == t || is_member t ss

-- `cut_at_stop_tokens` for a list of stop tokens.
unfoldable pub cut_at_stop_tokens : List ℕ → Bool → List ℕ → List ℕ
cut_at_stop_tokens stops keep [] = []
cut_at_stop_tokens stops keep (t ∷ tokens) =
    let rest = cut_at_stop_tokens stops keep tokens in
    if is_member t stops then (if keep then t ∷ [] else []) else t ∷ rest

pub data Role : Type 0 where
  system user assistant tool_role : Role

-- CWMChatMessage; a body may be missing, and `tool` is the name of the tool.
pub record Message : Type 0 where
  pub source : Role
  pub body : Option Text
  pub eot : Bool
  pub tool : Text

role_str : Role → Text
role_str system = codes "system"
role_str user = codes "user"
role_str assistant = codes "assistant"
role_str tool_role = codes "tool"

source_str : Role → Text → Text
unfolding role_str strip
source_str tool_role tool = strip (role_str tool_role) ++ codes ": " ++ tool
source_str system tool = strip (role_str system)
source_str user tool = strip (role_str user)
source_str assistant tool = strip (role_str assistant)

unfoldable pub is_assistant : Role → Bool
is_assistant assistant = true
is_assistant _ = false

is_tool : Role → Bool
is_tool tool_role = true
is_tool _ = false

abbrev pub user_message : Text → Message
user_message body = record { source = user; body = some body; eot = true; tool = [] }

abbrev pub assistant_message : Text → Message
assistant_message body = record { source = assistant; body = some body; eot = true; tool = [] }

abbrev pub system_message : Text → Message
system_message body = record { source = system; body = some body; eot = true; tool = [] }

abbrev pub tool_result : Text → Text → Message
tool_result body tool = record { source = tool_role; body = some body; eot = true; tool = tool }

module _ (en : Encoding) where
  open en use {
    encode_ordinary, encode_special, decode_bytes, bos_id, eos_id, eom_id, eot_id, header_start_id,
    header_end_id,
  }

  abbrev pub stop_tokens : List ℕ
  stop_tokens = eom_id ∷ eot_id ∷ eos_id ∷ []

  -- `_encode`: a long text is encoded in pieces.
  encode_text : Text → List ℕ
  unfolding pieces concat_map
  encode_text text =
      if ltb (length text) max_encode_chars
      then encode_ordinary text
      else concat_map encode_ordinary
          (pieces max_encode_chars (rounds_of max_encode_chars text) text)

  unfoldable pub encode : Text → Bool → Bool → List ℕ
  unfolding encode_text
  encode text bos eos =
      (if bos then bos_id ∷ [] else []) ++ encode_text text ++ (if eos then eos_id ∷ [] else [])

  unfoldable pub decode : List ℕ → Bool → Text
  decode tokens cut =
      decode_bytes (if cut then cut_at_stop_tokens stop_tokens false tokens else tokens)

  unfoldable pub encode_message_header : Message → List ℕ
  unfolding source_str
  encode_message_header m =
      header_start_id
      ∷ (encode (strip (source_str m.source m.tool)) false false
          ++ header_end_id ∷ encode (codes "\n\n") false false)

  unfoldable pub encode_thinking : Text → List ℕ
  unfolding pieces concat_map
  encode_thinking text =
      concat_map encode_special (pieces max_encode_chars (rounds_of max_encode_chars text) text)

  -- The body is stripped but for a tool's answer and for a prompt of the assistant.
  unfoldable pub encode_body : Role → Bool → Option Text → List ℕ
  unfolding is_assistant is_tool
  encode_body source add_end_token none = []
  encode_body source add_end_token (some body) =
      let text =
        if not (is_tool source) && not (is_assistant source && not add_end_token)
        then strip body
        else body in
      if is_assistant source then encode_thinking text else encode text false false

  unfoldable pub encode_message : Message → Bool → List ℕ
  unfolding encode_body
  encode_message m add_end_token =
      encode_message_header m
      ++ encode_body m.source add_end_token m.body
      ++ (if add_end_token then (if m.eot then eot_id else eom_id) ∷ [] else [])

  -- The messages but the last, and the last, which is a prefix if it is the assistant's.
  encode_dialog : List Message → List ℕ
  unfolding is_assistant
  encode_dialog [] = []
  encode_dialog (m ∷ []) =
      if is_assistant m.source
      then encode_message m false
      else encode_message m true ++ encode_message_header (assistant_message [])
  encode_dialog (m ∷ n ∷ ms) = encode_message m true ++ encode_dialog (n ∷ ms)

  -- `encode_prompt_dialog` with `think=False`.
  unfoldable pub encode_prompt_dialog : List Message → Bool → List ℕ
  unfolding encode_dialog
  encode_prompt_dialog dialog bos = (if bos then bos_id ∷ [] else []) ++ encode_dialog dialog
