-- ===== src/Proxy/PromptText.antt =====
-- internal/proxy/capture.go: the prompt that is kept of a request, `extractPromptText`.
-- JSON decoding is an argument: of a body its raw prompt and messages, of a raw value what it is read as
-- by the attempts of `contentText`.
pub mod Joined
use viiwork_freetoken.Prelude.{
  Bool, true, false, List, [], ◌∷◌, ◌++◌, Option, none, some, if◌then◌else◌, Bytes, codes,
  is_empty_text,
}

-- `raw` is empty where the field is absent.
pub record Message : Type 0 where
  pub role : Bytes
  pub content : Bytes

pub record PromptBody : Type 0 where
  pub prompt : Bytes
  pub messages : List Message

-- `json.Unmarshal` into the request, a text, a list of parts (here the texts of the parts) and a list of
-- texts.
pub record Decoders : Type 0 where
  pub request : Bytes → Option PromptBody
  pub text : Bytes → Option Bytes
  pub parts : Bytes → Option (List Bytes)
  pub texts : Bytes → Option (List Bytes)

-- One more piece in the string builder, behind a separator unless it is the first.
abbrev pub append_piece : Bytes → Bytes → Bytes → Bytes
append_piece sep piece sb = (if is_empty_text sb then sb else sb ++ sep) ++ piece

join_parts : List Bytes → Bytes → Bytes
join_parts [] sb = sb
join_parts (t ∷ ts) sb =
    join_parts ts (if is_empty_text t then sb else append_piece (codes " ") t sb)

-- `strings.Join`.
unfoldable pub join : Bytes → List Bytes → Bytes
join sep [] = []
join sep (x ∷ []) = x
join sep (x ∷ y ∷ xs) = x ++ sep ++ join sep (y ∷ xs)

as_texts : Option (List Bytes) → Bytes
as_texts none = []
as_texts (some ts) = join (codes "\n") ts

as_parts : Option (List Bytes) → Bytes → Bytes
as_parts none other = other
as_parts (some ts) other = join_parts ts []

as_text : Option Bytes → Bytes → Bytes
as_text none other = other
as_text (some s) other = s

unfoldable pub content_text : Decoders → Bytes → Bytes
unfolding as_text as_parts as_texts join_parts
content_text d raw =
    if is_empty_text raw
    then []
    else as_text (d.text raw) (as_parts (d.parts raw) (as_texts (d.texts raw)))

-- The loop over the messages.
join_messages : Decoders → List Message → Bytes → Bytes
join_messages d [] sb = sb
join_messages d (m ∷ ms) sb =
    let text = content_text d m.content in
    join_messages d ms (
      if is_empty_text text
      then sb
      else append_piece (codes "\n\n") (m.role ++ codes ": " ++ text) sb)

prompt_of : Decoders → Bytes → List Message → Bytes
unfolding join_messages
prompt_of d prompt [] = if is_empty_text prompt then [] else content_text d prompt
prompt_of d prompt (m ∷ ms) = join_messages d (m ∷ ms) []

extract : Decoders → Option PromptBody → Bytes
unfolding prompt_of
extract d none = []
extract d (some b) = prompt_of d b.prompt b.messages

unfoldable pub extract_prompt_text : Decoders → Bytes → Bytes
unfolding extract
extract_prompt_text d body = extract d (d.request body)
