-- ===== src/Proxy/Capture.antt =====
-- internal/proxy/capture.go: the copy that is kept of a response while it is written to the client,
-- and the text that is made of it. Bytes are numbers. Decoding JSON and
-- `bytes.TrimSpace` are arguments.
pub mod Kept
use viiwork_freetoken.Prelude.{
  ℕ, ◌+◌, Bool, true, false, ◌&&◌, List, [], ◌∷◌, ◌++◌, Option, none, some, ℤ, pos, leb_ℤ, leb, ltb,
  if◌then◌else◌, Bytes, codes, is_empty_text, is_prefix, same_bytes, length, split,
}
use viiwork_freetoken.Proxy.Stream.{strip_prefix}

abbrev pub capture_raw_cap : ℕ
capture_raw_cap = 2097152

-- `client` is what has gone to the wrapped writer.
pub record CaptureWriter : Type 0 where
  pub buf : Bytes
  pub status : ℤ
  pub overflow : Bool
  pub client : Bytes

unfoldable pub new_capture_writer : CaptureWriter
new_capture_writer = record { buf = []; status = pos 200; overflow = false; client = [] }

unfoldable pub write_header : ℤ → CaptureWriter → CaptureWriter
write_header status c = record c { status = status }

unfoldable pub write : Bytes → CaptureWriter → CaptureWriter
write p c =
    if leb (length c.buf + length p) capture_raw_cap
    then record c { buf = c.buf ++ p; client = c.client ++ p }
    else record c { overflow = true; client = c.client ++ p }

unfoldable pub write_all : List Bytes → CaptureWriter → CaptureWriter
write_all [] c = c
write_all (p ∷ ps) c = write_all ps (write p c)

-- One choice of a chunk: the contents and the reasoning of its delta and of its message, and its text.
pub record Choice : Type 0 where
  pub delta_content : Bytes
  pub delta_reasoning : Bytes
  pub message_content : Bytes
  pub message_reasoning : Bytes
  pub text : Bytes

-- `json.Unmarshal` into a chunk: its choices, or an error.
abbrev pub Decoder : Type 0
Decoder = Bytes → Option (List Choice)

-- The reasoning and the answer gathered so far.
abbrev Gathered : Type 0
Gathered = Bytes × Bytes

gather_sse : List Choice → Gathered → Gathered
gather_sse [] g = g
gather_sse (ch ∷ chs) (reasoning, content) = gather_sse chs (
  reasoning ++ ch.delta_reasoning ++ ch.message_reasoning,
  content ++ ch.delta_content ++ ch.message_content ++ ch.text,
)

gather_json : List Choice → Gathered → Gathered
gather_json [] g = g
gather_json (ch ∷ chs) (reasoning, content) = gather_json chs (
  reasoning ++ ch.message_reasoning ++ ch.delta_reasoning,
  content ++ ch.message_content ++ ch.delta_content ++ ch.text,
)

abbrev pub join_reasoning : Bytes → Bytes → Bytes
join_reasoning reasoning content =
    if is_empty_text reasoning
    then content
    else if is_empty_text content
    then codes "[reasoning]\n" ++ reasoning
    else codes "[reasoning]\n" ++ reasoning ++ codes "\n\n[answer]\n" ++ content

-- `bytes.Contains`.
unfoldable pub contains_bytes : Bytes → Bytes → Bool
contains_bytes needle [] = is_prefix needle []
contains_bytes needle (x ∷ xs) =
    let later = contains_bytes needle xs in if is_prefix needle (x ∷ xs) then true else later

pub choices_of : Option (List Choice) → List Choice
choices_of none = []
choices_of (some chs) = chs

abbrev pub Trimmer : Type 0
Trimmer = Bytes → Bytes

-- A payload that is not the end mark and decodes.
pub sse_choices : Decoder → Option Bytes → List Choice
sse_choices decode none = []
sse_choices decode (some payload) =
    if same_bytes payload (codes "[DONE]") then [] else choices_of (decode payload)

pub gather_lines : Trimmer → Decoder → List Bytes → Gathered → Gathered
gather_lines trim decode [] g = g
gather_lines trim decode (line ∷ lines) g =
    gather_lines trim decode lines
      (gather_sse (sse_choices decode (strip_prefix (codes "data: ") (trim line))) g)

unfoldable pub extract_sse_text : Trimmer → Decoder → Bytes → Bytes
unfolding gather_lines sse_choices choices_of gather_sse
extract_sse_text trim decode body =
    let (reasoning, content) = gather_lines trim decode (split b'\n' body) ([], []) in
    join_reasoning reasoning content

json_text : Bytes → Gathered → Bytes
json_text body (reasoning, content) =
    if is_empty_text content && is_empty_text reasoning
    then body
    else join_reasoning reasoning content

extract_decoded : Bytes → Option (List Choice) → Bytes
unfolding json_text gather_json
extract_decoded body none = body
extract_decoded body (some chs) = json_text body (gather_json chs ([], []))

unfoldable pub extract_json_text : Decoder → Bytes → Bytes
unfolding extract_decoded
extract_json_text decode body = extract_decoded body (decode body)

unfoldable pub output : Trimmer → Decoder → CaptureWriter → Bytes
unfolding contains_bytes
output trim decode c =
    if is_empty_text c.buf
    then []
    else if leb_ℤ (pos 400) c.status
    then c.buf
    else if contains_bytes (codes "data: ") c.buf
    then extract_sse_text trim decode c.buf
    else extract_json_text decode c.buf
