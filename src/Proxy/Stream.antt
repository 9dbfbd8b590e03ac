-- ===== src/Proxy/Stream.antt =====
-- internal/proxy/sse.go and the end of internal/proxy/meshactivity.go: the event stream that a node
-- writes and the reader with which another node follows it. Bytes are numbers. A payload is its JSON
-- text; what the JSON encoder fails on is not sent.
pub mod Delivered
use viiwork_freetoken.Prelude.{
  ℕ, Bool, true, false, ◌&&◌, ◌||◌, List, [], ◌∷◌, ◌++◌, Option, none, some, ◌==◌, if◌then◌else◌,
  Bytes, codes, is_empty_text,
}

-- One call of `send`, its event name empty or not, or of `comment`.
pub data Frame : Type 0 where
  sent : Bytes → Option Bytes → Frame
  keepalive : Frame

abbrev data_prefix : Bytes
data_prefix = codes "data: "

abbrev event_line : Bytes → Bytes
event_line event = if is_empty_text event then [] else codes "event: " ++ event ++ b'\n' ∷ []

-- What one call writes to a client that is there; a payload that cannot be encoded is `none`.
unfoldable pub frame_bytes : Frame → Bytes
frame_bytes (sent event none) = []
frame_bytes (sent event (some payload)) =
    event_line event ++ (data_prefix ++ (payload ++ b'\n' ∷ b'\n' ∷ []))
frame_bytes keepalive = codes ": keepalive" ++ b'\n' ∷ b'\n' ∷ []

unfoldable pub stream_bytes : List Frame → Bytes
stream_bytes [] = []
stream_bytes (f ∷ fs) = frame_bytes f ++ stream_bytes fs

abbrev put_byte : ℕ → List Bytes × Bytes → List Bytes × Bytes
put_byte x ([], rest) = ([], x ∷ rest)
put_byte x (line ∷ lines, rest) = ((x ∷ line) ∷ lines, rest)

-- The results of `ReadString` up to its error: the lines with a newline, here without it, and what is
-- left over at the end of the stream.
unfoldable pub read_lines : Bytes → List Bytes × Bytes
read_lines [] = ([], [])
read_lines (x ∷ xs) =
    let rest = read_lines xs in if x == b'\n' then ([] ∷ rest.0, rest.1) else put_byte x rest

unfoldable pub is_line_end : ℕ → Bool
is_line_end c = c == b'\r' || c == b'\n'

pub trim_line_end : Bytes → Bytes
trim_line_end [] = []
trim_line_end (x ∷ xs) =
    let rest = trim_line_end xs in if is_empty_text rest && is_line_end x then [] else x ∷ rest

abbrev pub strip_prefix : Bytes → Bytes → Option Bytes
strip_prefix [] xs = some xs
strip_prefix (p ∷ ps) [] = none
strip_prefix (p ∷ ps) (x ∷ xs) = let rest = strip_prefix ps xs in if x == p then rest else none

pub payload_of : Bytes → Option Bytes
payload_of line = strip_prefix data_prefix (trim_line_end line)

pub or_next : Option Bytes → List Bytes → Option (Bytes × List Bytes) → Option (Bytes × List Bytes)
or_next none lines later = later
or_next (some payload) lines later = some (payload, lines)

-- One call of `next` at the lines that are still to come; `none` is an error of the stream.
unfoldable pub next : List Bytes → Option (Bytes × List Bytes)
unfolding payload_of or_next trim_line_end is_line_end
next [] = none
next (line ∷ lines) = or_next (payload_of line) lines (next lines)

pub put_payload : Option Bytes → List Bytes → List Bytes
put_payload none later = later
put_payload (some payload) later = payload ∷ later

-- What the loop of `streamPeerOnce` gets from one call of `next` after another.
unfoldable pub received : List Bytes → List Bytes
unfolding payload_of put_payload trim_line_end is_line_end
received [] = []
received (line ∷ lines) = put_payload (payload_of line) (received lines)
