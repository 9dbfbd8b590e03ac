-- ===== src/Proxy/Stream/Delivered.antt =====
-- What a follower gets of an event stream (internal/proxy).
use viiwork_freetoken.Prelude.{
  ◌≡◌, refl, sym, ap, ◌∙◌, false, List, [], ◌∷◌, ◌++◌, Option, none, some, ◌==◌, Bytes, codes, All,
  Bool-cases, Option-cases, inl, inr, append_assoc, if◌then◌else◌, arith,
}
use viiwork_freetoken.Proxy.Stream.{
  Frame, sent, keepalive, data_prefix, event_line, frame_bytes, stream_bytes, put_byte, read_lines,
  is_line_end, trim_line_end, strip_prefix, payload_of, or_next, next, put_payload, received,
}

-- No line ends within.
abbrev pub IsLine : Bytes → Type 0
IsLine xs = All (λ c. is_line_end c ≡ false) xs

-- Event names and payloads without line ends, as those of a node are: JSON writes them as escapes.
abbrev pub IsClean : Frame → Type 0
IsClean (sent event none) = Unit
IsClean (sent event (some payload)) = IsLine event × IsLine payload
IsClean keepalive = Unit

abbrev payload : Frame → Option Bytes
payload (sent event p) = p
payload keepalive = none

-- The payloads that were sent.
abbrev pub payloads : List Frame → List Bytes
payloads [] = []
payloads (f ∷ fs) = elim (payload f) [ none ↦ payloads fs | some p ↦ p ∷ payloads fs ]

trim_line_end-IsLine : (xs : Bytes) → IsLine xs → trim_line_end xs ≡ xs
unfolding trim_line_end is_line_end
trim_line_end-IsLine [] h = refl
trim_line_end-IsLine (x ∷ xs) h = ground (arith, trim_line_end-IsLine xs h.1)

read_lines-line :
    (line xs : Bytes)
    → IsLine line
    → read_lines (line ++ b'\n' ∷ xs) ≡ (line ∷ (read_lines xs).0, (read_lines xs).1)
unfolding read_lines is_line_end
read_lines-line [] xs h = refl
read_lines-line (x ∷ line) xs h =
    let plain : (x == b'\n') ≡ false = ground arith in
    rw (read_lines, plain, read_lines-line line xs h.1)

payload_of-line : (line : Bytes) → IsLine line → payload_of line ≡ strip_prefix data_prefix line
unfolding payload_of
payload_of-line line h = ap (strip_prefix data_prefix) (trim_line_end-IsLine line h)

abbrev heard : Bytes → List Bytes
heard xs = received (read_lines xs).0

-- One line more at the front of the stream.
heard-line :
    (line xs : Bytes)
    → IsLine line
    → heard (line ++ b'\n' ∷ xs) ≡ put_payload (strip_prefix data_prefix line) (heard xs)
unfolding received
heard-line line xs h = rw (read_lines-line line xs h, payload_of-line line h)

IsLine-append : (xs ys : Bytes) → IsLine xs → IsLine ys → IsLine (xs ++ ys)
IsLine-append [] ys h k = k
IsLine-append (x ∷ xs) ys h k = (h.0, IsLine-append xs ys h.1 k)

heard-blank : (xs : Bytes) → heard (b'\n' ∷ xs) ≡ heard xs
unfolding put_payload
heard-blank xs = heard-line [] xs tt

heard-event : (event xs : Bytes) → IsLine event → heard (event_line event ++ xs) ≡ heard xs
unfolding put_payload is_line_end
heard-event [] xs h = refl
heard-event (e ∷ es) xs h =
    let event = e ∷ es in
    ap heard (append_assoc (codes "event: " ++ event) (b'\n' ∷ []) xs)
    ∙ heard-line (codes "event: " ++ event) xs
        (refl, (refl, (refl, (refl, (refl, (refl, (refl, h)))))))

heard-data :
    (p xs : Bytes) → IsLine p → heard (data_prefix ++ (p ++ b'\n' ∷ b'\n' ∷ xs)) ≡ p ∷ heard xs
unfolding put_payload is_line_end
heard-data p xs h =
    heard-line (data_prefix ++ p) (b'\n' ∷ xs) (refl, (refl, (refl, (refl, (refl, (refl, h))))))
    ∙ ap (λ l. p ∷ l) (heard-blank xs)

heard-keepalive : (xs : Bytes) → heard (codes ": keepalive" ++ b'\n' ∷ b'\n' ∷ xs) ≡ heard xs
unfolding put_payload is_line_end
heard-keepalive xs =
    heard-line (codes ": keepalive") (b'\n' ∷ xs)
      (refl, (refl, (refl, (refl, (refl, (refl, (refl, (refl, (refl, (refl, (refl, tt)))))))))))
    ∙ heard-blank xs

heard-frame :
    (f : Frame) (xs : Bytes)
    → IsClean f
    → heard (frame_bytes f ++ xs) ≡ elim (payload f) [ none ↦ heard xs | some p ↦ p ∷ heard xs ]
unfolding frame_bytes
heard-frame (sent event none) xs h = refl
heard-frame (sent event (some p)) xs h =
    let ends = b'\n' ∷ b'\n' ∷ [] in
    ap heard (
      append_assoc (event_line event) (data_prefix ++ (p ++ ends)) xs
      ∙ ap (λ l. event_line event ++ (data_prefix ++ l)) (append_assoc p ends xs))
    ∙ heard-event event (data_prefix ++ (p ++ b'\n' ∷ b'\n' ∷ xs)) h.0
    ∙ heard-data p xs h.1
heard-frame keepalive xs h = heard-keepalive xs

heard-stream : (fs : List Frame) → All IsClean fs → heard (stream_bytes fs) ≡ payloads fs
unfolding stream_bytes received read_lines
heard-stream [] h = refl
heard-stream (f ∷ fs) h =
    heard-frame f (stream_bytes fs) h.0
    ∙ ap (λ l. elim (payload f) [ none ↦ l | some p ↦ p ∷ l ]) (heard-stream fs h.1)

-- The lines of a stream that goes on begin with those of what has come so far.
read_lines-append :
    (xs ys : Bytes) → (more : List Bytes) × ((read_lines (xs ++ ys)).0 ≡ (read_lines xs).0 ++ more)
unfolding read_lines
read_lines-append [] ys = ((read_lines ys).0, refl)
read_lines-append (x ∷ xs) ys =
    let (more, e) = read_lines-append xs ys in
    elim (Bool-cases (x == b'\n')) [
      | inl c ↦ (more, rw (read_lines, c, e))
      | inr c ↦ put c (read_lines xs) (read_lines (xs ++ ys)) more e
    ]
  where
    put :
        (x == b'\n') ≡ false
        → (r s : List Bytes × Bytes) → (more : List Bytes) → s.0 ≡ r.0 ++ more
        → (m : List Bytes) × ((if x == b'\n' then ([] ∷ s.0, s.1) else put_byte x s).0
            ≡ (if x == b'\n' then ([] ∷ r.0, r.1) else put_byte x r).0 ++ m)
    put c ([], r) s more e = ((put_byte x s).0, rw c)
    put c (line ∷ lines, r) ([], s) more e = absurd (ground arith)
    put c (line ∷ lines, r) (first ∷ others, s) more e =
        let a : first ≡ line = ground arith in
        let b : others ≡ lines ++ more = ground arith in (more, rw (c, a, b))

received-append : (ls ms : List Bytes) → received (ls ++ ms) ≡ received ls ++ received ms
unfolding received put_payload
received-append [] ms = refl
received-append (l ∷ ls) ms = elim (Option-cases (payload_of l)) [
  | inl e ↦ rw (received, e, received-append ls ms)
  | inr (p, e) ↦ rw (received, e, received-append ls ms)
]

-- A call of `next` gets the first payload that is still to come, and fails if there is none.
pub next-received :
    (lines : List Bytes)
    → (next lines ≡ none → received lines ≡ [])
      × ((p : Bytes) (rest : List Bytes)
          → next lines ≡ some (p, rest)
          → received lines ≡ p ∷ received rest)
unfolding next received or_next put_payload
next-received [] = ((λ h. refl), (λ p rest h. absurd (ground arith)))
next-received (line ∷ lines) = go (payload_of line) (next-received lines)
  where
    go :
        (o : Option Bytes)
        → (next lines ≡ none → received lines ≡ [])
          × ((p : Bytes) (rest : List Bytes)
              → next lines ≡ some (p, rest)
              → received lines ≡ p ∷ received rest)
        → (or_next o lines (next lines) ≡ none → put_payload o (received lines) ≡ [])
          × ((p : Bytes) (rest : List Bytes)
              → or_next o lines (next lines) ≡ some (p, rest)
              → put_payload o (received lines) ≡ p ∷ received rest)
    go none later = later
    go (some q) later = ((λ h. absurd (ground arith)), (λ p rest h. ground arith))

-- A follower of an event stream gets the payloads that were sent, in their order and without the
-- event names and keepalives between them; where the connection breaks after some of the bytes, it
-- has got the first ones of them, whole. Payloads and event names have no line ends in them.
pub received-stream_bytes :
    (fs : List Frame) (xs ys : Bytes)
    → All IsClean fs
    → xs ++ ys ≡ stream_bytes fs
    → (received (read_lines (stream_bytes fs)).0 ≡ payloads fs)
      × ((lost : List Bytes) × (payloads fs ≡ received (read_lines xs).0 ++ lost))
received-stream_bytes fs xs ys h e =
    let (more, m) = read_lines-append xs ys in
    (
      heard-stream fs h,
      (
        received more,
        sym (heard-stream fs h)
            ∙ ap heard (sym e)
            ∙ ap received m
            ∙ received-append (read_lines xs).0 more,
      ),
    )
