-- ===== src/Examples/Pages.antt =====
-- Event streams, origins, captured responses and host memory (internal/proxy).
use viiwork_freetoken.Prelude.{
  ◌≡◌, ◌≢◌, ◌↔◌, ◌<◌, ◌≤◌, refl, true, false, List, [], ◌∷◌, none, some, String, str_eq, pos, ◌-ℤ◌,
  Bytes, codes, same_bytes, str_eq_iff, length, All, if◌then◌else◌, arith,
}
use viiwork_freetoken.Proxy.Stream.{Frame, sent, keepalive, is_line_end}
use viiwork_freetoken.Proxy.Stream.Delivered.{IsClean}
use viiwork_freetoken.Proxy.Cors.{Cors, v4, Library, Request, allows, apply}
use viiwork_freetoken.Proxy.Cors.Allowed.{IsAllowed, allows_iff}
use viiwork_freetoken.Proxy.Cors.Headers.{IsPreflight, PermitsNothing, apply-IsPreflight}
use viiwork_freetoken.Proxy.Capture.{
  capture_raw_cap, new_capture_writer, write, write_all, output, extract_json_text,
}
use viiwork_freetoken.Proxy.Capture.Kept.{flat, write_all-IsCaptured}
use viiwork_freetoken.Proxy.HostMemory.{coarsen_host_mem, published}

abbrev frames : List Frame
frames =
    sent [] (some (codes "{1}")) ∷ keepalive ∷ sent (codes "activity") (some (codes "{2}")) ∷ []

-- The stream breaks within the second payload.
abbrev arrived : Bytes
arrived = codes "data: {1}\n\n: keepalive\n\nevent: activity\ndata: {"

frames-IsClean : All IsClean frames
unfolding is_line_end
frames-IsClean = ground arith

-- A library that knows two origins and two addresses, and no upper case.
abbrev pub library : Library
library = record {
  parse_url = λ s.
      if str_eq s "http://100.70.0.9:3000"
      then some ("http", codes "100.70.0.9")
      else if str_eq s "https://box.tail.ts.net"
      then some ("https", codes "box.tail.ts.net")
      else none;
  parse_ip = λ h. if same_bytes h (codes "100.70.0.9") then some (v4 100 70 0 9) else none;
  to_lower = λ h. h;
  equal_fold = same_bytes;
}

abbrev rules : Cors
rules = record { origins = codes "*.ts.net" ∷ codes "localhost" ∷ []; tailnet_ips = true }

allows_iff_example :
    (allows library (some rules) "https://box.tail.ts.net" ≡ true)
    ↔ IsAllowed library rules "https://box.tail.ts.net"
allows_iff_example =
    allows_iff library rules "https://box.tail.ts.net"
      (λ e. ground (arith, str_eq_iff "https://box.tail.ts.net" ""))
      (λ e. ground (arith, str_eq_iff "https://box.tail.ts.net" "null"))

allowed : allows library (some rules) "https://box.tail.ts.net" ≡ true
unfolding allows
allowed = refl

allowed_address : allows library (some rules) "http://100.70.0.9:3000" ≡ true
unfolding allows
allowed_address = refl

abbrev asking : Request
asking = record {
  origin = "https://elsewhere.example";
  is_options = true;
  request_method = "POST";
  request_headers = "";
}

apply-IsPreflight_example :
    let r = apply library (some rules) asking in
    ((r.1 ≡ true) ↔ IsPreflight asking)
    × (asking.origin ≢ "" → (vary : List String) × (r.0.vary ≡ "Origin" ∷ vary))
    × (allows library (some rules) asking.origin ≡ false
        → PermitsNothing r.0 × (r.1 ≡ true → r.0.status ≡ some 403))
    × (allows library (some rules) asking.origin ≡ true
        → (r.0.allow_origin ≡ asking.origin) × (r.1 ≡ true → r.0.status ≡ some 204))
apply-IsPreflight_example = apply-IsPreflight library (some rules) asking

abbrev pieces : List Bytes
pieces = codes "{\"a\":" ∷ codes "1}" ∷ []

write_all-IsCaptured_example :
    let c = write_all pieces new_capture_writer in
    (c.client ≡ flat pieces)
    × (length c.buf ≤ capture_raw_cap)
    × (length (flat pieces) ≤ capture_raw_cap → c.buf ≡ flat pieces)
    × (c.overflow ≡ true ↔ capture_raw_cap < length (flat pieces))
write_all-IsCaptured_example = write_all-IsCaptured pieces

-- What does not decode is kept as it is.
kept_raw : output (λ b. b) (λ b. none) (write_all pieces new_capture_writer) ≡ flat pieces
unfolding output write_all write new_capture_writer extract_json_text
kept_raw = refl

held :
    published (pos 0) (pos 64000) (pos 31400 ∷ pos 31999 ∷ pos 30100 ∷ pos 32000 ∷ [])
    ≡ pos 31000 ∷ pos 31000 ∷ pos 31000 ∷ pos 32000 ∷ []
unfolding published coarsen_host_mem ◌-ℤ◌
held = refl
