-- ===== src/Proxy/Cors.antt =====
-- internal/proxy/cors.go: which origins may read the API, and what a response says about it.
-- Reading a URL and an address, and the mapping of letters to lower case, are Go's library: arguments.
-- A text is the list of its bytes where it is taken apart. A nil list of rules is `none`.
pub mod Allowed
pub mod Headers
use viiwork_freetoken.Prelude.{
  ℕ, ◌≡◌, Bool, true, false, not, ◌&&◌, ◌||◌, List, [], ◌∷◌, ◌++◌, Option, none, some, String,
  str_eq, ◌==◌, leb, ltb, if◌then◌else◌, Bytes, codes, is_empty_text, is_prefix, same_bytes, length,
  drop, ◌-◌,
}

pub record Cors : Type 0 where
  pub origins : List Bytes
  pub tailnet_ips : Bool

-- The four bytes of a version 4 address, or the bytes of a version 6 one.
pub data Ip : Type 0 where
  v4 : ℕ → ℕ → ℕ → ℕ → Ip
  v6 : Bytes → Ip

-- What the library makes of an origin: its scheme and its host without the port.
pub record Library : Type 0 where
  pub parse_url : String → Option (String × Bytes)
  pub parse_ip : Bytes → Option Ip
  pub to_lower : Bytes → Bytes
  pub equal_fold : Bytes → Bytes → Bool

pub is_suffix : Bytes → Bytes → Bool
is_suffix suffix s =
    leb (length suffix) (length s) && same_bytes suffix (drop (length s - length suffix) s)

-- 100.64.0.0/10 and fd7a:115c:a1e0::/48.
pub in_tailnet : Ip → Bool
in_tailnet (v4 a b c d) = a == 100 && leb 64 b && leb b 127
in_tailnet (v6 bytes) = is_prefix (253 ∷ 122 ∷ 17 ∷ 92 ∷ 161 ∷ 224 ∷ []) bytes

pub tailnet_host : Option Ip → Bool
tailnet_host none = false
tailnet_host (some ip) = in_tailnet ip

pub matches : Library → Bytes → Bytes → Bool
matches lib host pat =
    if is_prefix (codes "*.") pat
    then (let suffix = drop 1 pat in
        ltb (length suffix) (length host) && is_suffix suffix (lib.to_lower host))
    else lib.equal_fold host pat

pub any_pattern : Library → Bytes → List Bytes → Bool
any_pattern lib host [] = false
any_pattern lib host (pat ∷ pats) =
    let rest = any_pattern lib host pats in if matches lib host pat then true else rest

pub allows_host : Library → Cors → Option (String × Bytes) → Bool
allows_host lib c none = false
allows_host lib c (some (scheme, host)) =
    if not (str_eq scheme "http") && not (str_eq scheme "https")
    then false
    else if is_empty_text host
    then false
    else if c.tailnet_ips && tailnet_host (lib.parse_ip host)
    then true
    else any_pattern lib host c.origins

unfoldable pub allows : Library → Option Cors → String → Bool
unfolding is_suffix in_tailnet tailnet_host matches any_pattern allows_host
allows lib none origin = false
allows lib (some c) origin =
    if str_eq origin "" || str_eq origin "null"
    then false
    else allows_host lib c (lib.parse_url origin)

-- What `apply` reads of a request; a header that is absent is empty.
pub record Request : Type 0 where
  pub origin : String
  pub is_options : Bool
  pub request_method : String
  pub request_headers : String

-- The headers that `apply` sets, an empty text for one it does not, and the status if it answers.
pub record Response : Type 0 where
  pub vary : List String
  pub allow_origin : String
  pub expose_headers : String
  pub allow_methods : String
  pub allow_headers : String
  pub max_age : String
  pub status : Option ℕ

abbrev exposed_headers : String
exposed_headers = "X-GPU-Backend, X-Queue-Depth, X-Viiwork-Origin"

abbrev pub untouched : Response
untouched = record {
  vary = [];
  allow_origin = "";
  expose_headers = "";
  allow_methods = "";
  allow_headers = "";
  max_age = "";
  status = none;
}

abbrev named : Bool → String → Response
named allowed origin = record untouched {
  vary = "Origin" ∷ [];
  allow_origin = if allowed then origin else "";
  expose_headers = if allowed then exposed_headers else "";
}

-- The answer to a preflight.
preflight : Bool → Request → Response
preflight false r = record (named false r.origin) { status = some 403 }
preflight true r = record (named true r.origin) {
  vary = "Origin" ∷ "Access-Control-Request-Headers" ∷ [];
  allow_methods = "GET, POST, OPTIONS";
  allow_headers = if str_eq r.request_headers "" then "Content-Type" else r.request_headers;
  max_age = "600";
  status = some 204;
}

-- The flag tells whether the request has been answered.
unfoldable pub apply : Library → Option Cors → Request → Response × Bool
unfolding preflight
apply lib c r =
    let allowed = allows lib c r.origin in
    if str_eq r.origin ""
    then (untouched, false)
    else if not r.is_options || str_eq r.request_method ""
    then (named allowed r.origin, false)
    else (preflight allowed r, true)
