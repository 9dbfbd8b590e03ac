-- ===== src/Proxy/Relay.antt =====
-- internal/proxy/streaming.go and peerproxy.go: the upstream call of a request, how its errors are read,
-- and what the client gets.
-- An error is taken by what the tests of the source say of it, a response by what its reads come to. A
-- body comes to an end; of a write that fails nothing is counted as delivered.
pub mod Delivery
use viiwork_freetoken.Prelude.{
  Bool, true, false, ◌&&◌, ◌||◌, List, [], ◌∷◌, ◌++◌, Option, none, some, String, str_eq, ℤ, pos,
  if◌then◌else◌, Bytes, codes, is_empty_text,
}
use viiwork_freetoken.Balancer.State.{BackendState, label}
use viiwork_freetoken.Proxy.Capture.{contains_bytes}
use viiwork_freetoken.Proxy.Dispatch.{Upstream, not_made, fails, responds}
use viiwork_freetoken.Proxy.Headers.{
  Header, Canonical, copy_response_headers, set_header, peer_response_headers,
}

-- What `errors.Is`, `errors.As` and `Error` say of an error.
pub record NetError : Type 0 where
  pub is_eof : Bool
  pub is_unexpected_eof : Bool
  pub is_refused : Bool
  pub is_op_error : Bool
  pub is_handler_timeout : Bool
  pub text : Bytes

unfoldable pub is_hard_failure : NetError → Bool
unfolding contains_bytes
is_hard_failure e =
    e.is_eof
    || e.is_unexpected_eof
    || e.is_refused
    || e.is_op_error
    || contains_bytes (codes "connection refused") e.text
    || contains_bytes (codes "EOF") e.text

-- `gone` tells whether the context of the request has ended.
unfoldable pub is_client_abort : Bool → NetError → Bool
is_client_abort gone e = gone || e.is_handler_timeout

-- The reads of a body: those before the last, each with what the client makes of the write, and the
-- last one, which comes with an error.
pub data Body : Type 0 where
  more : Bytes → Bool → Body → Body
  ends : Bytes → Bool → Bool → NetError → Body

-- After the last read.
abbrev pub at_end : Bool → NetError → Bool
at_end gone e = if e.is_eof then false else is_client_abort gone e

-- What the client gets, and whether it abandoned the request.
unfoldable pub stream_body : Body → Bytes × Bool
unfolding is_client_abort
stream_body (more p takes rest) =
    let later = stream_body rest in
    if is_empty_text p then later else if takes then (p ++ later.0, later.1) else ([], true)
stream_body (ends p takes gone e) =
    if is_empty_text p
    then ([], at_end gone e)
    else if takes
    then (p, at_end gone e)
    else ([], true)

-- How an upstream call ends: the request cannot be made, the call fails, or there is a response.
pub data UpstreamCall : Type 0 where
  unmade : UpstreamCall
  errs : Bool → NetError → UpstreamCall
  answers : ℤ → List Header → Body → UpstreamCall

-- The call as the state of the backend sees it.
unfoldable pub upstream_of : UpstreamCall → Upstream
upstream_of unmade = not_made
upstream_of (errs gone e) = fails (is_client_abort gone e) (is_hard_failure e)
upstream_of (answers status hs body) = responds status (stream_body body).1

-- What the client gets. No status is an abandoned request; the text of an error page is left out.
pub record ClientReply : Type 0 where
  pub status : Option ℤ
  pub headers : List Header
  pub body : Bytes

abbrev error_page : ℤ → List Header → ClientReply
error_page status w = record { status = some status; headers = w; body = [] }

abbrev failed_reply : Bool → List Header → ClientReply
failed_reply abandoned w =
    if abandoned then record { status = none; headers = w; body = [] } else error_page (pos 502) w

-- The headers that `proxyRequest` sets; `Set` makes the name canonical.
abbrev local_headers :
    Canonical → (ℤ → String) → String → ℤ → List Header → List Header → List Header
local_headers canonical itoa name in_flight upstream w =
    set_header (canonical "X-Queue-Depth") (itoa in_flight)
      (set_header (canonical "X-GPU-Backend") name (copy_response_headers canonical upstream w))

-- The reply of `proxyRequest`; `w` are the headers that are set already and `b` is the backend when the
-- response comes.
unfoldable pub local_reply :
    Canonical
    → (ℤ → String)
    → (ℤ → List ℤ → String)
    → BackendState
    → List Header
    → UpstreamCall
    → ClientReply
unfolding is_client_abort
local_reply canonical itoa name b w unmade = error_page (pos 500) w
local_reply canonical itoa name b w (errs gone e) = failed_reply (is_client_abort gone e) w
local_reply canonical itoa name b w (answers status hs body) = record {
  status = some status;
  headers = local_headers canonical itoa (label name b) b.in_flight hs w;
  body = (stream_body body).0;
}

-- The reply of `proxyToPeer`, and whether the request was abandoned.
unfoldable pub peer_reply : Canonical → String → List Header → UpstreamCall → ClientReply × Bool
unfolding is_client_abort
peer_reply canonical name w unmade = (error_page (pos 500) w, false)
peer_reply canonical name w (errs gone e) =
    (failed_reply (is_client_abort gone e) w, is_client_abort gone e)
peer_reply canonical name w (answers status hs body) = (
  record {
    status = some status;
    headers = peer_response_headers canonical name hs w;
    body = (stream_body body).0;
  },
  (stream_body body).1,
)
