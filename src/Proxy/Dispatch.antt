-- ===== src/Proxy/Dispatch.antt =====
-- internal/proxy/handler.go and streaming.go: where an inference request goes, and what serving it on
-- a local backend does to the backend's state.
-- The body is taken by what reading and decoding it comes to, the upstream call by how it ends.
pub mod Candidates
pub mod Flight
use viiwork_freetoken.Prelude.{
  ℕ, Bool, true, false, not, ◌&&◌, List, [], ◌∷◌, String, str_eq, ℤ, pos, ltb_ℤ, keep,
  if◌then◌else◌,
}
use viiwork_freetoken.Balancer.State.{
  BackendState, incr_in_flight, decr_in_flight, note_hard_failure, record_latency,
}
use viiwork_freetoken.Peer.Route.{
  Route, Choice, picked, no_route, backpressure, panics, Counters, is_local, pick_route,
}
use viiwork_freetoken.Peer.Registry.{Registry, resolve}

-- `names` has the model that the body names, empty where it names none.
pub data Body : Type 0 where
  unreadable not_json : Body
  names : String → Body

-- `internal_error` is a panic that `ServeHTTP` recovers from.
pub data Outcome : Type 0 where
  bad_request no_backend at_capacity internal_error : Outcome
  dispatched : Route → Outcome

-- The status and, in seconds, the header Retry-After of `writeRouteError`; 0 is no such header.
unfoldable pub error_reply : Outcome → ℕ × ℕ
error_reply bad_request = (400, 0)
error_reply no_backend = (503, 5)
error_reply at_capacity = (429, 1)
error_reply internal_error = (500, 0)
error_reply (dispatched _) = (0, 0)

unfoldable pub local_only : List Route → List Route
local_only rs = keep (λ r. is_local r.kind) rs

unfoldable pub model_name : Registry → String → String
model_name r name = if str_eq name "" then r.local_model else name

-- `origin` is the header that marks a request as forwarded, empty where it is absent.
unfoldable pub candidates : Registry → String → String → List Route
candidates r name origin =
    if not (str_eq origin "") then local_only (resolve r name) else resolve r name

outcome_of : Choice → Outcome
outcome_of (picked r) = dispatched r
outcome_of no_route = no_backend
outcome_of backpressure = at_capacity
outcome_of panics = internal_error

abbrev outcome_and : Choice × Counters → Outcome × Counters
outcome_and (choice, c) = (outcome_of choice, c)

-- The first half of `handleProxy`, up to the choice of the route.
unfoldable pub route_request : Registry → ℤ → Body → String → Counters → Outcome × Counters
unfolding outcome_of
route_request r max unreadable origin c = (bad_request, c)
route_request r max not_json origin c = (bad_request, c)
route_request r max (names name) origin c =
    outcome_and (pick_route (candidates r (model_name r name) origin) max c)

-- How the upstream call ends: it cannot be made; it fails, with the client gone or not, and with a
-- hard failure or not; it responds with a status, and the client stays to the end or not.
pub data Upstream : Type 0 where
  not_made : Upstream
  fails : Bool → Bool → Upstream
  responds : ℤ → Bool → Upstream

unfoldable pub begin_request : BackendState → BackendState
begin_request b = incr_in_flight b

pub served : ℕ → ℕ → Upstream → BackendState → BackendState
served now dur not_made b = b
served now dur (fails gone hard) b = if gone then b else if hard then note_hard_failure b else b
served now dur (responds status aborted) b =
    if not aborted && ltb_ℤ status (pos 500) then record_latency now dur b else b

-- What is left to do when the call has ended, `dur` after the request began; the deferred decrement
-- comes last.
unfoldable pub finish_request : ℕ → ℕ → Upstream → BackendState → BackendState
unfolding served
finish_request now dur u b = decr_in_flight (served now dur u b)
