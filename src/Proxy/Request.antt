-- ===== src/Proxy/Request.antt =====
-- internal/proxy/handler.go: the second half of `handleProxy`, once a route is chosen.
-- A request is two steps, with others between them: what is done before the upstream call, and what
-- is done when it has ended. That others may also run between the notice and the count of one half
-- is left out. The labels of `meshapi` are arguments; of the activity feed the stages of
-- the requests are kept.
pub mod Ledger
pub mod Balance
use viiwork_freetoken.Prelude.{
  ℕ, zero, suc, Bool, true, false, List, [], ◌∷◌, ◌++◌, Option, none, some, String, ℤ, pos, negsuc,
  get_elem?, if◌then◌else◌, Bytes, codes,
}
use viiwork_freetoken.Balancer.State.{BackendState, gpu_id, label}
use viiwork_freetoken.Peer.State.{PeerState, inc_local_in_flight, dec_local_in_flight}
use viiwork_freetoken.Peer.Route.{Route, RouteType, route_local, route_peer}
use viiwork_freetoken.Peer.Registry.{Registry}
use viiwork_freetoken.Activity.Prompts.{PromptStore, store, store_output}
use viiwork_freetoken.Proxy.Dispatch.{
  Upstream, not_made, fails, responds, begin_request, finish_request,
}

pub record Labels : Type 0 where
  pub backend_label : ℤ → List ℤ → String
  pub peer_label : String → String

pub data Stage : Type 0 where
  started done aborted : Stage

-- One event of a request.
pub record Notice : Type 0 where
  pub request_id : ℤ
  pub gpu : ℤ
  pub stage : Stage
  pub model : String
  pub dest : String

-- The fields of `Handler` that a request writes to; a nil prompt store is `none`.
pub record Node : Type 0 where
  pub registry : Registry
  pub prompts : Option PromptStore
  pub feed : List Notice

-- What one request brings along.
pub record Call : Type 0 where
  pub request_id : ℤ
  pub model : String
  pub prompt : Bytes
  pub route : Route

-- A write through a pointer into a list.
abbrev pub update_at {ℓ} : {A : Type ℓ} → (A → A) → ℕ → List A → List A
update_at f i [] = []
update_at f zero (x ∷ xs) = f x ∷ xs
update_at f (suc i) (x ∷ xs) = x ∷ update_at f i xs

abbrev pub at_pointer {ℓ} : {A : Type ℓ} → (A → A) → Option ℕ → List A → List A
at_pointer f none xs = xs
at_pointer f (some i) xs = update_at f i xs

-- The receiver of the request is counted in or out.
abbrev pub on_route :
    (BackendState → BackendState)
    → (PeerState → PeerState)
    → Route
    → RouteType
    → Registry
    → Registry
on_route f g t route_local r = record r { backends = at_pointer f t.backend r.backends }
on_route f g t route_peer r = record r { peers = at_pointer g t.peer r.peers }

backend_at : Option ℕ → List BackendState → Option BackendState
backend_at none bs = none
backend_at (some i) bs = get_elem? bs i

card_and_label : Labels → Option BackendState → ℤ × String
card_and_label labels none = (negsuc 0, "")
card_and_label labels (some b) = (gpu_id b, label labels.backend_label b)

-- The card, -1 for a peer, and the label of the receiver.
receiver : Labels → Registry → Route → RouteType → ℤ × String
unfolding card_and_label backend_at
receiver labels r t route_local = card_and_label labels (backend_at t.backend r.backends)
receiver labels r t route_peer = (negsuc 0, labels.peer_label t.addr)

notice : Labels → Registry → Stage → Call → Notice
unfolding receiver
notice labels r stage c =
    let (gpu, dest) = receiver labels r c.route c.route.kind in
    record { request_id = c.request_id; gpu = gpu; stage = stage; model = c.model; dest = dest }

store_prompt : ℤ → Call → Option PromptStore → Option PromptStore
store_prompt time c none = none
store_prompt time c (some p) = some (store c.request_id time (codes c.model) c.prompt p)

-- Up to the upstream call.
unfoldable pub open_request : Labels → ℤ → Call → Node → Node
unfolding notice store_prompt
open_request labels time c n = record {
  registry = on_route begin_request inc_local_in_flight c.route c.route.kind n.registry;
  prompts = store_prompt time c n.prompts;
  feed = n.feed ++ notice labels n.registry started c ∷ [];
}

-- Whether the client abandoned the request, as `proxyRequest` returns it.
is_aborted : Upstream → Bool
is_aborted not_made = false
is_aborted (fails gone hard) = gone
is_aborted (responds status gone) = gone

-- On a peer's route what `proxyToPeer` returns is not looked at.
last_stage : RouteType → Upstream → Stage
unfolding is_aborted
last_stage route_local u = if is_aborted u then aborted else done
last_stage route_peer u = done

store_text : ℤ → Call → Bytes → ℤ → Option PromptStore → Option PromptStore
store_text time c output elapsed none = none
store_text time c output elapsed (some p) =
    some (store_output c.request_id time (codes c.model) output elapsed p)

-- After the upstream call, the deferred call last; `output` is what was captured.
unfoldable pub close_request : Labels → ℤ → ℤ → ℕ → ℕ → Bytes → Upstream → Call → Node → Node
unfolding notice last_stage store_text
close_request labels time elapsed now dur output u c n = record {
  registry =
      on_route (finish_request now dur u) dec_local_in_flight c.route c.route.kind n.registry;
  prompts = store_text time c output elapsed n.prompts;
  feed = n.feed ++ notice labels n.registry (last_stage c.route.kind u) c ∷ [];
}
