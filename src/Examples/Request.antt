-- ===== src/Examples/Request.antt =====
-- Requests at a node of a small mesh (internal/proxy).
use viiwork_freetoken.Prelude.{
  zero, suc, ◌≡◌, refl, true, false, List, [], ◌∷◌, none, String, str_eq_iff, pos, atoi, arith, ℤ,
  some, str_eq, if◌then◌else◌,
}
use viiwork_freetoken.Balancer.State.{BackendState, new_backend_state}
use viiwork_freetoken.Peer.State.{new_peer_state, has_model, total_in_flight, mark_unreachable}
use viiwork_freetoken.Peer.Route.{route_local, pick_route}
use viiwork_freetoken.Peer.Registry.{
  local_route, peer_route, no_response, resolve, poll_all, poll_peer, poll_once, is_known_addr,
}
use viiwork_freetoken.Proxy.Dispatch.{
  names, dispatched, no_backend, route_request, model_name, candidates, local_only, fails,
  error_reply,
}
use viiwork_freetoken.Proxy.Dispatch.Candidates.{Decided, route_request-Decided}
use viiwork_freetoken.Proxy.Headers.{
  Header, Canonical, origin_header, hop_by_hop, get_header, set_header, copy_response_headers,
  peer_request_headers,
}
use viiwork_freetoken.Proxy.Headers.Forwarded.{peer_request_headers-route_request}
use viiwork_freetoken.Proxy.PromptPages.{dials, Redirects, dialled, handle_mesh_prompt, poll_rounds}
use viiwork_freetoken.Proxy.Request.{Labels, Node, Call, open_request, close_request}
use viiwork_freetoken.Proxy.Request.Ledger.{BackendsTally, PeersTally}
use viiwork_freetoken.Proxy.Request.Balance.{Ended, Running, IsBalanced, polled, Running-IsBalanced}
use viiwork_freetoken.Examples.Mesh.{node, card, fresh}

-- A request that names no model and was forwarded before.
route_request-Decided_example :
    Decided node
      (pos 4)
      (model_name node "")
      "other"
      (route_request node (pos 4) (names "") "other" fresh).0
unfolding new_peer_state new_backend_state
route_request-Decided_example = route_request-Decided node (pos 4) "" "other" fresh

-- It goes to the last of the tied backends.
forwarded_locally :
    (route_request node (pos 4) (names "") "other" fresh).0
    ≡ dispatched (local_route 2 (card (pos 2) (pos 1)))
unfolding route_request model_name candidates local_only resolve has_model total_in_flight
    pick_route new_peer_state new_backend_state
forwarded_locally = refl

unknown_model : (route_request node (pos 4) (names "llama") "" fresh).0 ≡ no_backend
unfolding route_request model_name candidates local_only resolve has_model total_in_flight
    pick_route new_peer_state new_backend_state
unknown_model = refl

unknown_model_reply : error_reply no_backend ≡ (503, 5)
unfolding error_reply
unknown_model_reply = refl

abbrev quiet : BackendState
quiet = new_backend_state (pos 0 ∷ []) "127.0.0.1:9101" (pos 100)

-- A node at rest, with one backend and one peer.
abbrev rest : Node
unfolding new_peer_state new_backend_state
rest = record {
  registry = record node { backends = quiet ∷ []; peers = new_peer_state "10.0.0.2:8089" ∷ [] };
  prompts = none;
  feed = [];
}

abbrev labels : Labels
labels = record { backend_label = λ id ids. "gpu"; peer_label = λ addr. "peer" }

abbrev local_call : Call
local_call = record {
  request_id = pos 1;
  model = "qwen3";
  prompt = [];
  route = local_route 0 quiet;
}

abbrev peer_call : Call
peer_call = record {
  request_id = pos 2;
  model = "qwen3";
  prompt = [];
  route = peer_route 0 (new_peer_state "10.0.0.2:8089");
}

rest-Running : Running [] [] rest
unfolding new_peer_state new_backend_state
rest-Running = Running.idle rest one_backend one_peer refl
  where
    one_backend : BackendsTally rest.registry (λ i. 0)
    one_backend zero b e = ground arith
    one_backend (suc i) b e = absurd (ground arith)

    one_peer : PeersTally rest.registry (λ i. 0)
    one_peer zero p e = ground arith
    one_peer (suc i) p e = absurd (ground arith)

abbrev ended : List Ended
ended = record { call = local_call; upstream = fails false true } ∷ []

-- Both requests begin; the peer is polled; the one on the backend finds the process gone.
abbrev busy : Node
busy = close_request labels (pos 9) (pos 50) 60 50 [] (fails false true) local_call (
    polled (no_response ∷ [])
      (open_request labels (pos 8) peer_call (open_request labels (pos 7) local_call rest)))

Running-IsBalanced_example : IsBalanced (peer_call ∷ []) ended busy
Running-IsBalanced_example = Running-IsBalanced (peer_call ∷ []) ended busy (
    Running.closes (peer_call ∷ []) [] labels (pos 9) (pos 50) 60 50 [] (fails false true)
      local_call
      (Running.polls (no_response ∷ []) (
        Running.opens labels (pos 8) peer_call
          (Running.opens labels (pos 7) local_call rest-Running))))

-- The names of the headers are canonical already.
abbrev canonical : Canonical
canonical name = name

abbrev sent_along : List Header
sent_along = ("Connection", "close") ∷ ("X-Viiwork-Origin", "") ∷ []

hops_once :
    (route_request node
      (pos 4)
      (names "")
      (get_header origin_header (peer_request_headers canonical node.node_id sent_along))
      fresh).0
    ≡ dispatched (local_route 2 (card (pos 2) (pos 1)))
unfolding route_request model_name candidates local_only resolve has_model total_in_flight
    pick_route new_peer_state new_backend_state peer_request_headers set_header get_header
hops_once = refl

peer_request_headers-route_request_example :
    (local_route 2 (card (pos 2) (pos 1))).kind ≡ route_local
unfolding new_peer_state new_backend_state
peer_request_headers-route_request_example =
    peer_request_headers-route_request canonical node sent_along node (pos 4) (names "") fresh
      (local_route 2 (card (pos 2) (pos 1))) (λ e. ground (arith, str_eq_iff "a" "")) hops_once

abbrev from_upstream : List Header
from_upstream = ("Access-Control-Allow-Origin", "*") ∷ ("Server", "ft") ∷ []

abbrev server : Header
server = ("Server", "ft")

passed_on_clean : copy_response_headers canonical from_upstream [] ≡ server ∷ []
unfolding copy_response_headers hop_by_hop
passed_on_clean = refl

-- A peer is asked for the prompt of one of its requests.
asks_peer :
    handle_mesh_prompt (poll_rounds ((no_response ∷ []) ∷ []) node) none "12" "10.0.0.2:8089"
    ≡ dials "10.0.0.2:8089" (pos 12)
unfolding handle_mesh_prompt poll_rounds poll_once is_known_addr atoi new_peer_state
    new_backend_state poll_all poll_peer mark_unreachable
asks_peer = refl

abbrev peer_address : String
peer_address = "10.0.0.2:8089"

abbrev prompt_path : ℤ → String
prompt_path n = "/v1/prompts?rid=12"

-- A peer that sends whoever asks for a prompt to another page of its own.
abbrev at_home : Redirects
at_home u = if str_eq u.path "/v1/prompts?rid=12" then some (record u { path = "/p" }) else none

-- A peer that points elsewhere is followed to an address that the node was never given.
abbrev astray : Redirects
astray u =
    if str_eq u.host "10.0.0.2:8089"
    then some (record { host = "10.0.0.9:623"; path = "/" })
    else none

led_astray :
    dialled prompt_path astray
      (handle_mesh_prompt (poll_rounds ((no_response ∷ []) ∷ []) node) none "12" peer_address)
    ≡ peer_address ∷ "10.0.0.9:623" ∷ []
unfolding handle_mesh_prompt poll_rounds poll_once is_known_addr atoi new_peer_state
    new_backend_state poll_all poll_peer mark_unreachable dialled
led_astray = refl
