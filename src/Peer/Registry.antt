-- ===== src/Peer/Registry.antt =====
-- internal/peer/registry.go: the node's registry of its own backends and of its peers.
-- A Go map from card to model is a function into Option. The power and energy readers are taken by
-- their readings at the time of the call. HTTP is taken by what a poll came back with.
pub mod Routing
pub mod Cards
pub mod Addresses
use Prim.Native.Char.{code}
use viiwork_freetoken.Prelude.{
  ℕ, ◌+◌, Bool, true, false, ◌&&◌, ◌||◌, not, List, [], ◌∷◌, ◌++◌, Option, none, some, String,
  str_eq, ℤ, pos, ◌+ℤ◌, leb_ℤ, eqb_ℤ, ◌==◌, if◌then◌else◌,
}
use viiwork_freetoken.Balancer.State.{Ratio, BackendState}
use viiwork_freetoken.Balancer.Pick.{is_healthy}
use viiwork_freetoken.Peer.State.{
  BackendInfo, StatusResponse, PeerStatus, reachable, unreachable, PeerState, has_model,
  total_in_flight as peer_in_flight, update, mark_unreachable,
}
use viiwork_freetoken.Peer.Route.{Route, route_local, route_peer}

pub record PowerReading : Type 0 where
  pub watts : Ratio
  pub available : Bool
  pub source : String

pub record EnergyReading : Type 0 where
  pub kwh_24h : Ratio
  pub kwh_30d : Ratio

pub record Registry : Type 0 where
  pub node_id : String
  pub local_model : String
  pub backends : List BackendState
  pub peers : List PeerState
  pub power : Option PowerReading
  pub energy : Option EnergyReading
  pub hostname : String
  pub listen_addr : String
  pub prompt_history : ℤ
  pub version : String

abbrev pub is_reachable : PeerStatus → Bool
is_reachable reachable = true
is_reachable unreachable = false

-- The text before the last colon, where there is one.
before_last_colon : String → Option String
before_last_colon String.[] = none
before_last_colon (String.◌∷◌ c s) = elim (before_last_colon s) [
  | some front ↦ some (String.◌∷◌ c front)
  | none ↦ if code c == b':' then some String.[] else none
]

abbrev pub or_else : Option String → String → String
or_else none s = s
or_else (some t) s = t

unfoldable pub host_of_addr : String → String
unfolding before_last_colon
host_of_addr addr = or_else (before_last_colon addr) addr

single_card : ℤ → List ℤ
single_card id = if leb_ℤ (pos 0) id then id ∷ [] else []

card_list : List ℤ → ℤ → List ℤ
card_list [] id = single_card id
card_list ids id = ids

unfoldable pub backend_gpu_ids : BackendInfo → List ℤ
unfolding card_list single_card
backend_gpu_ids b = card_list b.gpu_ids b.gpu_id

abbrev pub Models : Type 0
Models = ℤ → Option String

abbrev pub no_models : Models
no_models _ = none

-- `out[id] = model` for each card of a list.
assign : String → List ℤ → Models → Models
assign model [] out = out
assign model (id ∷ ids) out = assign model ids (λ j. if eqb_ℤ j id then some model else out j)

adopt_backends : List BackendInfo → Models → Models
adopt_backends [] out = out
adopt_backends (b ∷ bs) out = adopt_backends bs (assign b.model (backend_gpu_ids b) out)

adopt_peers : String → List PeerState → Models → Models
adopt_peers host [] out = out
adopt_peers host (p ∷ ps) out = adopt_peers host ps (
    if not (is_reachable p.status) || not (str_eq p.hostname host)
    then out
    else adopt_backends p.backends out)

own_cards : String → List BackendState → Models → Models
own_cards model [] out = out
own_cards model (b ∷ bs) out = own_cards model bs (assign model b.gpu_ids out)

unfoldable pub gpu_models : Registry → Models
unfolding own_cards adopt_peers adopt_backends assign
gpu_models r =
    own_cards r.local_model r.backends
      (if not (str_eq r.hostname "") then adopt_peers r.hostname r.peers no_models else no_models)

known_peer : String → List PeerState → Bool
known_peer id [] = false
known_peer id (p ∷ ps) = if str_eq p.node_id id then true else known_peer id ps

unfoldable pub is_known_peer : Registry → String → Bool
unfolding known_peer
is_known_peer r id = known_peer id r.peers

unfoldable pub known_addr : String → List PeerState → Bool
known_addr addr [] = false
known_addr addr (p ∷ ps) = if str_eq p.addr addr then true else known_addr addr ps

unfoldable pub is_known_addr : Registry → String → Bool
unfolding known_addr
is_known_addr r addr = known_addr addr r.peers

-- How a poll of a peer's status ends, in the order of the checks.
pub data PollResult : Type 0 where
  bad_request no_response status_not_ok body_unreadable not_json : PollResult
  answered : StatusResponse → PollResult

unfoldable pub poll_peer : PollResult → PeerState → PeerState
poll_peer (answered status) p = update status p
poll_peer _ p = mark_unreachable p

-- Every peer is polled, each by a goroutine of its own that writes to that peer alone; the results
-- come in the order of the peers.
unfoldable pub poll_all : List PollResult → List PeerState → List PeerState
poll_all _ [] = []
poll_all [] (p ∷ ps) = p ∷ ps
poll_all (res ∷ rs) (p ∷ ps) = poll_peer res p ∷ poll_all rs ps

unfoldable pub poll_once : List PollResult → Registry → Registry
unfolding poll_all poll_peer
poll_once results r = record r { peers = poll_all results r.peers }

-- The route to the backend, or to the peer, at position `i`.
abbrev pub local_route : ℕ → BackendState → Route
local_route i b = record {
  kind = route_local;
  backend = some i;
  addr = "";
  peer = none;
  in_flight = b.in_flight;
}

abbrev pub peer_route : ℕ → PeerState → Route
peer_route i p = record {
  kind = route_peer;
  backend = none;
  addr = p.addr;
  peer = some i;
  in_flight = peer_in_flight p;
}

local_routes : ℕ → List BackendState → List Route
local_routes i [] = []
local_routes i (b ∷ bs) =
    let rest = local_routes (i + 1) bs in
    if is_healthy b.status then local_route i b ∷ rest else rest

-- The source skips a peer that is not reachable or does not report the model.
peer_routes : ℕ → String → List PeerState → List Route
peer_routes i name [] = []
peer_routes i name (p ∷ ps) =
    let rest = peer_routes (i + 1) name ps in
    if is_reachable p.status && has_model name p then peer_route i p ∷ rest else rest

unfoldable pub resolve : Registry → String → List Route
unfolding local_routes peer_routes
resolve r name =
    (if str_eq name r.local_model then local_routes 0 r.backends else [])
    ++ peer_routes 0 name r.peers

unfoldable pub load_from : ℤ → List BackendState → ℤ
load_from n [] = n
load_from n (b ∷ bs) = load_from (n +ℤ b.in_flight) bs

unfoldable pub total_in_flight : Registry → ℤ
unfolding load_from
total_in_flight r = load_from (pos 0) r.backends
