-- ===== src/Examples/Mesh.antt =====
-- A mesh of two nodes (internal/peer): routes, ties, and whose cards are whose.
use viiwork_freetoken.Prelude.{
  ℕ, ◌≡◌, ◌≢◌, ◌<◌, ◌↔◌, refl, map, All, List, [], ◌∷◌, none, some, ℤ, pos, String, Memᴰ, arith,
}
use viiwork_freetoken.Balancer.State.{healthy, BackendState, StatusWords, new_backend_state}
use viiwork_freetoken.Peer.State.{
  StatusResponse, PeerState, reachable, new_peer_state, has_model, has_model_in, total_in_flight,
}
use viiwork_freetoken.Peer.Route.{Route, picked, Counters, pick_route}
use viiwork_freetoken.Peer.Route.Scan.{IsMinOf, available}
use viiwork_freetoken.Peer.Route.Outcome.{Chosen, pick_route-Chosen}
use viiwork_freetoken.Peer.Route.Rotation.{after_picks, pick_route_visits}
use viiwork_freetoken.Peer.Registry.{
  Registry, answered, no_response, poll_once, total_in_flight as node_in_flight, resolve,
  backend_gpu_ids, gpu_models, local_route,
}
use viiwork_freetoken.Peer.Registry.Routing.{Serves, resolve_iff}
use viiwork_freetoken.Peer.Cluster.{ModelEntry, all_models, cluster_state}
use viiwork_freetoken.Peer.Cluster.Listed.{cluster_state-resolve}
use viiwork_freetoken.Peer.Cluster.Agreed.{IsCleared, all_models-cluster_state}
use viiwork_freetoken.Peer.Report.{status_response}
use viiwork_freetoken.Peer.Report.Exchange.{poll_once-resolve, IsLarger}

abbrev pub card : ℤ → ℤ → BackendState
unfolding new_backend_state
card id load = record (new_backend_state (id ∷ []) "127.0.0.1:9101" (pos 100)) {
  status = healthy;
  in_flight = load;
}

abbrev pub neighbour : PeerState
unfolding new_peer_state
neighbour = record (new_peer_state "10.0.0.2:8089") {
  hostname = "rig";
  status = reachable;
  models = "qwen3" ∷ [];
  polled_in_flight = pos 1;
  backends =
      record {
        gpu_id = pos 5;
        gpu_ids = pos 5 ∷ [];
        model = "qwen3";
        status = "healthy";
        in_flight = pos 0;
        rss_mb = pos 0;
        slot_ctx = pos 0;
        slot_count = pos 0;
        slot_active = pos 0;
        tok_decoded = pos 0;
        tok_remain = pos 0;
      }
      ∷ [];
}

abbrev pub node : Registry
unfolding new_peer_state new_backend_state
node = record {
  node_id = "a";
  local_model = "qwen3";
  backends = card (pos 0) (pos 1) ∷ card (pos 1) (pos 4) ∷ card (pos 2) (pos 1) ∷ [];
  peers = neighbour ∷ [];
  power = none;
  energy = none;
  hostname = "rig";
  listen_addr = "10.0.0.1:8089";
  prompt_history = pos 0;
  version = "dev";
}

abbrev routes : List Route
unfolding has_model total_in_flight resolve new_peer_state new_backend_state
routes = resolve node "qwen3"

abbrev pub fresh : Counters
fresh = record { local_rr = 7; peer_rr = 0 }

-- The second backend is at its ceiling; of the tied ones the counter picks the last, and no peer.
pick_route-Chosen_example : Chosen (pos 4) routes (picked (local_route 2 (card (pos 2) (pos 1))))
unfolding pick_route has_model total_in_flight resolve new_peer_state new_backend_state
pick_route-Chosen_example = pick_route-Chosen routes (pos 4) fresh

lowest : IsMinOf (available (pos 4) routes) (pos 1)
unfolding has_model total_in_flight resolve new_peer_state new_backend_state
lowest = (
  (local_route 0 (card (pos 0) (pos 1)), Memᴰ.head refl, refl),
  (omega arith, (omega arith, (omega arith, tt))),
)

pick_route_visits_example :
    (j : ℕ) × (j < 2)
    × ((pick_route routes (pos 4) (after_picks j routes (pos 4) fresh)).0
        ≡ picked (local_route 0 (card (pos 0) (pos 1))))
unfolding has_model total_in_flight resolve new_peer_state new_backend_state
pick_route_visits_example =
    pick_route_visits routes (pos 4) (pos 1) (local_route 0 (card (pos 0) (pos 1)))
      (local_route 2 (card (pos 2) (pos 1))) [] fresh 0 lowest refl (omega arith) (omega arith)

resolve_iff_example :
    Memᴰ (local_route 0 (card (pos 0) (pos 1))) (resolve node "qwen3")
    ↔ Serves node "qwen3" (local_route 0 (card (pos 0) (pos 1)))
unfolding new_peer_state new_backend_state
resolve_iff_example = resolve_iff node "qwen3" (local_route 0 (card (pos 0) (pos 1)))

adopted : gpu_models node (pos 5) ≡ some "qwen3"
unfolding gpu_models backend_gpu_ids new_peer_state new_backend_state
adopted = refl

abbrev pub words : StatusWords
words = record {
  starting_word = "starting";
  healthy_word = "healthy";
  unhealthy_word = "unhealthy";
  dead_word = "dead";
}

abbrev report : StatusResponse
unfolding new_peer_state new_backend_state
report = status_response words [] (pos 64000) (pos 9000) node

poll_once-resolve_example :
    (t : Route) × Memᴰ t (resolve (poll_once (answered report ∷ []) node) "qwen3")
    × (t.peer ≡ some 0)
    × (t.addr ≡ "10.0.0.2:8089")
    × IsLarger (node_in_flight node) (pos 0) t.in_flight
unfolding new_peer_state new_backend_state
poll_once-resolve_example =
    poll_once-resolve words [] (pos 64000) (pos 9000) node node (answered report ∷ []) 0 neighbour
      refl refl

-- A second peer, with a model of its own.
abbrev fleet : Registry
unfolding new_peer_state new_backend_state
fleet = record node {
  peers =
      neighbour
      ∷ record neighbour { addr = "10.0.0.3:8089"; hostname = ""; models = "phi4" ∷ "qwen3" ∷ [] }
      ∷ [];
}

whole_mesh : (cluster_state words fleet).models ≡ "phi4" ∷ "qwen3" ∷ []
unfolding cluster_state has_model_in new_peer_state new_backend_state
whole_mesh = refl

abbrev phi : String
phi = "phi4"

cluster_state-resolve_example :
    (phi ≢ "qwen3"
      → Memᴰ phi (cluster_state words fleet).models ↔ ((t : Route) × Memᴰ t (resolve fleet phi)))
    × (phi ≡ "qwen3" → phi ≢ "" → Memᴰ phi (cluster_state words fleet).models)
unfolding new_peer_state new_backend_state
cluster_state-resolve_example = cluster_state-resolve words fleet phi

fleet-IsCleared : All IsCleared fleet.peers
unfolding new_peer_state new_backend_state
fleet-IsCleared = ((λ e. absurd (ground arith)), ((λ e. absurd (ground arith)), tt))

abbrev polled : Registry
polled = poll_once (no_response ∷ []) fleet

all_models-cluster_state_example :
    Memᴰ "phi4" (map (λ m. ModelEntry.id m) (all_models polled))
    ↔ Memᴰ "phi4" (cluster_state words polled).models
all_models-cluster_state_example =
    all_models-cluster_state words (no_response ∷ []) fleet "phi4" fleet-IsCleared
