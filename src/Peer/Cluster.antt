-- ===== src/Peer/Cluster.antt =====
-- internal/peer/registry.go: what the node tells of the whole mesh, `AllModels` and `ClusterState`.
-- The records of `meshapi` have the fields that the source writes. A set that is sorted afterwards is
-- the list of what was put into it.
pub mod Names
pub mod Listed
pub mod Agreed
use Prim.Native.String.{compare}
use Prim.Native.Nat.{Ordering}
use viiwork_freetoken.Prelude.{
  ◌≤◌, Bool, true, false, not, List, [], ◌∷◌, ◌++◌, map, Option, none, some, String, str_eq, ℤ, pos,
  ◌+ℤ◌, leb, length, if◌then◌else◌,
}
use viiwork_freetoken.Balancer.State.{Ratio, BackendState, StatusWords}
use viiwork_freetoken.Peer.State.{
  BackendInfo, GpuInfo, PeerState, peer_status_string, has_model_in, zero_ratio,
  total_in_flight as peer_in_flight,
}
use viiwork_freetoken.Peer.Registry.{
  Registry, PowerReading, EnergyReading, is_reachable, host_of_addr,
}
use viiwork_freetoken.Peer.Report.{backend_info}

abbrev is_before : String → String → Bool
is_before s t = elim (compare s t) [ Ordering.gt ↦ false | _ ↦ true ]

insert_name : String → List String → List String
insert_name s [] = s ∷ []
insert_name s (t ∷ ts) = if is_before s t then s ∷ t ∷ ts else t ∷ insert_name s ts

-- `sort.Strings`.
pub sort_names : List String → List String
sort_names [] = []
sort_names (s ∷ ss) = insert_name s (sort_names ss)

-- The names that are not among those seen, each once.
pub fresh : List String → List String → List String
fresh seen [] = []
fresh seen (m ∷ ms) =
    let skipped = fresh seen ms in
    let taken = fresh (m ∷ seen) ms in if has_model_in m seen then skipped else m ∷ taken

-- `model.ModelEntry`.
pub record ModelEntry : Type 0 where
  pub id : String
  pub object : String
  pub owned_by : String

abbrev entry : String → String → ModelEntry
entry owner name = record { id = name; object = "model"; owned_by = owner }

-- The models of all peers, one peer after another.
abbrev pub peer_models : List PeerState → List String
peer_models [] = []
peer_models (p ∷ ps) = p.models ++ peer_models ps

abbrev pub own_model : Registry → List String
own_model r = if str_eq r.local_model "" then [] else r.local_model ∷ []

unfoldable pub all_models : Registry → List ModelEntry
unfolding sort_names insert_name fresh
all_models r =
    map (entry "local") (own_model r)
    ++ map (entry "peer") (sort_names (fresh (own_model r) (peer_models r.peers)))

pub record ClusterLocalInfo : Type 0 where
  pub model : String
  pub listen_addr : String
  pub prompt_history : ℤ
  pub power_watts : Ratio
  pub power_available : Bool
  pub power_source : String
  pub energy_kwh_24h : Ratio
  pub energy_kwh_30d : Ratio
  pub backends : List BackendInfo
  pub total_in_flight : ℤ

pub record ClusterPeerInfo : Type 0 where
  pub addr : String
  pub hostname : String
  pub status : String
  pub node_id : String
  pub models : List String
  pub gpus : List GpuInfo
  pub total_in_flight : ℤ
  pub healthy_backends : ℤ
  pub prompt_history : ℤ
  pub power_watts : Ratio
  pub power_available : Bool
  pub power_source : String
  pub energy_kwh_24h : Ratio
  pub energy_kwh_30d : Ratio
  pub host_mem_total_mb : ℤ
  pub host_mem_used_mb : ℤ
  pub backends : List BackendInfo

pub record ClusterResponse : Type 0 where
  pub node_id : String
  pub version : String
  pub hostname : String
  pub local : ClusterLocalInfo
  pub peers : List ClusterPeerInfo
  pub models : List String
  pub single_host : Bool

-- The host that the peer reports, or else that of its address.
unfoldable pub host_of : PeerState → String
host_of p = if str_eq p.hostname "" then host_of_addr p.addr else p.hostname

peer_blank : PeerState → ClusterPeerInfo
peer_blank p = record {
  addr = p.addr;
  hostname = host_of p;
  status = peer_status_string p.status;
  node_id = "";
  models = [];
  gpus = [];
  total_in_flight = pos 0;
  healthy_backends = pos 0;
  prompt_history = pos 0;
  power_watts = zero_ratio;
  power_available = false;
  power_source = "";
  energy_kwh_24h = zero_ratio;
  energy_kwh_30d = zero_ratio;
  host_mem_total_mb = pos 0;
  host_mem_used_mb = pos 0;
  backends = [];
}

peer_full : PeerState → ClusterPeerInfo
unfolding peer_blank
peer_full p = record (peer_blank p) {
  node_id = p.node_id;
  models = p.models;
  gpus = p.gpus;
  total_in_flight = peer_in_flight p;
  healthy_backends = p.healthy_backends;
  prompt_history = p.prompt_history;
  power_watts = p.power_watts;
  power_available = p.power_available;
  power_source = p.power_source;
  energy_kwh_24h = p.energy_kwh_24h;
  energy_kwh_30d = p.energy_kwh_30d;
  host_mem_total_mb = p.host_mem_total_mb;
  host_mem_used_mb = p.host_mem_used_mb;
  backends = p.backends;
}

-- A peer that is not reachable shows its address, its host and its status only.
pub peer_info : PeerState → ClusterPeerInfo
unfolding peer_full peer_blank
peer_info p = if is_reachable p.status then peer_full p else peer_blank p

pub reachable_models : List PeerState → List String
reachable_models [] = []
reachable_models (p ∷ ps) =
    let rest = reachable_models ps in if is_reachable p.status then p.models ++ rest else rest

local_total : ℤ → List BackendInfo → ℤ
local_total n [] = n
local_total n (b ∷ bs) = local_total (n +ℤ b.in_flight) bs

-- Without a reader the fields stay zero.
abbrev power_of : Option PowerReading → PowerReading
power_of none = record { watts = zero_ratio; available = false; source = "" }
power_of (some p) = p

abbrev energy_of : Option EnergyReading → EnergyReading
energy_of none = record { kwh_24h = zero_ratio; kwh_30d = zero_ratio }
energy_of (some e) = e

-- The token counts of the node's own backends are not set, and are 0 in `backend_info`.
local_info : StatusWords → Registry → ClusterLocalInfo
unfolding local_total
local_info words r =
    let infos = map (backend_info words r) r.backends in
    record {
      model = r.local_model;
      listen_addr = r.listen_addr;
      prompt_history = r.prompt_history;
      power_watts = (power_of r.power).watts;
      power_available = (power_of r.power).available;
      power_source = (power_of r.power).source;
      energy_kwh_24h = (energy_of r.energy).kwh_24h;
      energy_kwh_30d = (energy_of r.energy).kwh_30d;
      backends = infos;
      total_in_flight = local_total (pos 0) infos;
    }

unfoldable pub cluster_state : StatusWords → Registry → ClusterResponse
unfolding local_info peer_info sort_names insert_name fresh reachable_models
cluster_state words r = record {
  node_id = r.node_id;
  version = r.version;
  hostname = r.hostname;
  local = local_info words r;
  peers = map peer_info r.peers;
  models = sort_names (own_model r ++ fresh (own_model r) (reachable_models r.peers));
  single_host = leb (length (r.hostname ∷ fresh (r.hostname ∷ []) (map host_of r.peers))) 1;
}
