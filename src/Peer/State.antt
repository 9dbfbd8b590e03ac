-- ===== src/Peer/State.antt =====
-- internal/peer/peer.go: one remote node as this one last saw it.
-- The records of `meshapi` are imported by the source; here they have the fields that the source
-- reads and writes. A float64 is kept as an exact quotient. Locks and atomics are left out: a method
-- is one step on the record, and the getters are the record's fields.
use viiwork_freetoken.Prelude.{
  Bool, true, false, List, [], ◌∷◌, String, str_eq, ℤ, pos, negsuc, ◌+ℤ◌, ltb_ℤ, if◌then◌else◌,
}
use viiwork_freetoken.Balancer.State.{Ratio}

-- `meshapi.BackendInfo`.
pub record BackendInfo : Type 0 where
  pub gpu_id : ℤ
  pub gpu_ids : List ℤ
  pub model : String
  pub status : String
  pub in_flight : ℤ
  pub rss_mb : ℤ
  pub slot_ctx : ℤ
  pub slot_count : ℤ
  pub slot_active : ℤ
  pub tok_decoded : ℤ
  pub tok_remain : ℤ

-- `meshapi.GPUInfo`.
pub record GpuInfo : Type 0 where
  pub gpu_id : ℤ
  pub util : Ratio
  pub vram_used_mb : Ratio
  pub vram_total_mb : Ratio

-- `meshapi.StatusResponse`.
pub record StatusResponse : Type 0 where
  pub node_id : String
  pub hostname : String
  pub listen_addr : String
  pub models : List String
  pub backends : List BackendInfo
  pub gpus : List GpuInfo
  pub total_in_flight : ℤ
  pub healthy_backends : ℤ
  pub total_backends : ℤ
  pub power_watts : Ratio
  pub power_available : Bool
  pub power_source : String
  pub host_mem_total_mb : ℤ
  pub host_mem_used_mb : ℤ
  pub energy_kwh_24h : Ratio
  pub energy_kwh_30d : Ratio
  pub prompt_history : ℤ

pub data PeerStatus : Type 0 where
  unreachable reachable : PeerStatus

unfoldable pub peer_status_string : PeerStatus → String
peer_status_string reachable = "reachable"
peer_status_string unreachable = "unreachable"

pub record PeerState : Type 0 where
  pub addr : String
  pub local_in_flight : ℤ
  pub node_id : String
  pub hostname : String
  pub listen_addr : String
  pub status : PeerStatus
  pub models : List String
  pub backends : List BackendInfo
  pub gpus : List GpuInfo
  pub polled_in_flight : ℤ
  pub healthy_backends : ℤ
  pub total_backends : ℤ
  pub power_watts : Ratio
  pub power_available : Bool
  pub power_source : String
  pub host_mem_total_mb : ℤ
  pub host_mem_used_mb : ℤ
  pub energy_kwh_24h : Ratio
  pub energy_kwh_30d : Ratio
  pub prompt_history : ℤ

abbrev pub zero_ratio : Ratio
zero_ratio = record { num = pos 0; den = pos 1 }

unfoldable pub new_peer_state : String → PeerState
new_peer_state addr = record {
  addr = addr;
  local_in_flight = pos 0;
  node_id = "";
  hostname = "";
  listen_addr = "";
  status = unreachable;
  models = [];
  backends = [];
  gpus = [];
  polled_in_flight = pos 0;
  healthy_backends = pos 0;
  total_backends = pos 0;
  power_watts = zero_ratio;
  power_available = false;
  power_source = "";
  host_mem_total_mb = pos 0;
  host_mem_used_mb = pos 0;
  energy_kwh_24h = zero_ratio;
  energy_kwh_30d = zero_ratio;
  prompt_history = pos 0;
}

unfoldable pub update : StatusResponse → PeerState → PeerState
update resp p = record p {
  node_id = resp.node_id;
  hostname = resp.hostname;
  listen_addr = resp.listen_addr;
  status = reachable;
  models = resp.models;
  backends = resp.backends;
  gpus = resp.gpus;
  polled_in_flight = resp.total_in_flight;
  healthy_backends = resp.healthy_backends;
  total_backends = resp.total_backends;
  power_watts = resp.power_watts;
  power_available = resp.power_available;
  power_source = resp.power_source;
  host_mem_total_mb = resp.host_mem_total_mb;
  host_mem_used_mb = resp.host_mem_used_mb;
  energy_kwh_24h = resp.energy_kwh_24h;
  energy_kwh_30d = resp.energy_kwh_30d;
  prompt_history = resp.prompt_history;
}

-- The node id, the host name, the listen address, the number of backends and the prompt history
-- stay as the last poll left them.
unfoldable pub mark_unreachable : PeerState → PeerState
mark_unreachable p = record p {
  status = unreachable;
  models = [];
  backends = [];
  gpus = [];
  polled_in_flight = pos 0;
  healthy_backends = pos 0;
  power_watts = zero_ratio;
  power_available = false;
  power_source = "";
  host_mem_total_mb = pos 0;
  host_mem_used_mb = pos 0;
  energy_kwh_24h = zero_ratio;
  energy_kwh_30d = zero_ratio;
}

unfoldable pub has_model_in : String → List String → Bool
has_model_in name [] = false
has_model_in name (m ∷ ms) = if str_eq m name then true else has_model_in name ms

unfoldable pub has_model : String → PeerState → Bool
unfolding has_model_in
has_model name p = has_model_in name p.models

-- The larger of the polled count and this node's own.
unfoldable pub total_in_flight : PeerState → ℤ
total_in_flight p =
    if ltb_ℤ p.polled_in_flight p.local_in_flight then p.local_in_flight else p.polled_in_flight

unfoldable pub inc_local_in_flight : PeerState → PeerState
inc_local_in_flight p = record p { local_in_flight = p.local_in_flight +ℤ pos 1 }

unfoldable pub dec_local_in_flight : PeerState → PeerState
dec_local_in_flight p = record p { local_in_flight = p.local_in_flight +ℤ negsuc 0 }
