-- ===== src/Config.antt =====
-- internal/config/config.go: the settings of a node, and what `Validate` demands of them.
-- A Go int is an integer without a bound, a duration an integer number of nanoseconds, the memory
-- ratio an exact quotient. Reading YAML is left out.
pub mod Valid
pub mod Defaults
pub mod Override
pub mod Boot
use viiwork_freetoken.Prelude.{
  Bool, true, false, not, ◌&&◌, ◌||◌, List, [], ◌∷◌, Option, none, some, String, str_eq, ℤ, pos,
  ◌+ℤ◌, leb_ℤ, ltb_ℤ, eqb_ℤ, if◌then◌else◌,
}
use viiwork_freetoken.Balancer.State.{Ratio}

pub record CorsConfig : Type 0 where
  pub allow_origins : Option (List String)
  pub allow_tailnet_ips : Option Bool

pub record ServerConfig : Type 0 where
  pub host : String
  pub port : ℤ
  pub mesh_port : ℤ
  pub cors : CorsConfig

pub record NodeConfig : Type 0 where
  pub hostname : String
  pub id : String

pub record ModelConfig : Type 0 where
  pub name : String
  pub path : String

pub record GpusConfig : Type 0 where
  pub devices : List ℤ
  pub base_port : ℤ

-- A float64 as YAML can write it; a finite one is a quotient by a positive number.
pub data Float64 : Type 0 where
  real : Ratio → Float64
  positive_infinity negative_infinity nan : Float64

pub record FreetokenConfig : Type 0 where
  pub binary : String
  pub extra_args : List String
  pub max_seq_len : ℤ
  pub max_running_requests : ℤ
  pub memory_ratio : Float64
  pub moe_backend : String
  pub startup_timeout : ℤ
  pub shutdown_grace : ℤ

pub record HealthConfig : Type 0 where
  pub interval : ℤ
  pub timeout : ℤ
  pub failure_threshold : ℤ
  pub max_respawns : ℤ

pub record BalancerConfig : Type 0 where
  pub latency_window : ℤ
  pub high_load_threshold : ℤ
  pub max_in_flight_per_backend : ℤ

pub record PeersConfig : Type 0 where
  pub hosts : List String
  pub poll_interval : ℤ
  pub timeout : ℤ

pub record ActivityConfig : Type 0 where
  pub prompt_history : ℤ
  pub event_history : ℤ

pub record EnergyConfig : Type 0 where
  pub enabled : Bool
  pub dir : String
  pub sample_interval : ℤ
  pub minute_slots : ℤ
  pub hour_slots : ℤ
  pub day_slots : ℤ

pub record Config : Type 0 where
  pub server : ServerConfig
  pub node : NodeConfig
  pub model : ModelConfig
  pub gpus : GpusConfig
  pub freetoken : FreetokenConfig
  pub health : HealthConfig
  pub balancer : BalancerConfig
  pub peers : PeersConfig
  pub activity : ActivityConfig
  pub energy : EnergyConfig

pub record BackendSpec : Type 0 where
  pub gpu_ids : List ℤ
  pub port : ℤ

-- The port is the base port plus the position.
specs_from : ℤ → List ℤ → List BackendSpec
specs_from port [] = []
specs_from port (dev ∷ devs) =
    record { gpu_ids = dev ∷ []; port = port } ∷ specs_from (port +ℤ pos 1) devs

unfoldable pub backends : Config → List BackendSpec
unfolding specs_from
backends c = specs_from c.gpus.base_port c.gpus.devices

pub data Invalid : Type 0 where
  name_missing path_missing devices_missing : Invalid
  negative_device twice_device : ℤ → Invalid
  ports_equal : ℤ → Invalid
  port_collides : ℤ → Invalid
  bad_memory_ratio : Invalid
  bad_moe_backend : String → Invalid

contains : ℤ → List ℤ → Bool
contains d [] = false
contains d (x ∷ xs) = if eqb_ℤ d x then true else contains d xs

-- `nil` is `none`; the set `seen` is the list of what was added.
pub check_devices : List ℤ → List ℤ → Option Invalid
check_devices seen [] = none
check_devices seen (d ∷ ds) =
    let rest = check_devices (d ∷ seen) ds in
    if ltb_ℤ d (pos 0)
    then some (negative_device d)
    else if contains d seen
    then some (twice_device d)
    else rest

collides : ServerConfig → ℤ → Bool
collides s port = eqb_ℤ port s.port || (not (eqb_ℤ s.mesh_port (pos 0)) && eqb_ℤ port s.mesh_port)

check_ports : ServerConfig → List BackendSpec → Option Invalid
check_ports s [] = none
check_ports s (b ∷ bs) =
    let rest = check_ports s bs in if collides s b.port then some (port_collides b.port) else rest

-- `ratio <= 0 || ratio > 1`; of NaN neither holds.
bad_ratio : Float64 → Bool
bad_ratio (real r) = leb_ℤ r.num (pos 0) || ltb_ℤ r.den r.num
bad_ratio positive_infinity = true
bad_ratio negative_infinity = true
bad_ratio nan = false

moe_known : String → Bool
moe_known m =
    str_eq m "" || str_eq m "fused" || str_eq m "offload" || str_eq m "cpu" || str_eq m "hybrid"

abbrev is_nil : List ℤ → Bool
is_nil [] = true
is_nil (_ ∷ _) = false

abbrev fails : Bool → Invalid → Option Invalid
fails true e = some e
fails false e = none

first_error : List (Option Invalid) → Option Invalid
first_error [] = none
first_error (none ∷ rest) = first_error rest
first_error (some e ∷ rest) = some e

-- The demands, in the order of the source.
abbrev checks : Config → List (Option Invalid)
checks c =
    fails (str_eq c.model.name "") name_missing
    ∷ fails (str_eq c.model.path "") path_missing
    ∷ fails (is_nil c.gpus.devices) devices_missing
    ∷ check_devices [] c.gpus.devices
    ∷ fails (eqb_ℤ c.server.port c.server.mesh_port && not (eqb_ℤ c.server.mesh_port (pos 0)))
        (ports_equal c.server.port)
    ∷ check_ports c.server (backends c)
    ∷ fails (bad_ratio c.freetoken.memory_ratio) bad_memory_ratio
    ∷ fails (not (moe_known c.freetoken.moe_backend)) (bad_moe_backend c.freetoken.moe_backend)
    ∷ []

-- The first demand that is not met.
unfoldable pub validate : Config → Option Invalid
unfolding check_devices check_ports collides bad_ratio moe_known contains first_error
validate c = first_error (checks c)
