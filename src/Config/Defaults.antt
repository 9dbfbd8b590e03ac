-- ===== src/Config/Defaults.antt =====
-- internal/config/defaults.go: what `ApplyDefaults` puts in the place of what a file leaves unset.
-- The geometry of the energy store is that of an imported package and an argument, `slots`.
pub mod Filled
use viiwork_freetoken.Prelude.{
  Bool, false, ℕ, ◌*◌, List, [], ◌∷◌, Option, none, some, String, str_eq, ℤ, pos, eqb_ℤ,
  if◌then◌else◌,
}
use viiwork_freetoken.Config.{
  Float64, real, Config, CorsConfig, ServerConfig, GpusConfig, FreetokenConfig, HealthConfig,
  BalancerConfig, PeersConfig, ActivityConfig, EnergyConfig,
}

-- The minutes, hours and days that the energy store has room for.
pub record Slots : Type 0 where
  pub minutes : ℤ
  pub hours : ℤ
  pub days : ℤ

abbrev pub default_port : ℤ
default_port = pos 9801

abbrev pub default_base_port : ℤ
default_base_port = pos 9901

abbrev pub default_mesh_port : ℤ
default_mesh_port = pos 8086

abbrev default_energy_dir : String
default_energy_dir = "/var/lib/viiwork/energy"

abbrev default_cors_origins : List String
default_cors_origins = "*.ts.net" ∷ "localhost" ∷ "127.0.0.1" ∷ []

-- A duration in nanoseconds.
abbrev seconds : ℕ → ℤ
seconds n = pos (n * 1000000000)

-- `if x == 0 { x = d }`, on a number, a quotient and a text.
unfoldable pub or_number : ℤ → ℤ → ℤ
or_number d x = if eqb_ℤ x (pos 0) then d else x

abbrev pub is_zero : Float64 → Bool
is_zero (real r) = eqb_ℤ r.num (pos 0)
is_zero _ = false

unfoldable pub or_ratio : Float64 → Float64 → Float64
or_ratio d x = if is_zero x then d else x

unfoldable pub or_text : String → String → String
or_text d x = if str_eq x "" then d else x

unfoldable pub or_origins : List String → Option (List String) → Option (List String)
or_origins d none = some d
or_origins d (some origins) = some origins

pub fill_server : ServerConfig → ServerConfig
fill_server s = record s {
  host = or_text "0.0.0.0" s.host;
  port = or_number default_port s.port;
  mesh_port = or_number default_mesh_port s.mesh_port;
  cors = record s.cors { allow_origins = or_origins default_cors_origins s.cors.allow_origins };
}

pub fill_gpus : GpusConfig → GpusConfig
fill_gpus g = record g { base_port = or_number default_base_port g.base_port }

pub fill_freetoken : FreetokenConfig → FreetokenConfig
fill_freetoken f = record f {
  binary = or_text "ft" f.binary;
  max_running_requests = or_number (pos 4) f.max_running_requests;
  memory_ratio = or_ratio (real (record { num = pos 9; den = pos 10 })) f.memory_ratio;
  startup_timeout = or_number (seconds 1200) f.startup_timeout;
  shutdown_grace = or_number (seconds 30) f.shutdown_grace;
}

pub fill_health : HealthConfig → HealthConfig
fill_health h = record {
  interval = or_number (seconds 5) h.interval;
  timeout = or_number (seconds 2) h.timeout;
  failure_threshold = or_number (pos 3) h.failure_threshold;
  max_respawns = or_number (pos 3) h.max_respawns;
}

-- The ceiling of a backend is what its engine was told to run, defaults included.
pub fill_balancer : FreetokenConfig → BalancerConfig → BalancerConfig
fill_balancer f b = record {
  latency_window = or_number (seconds 30) b.latency_window;
  high_load_threshold = or_number (pos 7) b.high_load_threshold;
  max_in_flight_per_backend = or_number f.max_running_requests b.max_in_flight_per_backend;
}

pub fill_peers : PeersConfig → PeersConfig
fill_peers p = record p {
  poll_interval = or_number (seconds 10) p.poll_interval;
  timeout = or_number (seconds 3) p.timeout;
}

pub fill_activity : ActivityConfig → ActivityConfig
fill_activity a = record {
  prompt_history = or_number (pos 1000) a.prompt_history;
  event_history = or_number (pos 2000) a.event_history;
}

pub fill_energy : Slots → EnergyConfig → EnergyConfig
fill_energy slots e = record e {
  dir = or_text default_energy_dir e.dir;
  sample_interval = or_number (seconds 30) e.sample_interval;
  minute_slots = or_number slots.minutes e.minute_slots;
  hour_slots = or_number slots.hours e.hour_slots;
  day_slots = or_number slots.days e.day_slots;
}

unfoldable pub apply_defaults : Slots → Config → Config
unfolding fill_server fill_gpus fill_freetoken fill_health fill_balancer fill_peers fill_activity
    fill_energy
apply_defaults slots c = record c {
  server = fill_server c.server;
  gpus = fill_gpus c.gpus;
  freetoken = fill_freetoken c.freetoken;
  health = fill_health c.health;
  balancer = fill_balancer (fill_freetoken c.freetoken) c.balancer;
  peers = fill_peers c.peers;
  activity = fill_activity c.activity;
  energy = fill_energy slots c.energy;
}
