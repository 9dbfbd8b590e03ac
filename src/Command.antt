-- ===== src/Command.antt =====
-- cmd/viiwork-freetoken/main.go: how a node is put together from its settings.
-- The name of the host, the random bytes of a node id and the time are arguments; listeners, signals and
-- goroutines are left out. The settings are those of Config.Boot.
pub mod Launched
use Prim.Native.String.{◌++◌ as append}
use viiwork_freetoken.Prelude.{
  ℕ, suc, Bool, true, false, List, [], ◌∷◌, map, Option, none, some, String, str_eq, ℤ,
  if◌then◌else◌, codes,
}
use viiwork_freetoken.Activity.Log.{Log, new_log}
use viiwork_freetoken.Activity.Prompts.{PromptStore, new_prompt_store}
use viiwork_freetoken.Config.{CorsConfig, Config}
use viiwork_freetoken.Freetoken.Backend.{Backend}
use viiwork_freetoken.Freetoken.Manager.{Watch, new_manager, start_one}
use viiwork_freetoken.Gpu.History.{GpuSample, History, new_history, latest}
use viiwork_freetoken.Gpu.Watts.{FloatAdd, Sum, power_reading}
use viiwork_freetoken.Peer.State.{new_peer_state}
use viiwork_freetoken.Peer.Registry.{Registry}
use viiwork_freetoken.Proxy.Cors.{Cors}

-- What the command gets from elsewhere: `strconv.Itoa`, the addition of floats, the name of the host, the
-- random bytes in lower-case hexadecimal digits, both of which may fail, the time in such digits,
-- whether nvidia-smi tells wattage, the instant at which the processes are spawned, and for each backend by
-- its place the process id, or none where the spawn fails.
pub record Environment : Type 0 where
  pub itoa : ℤ → String
  pub plus : FloatAdd
  pub os_hostname : Option String
  pub random_hex : Option String
  pub time_hex : String
  pub power_available : Bool
  pub version : String
  pub spawned_at : ℕ
  pub spawn : ℕ → Option ℤ

unfoldable pub listen_addr_for : (ℤ → String) → String → ℤ → String
listen_addr_for itoa hostname port = append hostname (append ":" (itoa port))

unfoldable pub mint_node_id : Option String → String → String
mint_node_id none time = append "viiwork-freetoken-" time
mint_node_id (some hex) time = append "viiwork-freetoken-" hex

unfoldable pub node_id_of : Environment → String → String
node_id_of env id = if str_eq id "" then mint_node_id env.random_hex env.time_hex else id

unfoldable pub hostname_of : Environment → String → Option String
hostname_of env name = if str_eq name "" then env.os_hostname else some name

-- Tailnet addresses are allowed unless the settings say no.
abbrev tailnet_of : Option Bool → Bool
tailnet_of none = true
tailnet_of (some b) = b

abbrev rules_of : List String → Option Bool → Option Cors
rules_of [] tailnet = none
rules_of (o ∷ os) tailnet =
    some (record { origins = map codes (o ∷ os); tailnet_ips = tailnet_of tailnet })

unfoldable pub cors_of : CorsConfig → Option Cors
cors_of c = elim c.allow_origins [ none ↦ none | some os ↦ rules_of os c.allow_tailnet_ips ]

abbrev or_devices : List ℤ → List ℤ → List ℤ
or_devices [] devices = devices
or_devices (id ∷ ids) devices = id ∷ ids

-- The lanes of the energy store: the cards that were sampled, or else those of the settings.
unfoldable pub energy_lanes : History → Config → List ℤ
energy_lanes h c = or_devices (map (λ (s : GpuSample). s.gpu_id) (latest h)) c.gpus.devices

-- `Manager.Start`: it goes on to the next backend where one does not start.
unfoldable pub start_all : ℕ → (ℕ → Option ℤ) → ℕ → List Watch → List Watch
start_all now spawn i [] = []
start_all now spawn i (w ∷ ws) = (start_one now (spawn i) w).0 ∷ start_all now spawn (suc i) ws

-- The parts of a node whose backends are started; no health loop, poll or listener has run yet.
pub record Parts : Type 0 where
  pub watches : List Watch
  pub registry : Registry
  pub events : Log
  pub prompts : PromptStore
  pub cors : Option Cors
  pub max_in_flight : ℤ

build_registry : Environment → Config → String → List Watch → PromptStore → Registry
build_registry env c hostname ws prompts = record {
  node_id = node_id_of env c.node.id;
  local_model = c.model.name;
  backends = map (λ (w : Watch). w.backend.state) ws;
  peers = map new_peer_state c.peers.hosts;
  power = some (
      power_reading env.plus
        (record { history = new_history; power_available = some env.power_available }));
  energy = none;
  hostname = hostname;
  listen_addr = listen_addr_for env.itoa hostname c.server.port;
  prompt_history = prompts.max;
  version = env.version;
}

build : Environment → Config → String → Parts
unfolding build_registry
build env c hostname =
    let ws = start_all env.spawned_at env.spawn 0 (new_manager env.itoa append c) in
    let prompts = new_prompt_store c.activity.prompt_history in
    record {
      watches = ws;
      registry = build_registry env c hostname ws prompts;
      events = new_log c.activity.event_history;
      prompts = prompts;
      cors = cors_of c.server.cors;
      max_in_flight = c.balancer.max_in_flight_per_backend;
    }

launched : Environment → Config → Option String → Option Parts
unfolding build
launched env c none = none
launched env c (some hostname) = some (build env c hostname)

-- Without a name for the host the command ends.
unfoldable pub launch : Environment → Config → Option Parts
unfolding launched
launch env c = launched env c (hostname_of env c.node.hostname)
