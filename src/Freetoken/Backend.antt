-- ===== src/Freetoken/Backend.antt =====
-- internal/freetoken/backend.go: one supervised engine process.
-- The operating system and the engine's HTTP answers are arguments: whether a spawn succeeds and with
-- which process id, and what a probe reads. The goroutine that waits for the process shows in
-- `exited`. A lock is left out: a method is one step on the record.
pub mod Context
pub mod Probe
pub mod Spawn
pub mod Wire
use viiwork_freetoken.Prelude.{
  ℕ, ◌-◌, Bool, true, false, not, ◌&&◌, ◌||◌, List, [], ◌∷◌, ◌++◌, Option, none, some, String,
  str_eq, ℤ, pos, ◌-ℤ◌, ltb_ℤ, eqb_ℤ, if◌then◌else◌,
}
use viiwork_freetoken.Balancer.State.{starting, dead, BackendState, set_status, set_scheduler_stats}
use viiwork_freetoken.Config.{Float64, ModelConfig, FreetokenConfig}
use viiwork_freetoken.Freetoken.Stats.{PoolName, StatsDoc, Stats, parse_stats}
use viiwork_freetoken.Freetoken.Health.{
  Health, no_health, ready, parse_health, ModelDoc, parse_context_len, Geometry, parse_kv_capacity,
}

pub record Process : Type 0 where
  pub pid : ℤ
  pub exited : Bool

pub record Backend : Type 0 where
  pub gpu_ids : List ℤ
  pub port : ℤ
  pub model : ModelConfig
  pub engine : FreetokenConfig
  pub state : BackendState
  pub cmd : Option Process
  pub started : Option ℕ
  pub respawns : ℕ
  pub failures : ℕ
  pub health : Health
  pub gpu_uuid : String
  pub ctx_learned : Bool

unfoldable pub new_backend : List ℤ → ℤ → ModelConfig → FreetokenConfig → BackendState → Backend
new_backend gpu_ids port model engine state = record {
  gpu_ids = gpu_ids;
  port = port;
  model = model;
  engine = engine;
  state = state;
  cmd = none;
  started = none;
  respawns = 0;
  failures = 0;
  health = no_health;
  gpu_uuid = "";
  ctx_learned = false;
}

-- The words that are always there. `strconv.Itoa` and `strconv.FormatFloat` are the arguments `itoa`
-- and `format_float`.
abbrev base_args : (ℤ → String) → (Float64 → String) → Backend → List String
base_args itoa format_float b =
    "serve"
    ∷ "--model"
    ∷ b.model.path
    ∷ "--host"
    ∷ "127.0.0.1"
    ∷ "--port"
    ∷ itoa b.port
    ∷ "--served-model-name"
    ∷ b.model.name
    ∷ "--memory-ratio"
    ∷ format_float b.engine.memory_ratio
    ∷ "--max-running-requests"
    ∷ itoa b.engine.max_running_requests
    ∷ []

abbrev length_args : (ℤ → String) → Backend → List String
length_args itoa b =
    if ltb_ℤ (pos 0) b.engine.max_seq_len
    then "--max-seq-len-override" ∷ itoa b.engine.max_seq_len ∷ []
    else []

abbrev moe_args : Backend → List String
moe_args b =
    if not (str_eq b.engine.moe_backend "") then "--moe-backend" ∷ b.engine.moe_backend ∷ [] else []

unfoldable pub args : (ℤ → String) → (Float64 → String) → Backend → List String
args itoa format_float b =
    base_args itoa format_float b ++ (length_args itoa b ++ (moe_args b ++ b.engine.extra_args))

-- A variable of the environment and its value; `gpu_spec` is the list of the cards.
unfoldable pub env : String → List (String × String) → List (String × String)
env gpu_spec inherited =
    inherited ++ ("CUDA_DEVICE_ORDER", "PCI_BUS_ID") ∷ ("CUDA_VISIBLE_DEVICES", gpu_spec) ∷ []

abbrev pub is_running : Option Process → Bool
is_running none = false
is_running (some p) = not p.exited

pub data StartError : Type 0 where
  already_running spawn_failed : StartError

-- What `cmd.Start` comes back with: the process id, or nothing.
spawned : ℕ → ℤ → Backend → Backend
spawned now pid b = record b {
  cmd = some (record { pid = pid; exited = false });
  started = some now;
  failures = 0;
  health = no_health;
  ctx_learned = false;
  state = record b.state {
    status = starting;
    max_model_len = b.engine.max_seq_len;
    max_num_seqs = b.engine.max_running_requests;
  };
}

start_with : ℕ → Option ℤ → Backend → Backend × Option StartError
start_with now none b = (b, some spawn_failed)
start_with now (some pid) b = (spawned now pid b, none)

unfoldable pub start : ℕ → Option ℤ → Backend → Backend × Option StartError
unfolding start_with spawned
start now spawn b = if is_running b.cmd then (b, some already_running) else start_with now spawn b

-- With no process at hand `Stop` returns at once; else the process group is gone when it returns.
unfoldable pub stop_process : Option Process → Backend → Backend
stop_process none b = b
stop_process (some _) b = record b { cmd = none; state = set_status dead b.state }

unfoldable pub stop : Backend → Backend
unfolding stop_process set_status
stop b = stop_process b.cmd b

since : ℕ → Option ℕ → ℕ
since now none = 0
since now (some at) = now - at

unfoldable pub uptime : ℕ → Backend → ℕ
unfolding since
uptime now b = since now b.started

-- What the engine answers to a probe; `none` is any failure of a read;
-- `pool_order` is the order in which Go visits the map of the pools.
pub record Answers : Type 0 where
  pub health : Option Health
  pub stats : Option StatsDoc
  pub pool_order : List PoolName
  pub models : Option (List ModelDoc)
  pub cache : Option Geometry
  pub rss_mb : ℤ

refresh_with : Option Stats → Backend → Backend
refresh_with none b = b
refresh_with (some st) b =
    let waiting = b.state.in_flight -ℤ st.num_running in
    record b {
      gpu_uuid = st.gpu_uuid;
      state =
          set_scheduler_stats st.num_running (if ltb_ℤ waiting (pos 0) then pos 0 else waiting)
            st.cache_pct b.state;
    }

unfoldable pub refresh_stats : Answers → Backend → Backend
unfolding refresh_with set_scheduler_stats
refresh_stats a b = refresh_with (parse_stats a.pool_order a.stats) b

abbrev context_limit : Option ℤ → ℤ
context_limit none = pos 0
context_limit (some n) = n

narrow : ℤ → Option ℤ → ℤ
narrow limit none = limit
narrow limit (some n) = if eqb_ℤ limit (pos 0) || ltb_ℤ n limit then n else limit

publish_limit : ℤ → Backend → Backend
publish_limit limit b =
    if ltb_ℤ (pos 0) limit then record b { state = record b.state { max_model_len = limit } } else b

unfoldable pub learn_context_len : Answers → Backend → Backend
unfolding narrow publish_limit
learn_context_len a b =
    if ltb_ℤ (pos 0) b.engine.max_seq_len
    then b
    else if b.ctx_learned
    then b
    else publish_limit
        (narrow (context_limit (parse_context_len a.models)) (parse_kv_capacity a.cache))
        (record b { ctx_learned = true })

-- The new reading takes the old one's place; leaving a maintenance state voids the learned context.
note_health : Health → Backend → Backend
note_health h b = record b {
  health = h;
  ctx_learned =
      if not (str_eq b.health.maintenance "")
        && not (str_eq b.health.maintenance "serving")
        && ready h
      then false
      else b.ctx_learned;
}

unfoldable pub probe : Answers → Backend → Backend × Bool
unfolding note_health refresh_stats learn_context_len
probe a b =
    let (h, fine) = parse_health a.health in
    let noted = note_health h b in
    let served = learn_context_len a (refresh_stats a noted) in
    if not fine || not (ready h)
    then (noted, false)
    else (record served { state = record served.state { rss_mb = a.rss_mb } }, true)
