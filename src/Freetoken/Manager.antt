-- ===== src/Freetoken/Manager.antt =====
-- internal/freetoken/manager.go: the supervision of the backends.
-- One check of one backend is one step here; Freetoken.Manager.Turns cuts it where others come between.
-- What the engine answers, the instant and whether a spawn
-- succeeds are arguments. A backend is kept with the load phase that the manager last logged for it.
-- Of the log and the activity feed only the events are kept, with their arguments.
pub mod Turns
pub mod Check
pub mod Verdict
pub mod Life
pub mod Undisturbed
pub mod Latch
pub mod Decline
use viiwork_freetoken.Prelude.{
  ℕ, suc, Bool, true, false, not, ◌&&◌, ◌||◌, List, [], ◌∷◌, ◌++◌, map, Option, none, some, String,
  str_eq, ℤ, pos, ltb_ℤ, leb_ℤ, eqb_ℤ, if◌then◌else◌,
}
use viiwork_freetoken.Balancer.State.{
  BackendStatus, starting, healthy, unhealthy, dead, new_backend_state, set_status,
  take_hard_failure,
}
use viiwork_freetoken.Balancer.Pick.{is_healthy}
use viiwork_freetoken.Config.{Config, HealthConfig, BackendSpec, backends}
use viiwork_freetoken.Freetoken.Health.{Description, no_text, describe}
use viiwork_freetoken.Freetoken.Backend.{
  Backend, Answers, StartError, new_backend, start, stop, uptime, probe,
}

pub record Watch : Type 0 where
  pub backend : Backend
  pub last_phase : String

pub data Event : Type 0 where
  became_healthy startup_timed_out became_unhealthy : Event
  started_on spawn_failed : List ℤ → Event
  unhealthy_because progress : Description → Event
  wrong_gpu : String → String → Event
  dead_after : ℕ → Event
  respawning : ℕ → ℤ → Event

-- `strconv.Itoa` is the argument `itoa`.
watch_of : (ℤ → String) → (String → String → String) → Config → BackendSpec → Watch
watch_of itoa append c s = record {
  backend =
      new_backend s.gpu_ids s.port c.model c.freetoken
        (new_backend_state s.gpu_ids (append "127.0.0.1:" (itoa s.port)) c.balancer.latency_window);
  last_phase = "";
}

-- `append` joins two texts.
unfoldable pub new_manager : (ℤ → String) → (String → String → String) → Config → List Watch
unfolding watch_of
new_manager itoa append c = map (watch_of itoa append c) (backends c)

abbrev pub with_status : BackendStatus → Backend → Backend
with_status s b = record b { state = set_status s b.state }

start_result : Watch → Backend × Option StartError → Watch × List Event
start_result w (b, none) = (record w { backend = b }, started_on b.gpu_ids ∷ [])
start_result w (b, some _) =
    (record w { backend = with_status dead b }, spawn_failed b.gpu_ids ∷ [])

-- What `Manager.Start` does for one backend; it goes on to the next in either case.
unfoldable pub start_one : ℕ → Option ℤ → Watch → Watch × List Event
unfolding start_result
start_one now spawn w = start_result w (start now spawn w.backend)

-- The host's map from card to UUID, without repeated cards.
find_uuid : ℤ → List (ℤ × String) → Option String
find_uuid id [] = none
find_uuid id ((j, u) ∷ us) = if eqb_ℤ j id then some u else find_uuid id us

compare_uuid : String → Option String → List Event
compare_uuid got none = []
compare_uuid got (some want) = if str_eq want got then [] else wrong_gpu want got ∷ []

verify_card : String → List (ℤ × String) → List ℤ → List Event
verify_card got uuids (id ∷ []) =
    if str_eq got "" then [] else compare_uuid got (find_uuid id uuids)
verify_card got uuids _ = []

unfoldable pub verify_pinning : List (ℤ × String) → Backend → List Event
unfolding verify_card compare_uuid find_uuid
verify_pinning uuids b = verify_card b.gpu_uuid uuids b.gpu_ids

restarted : Backend × Option StartError → Backend
restarted (b, none) = b
restarted (b, some _) = with_status dead b

unfoldable pub respawn : HealthConfig → ℕ → Option ℤ → Backend → Backend × List Event
unfolding restarted
respawn cfg now spawn b =
    if leb_ℤ cfg.max_respawns (pos b.respawns)
    then (with_status dead b, dead_after b.respawns ∷ [])
    else (
      restarted (start now spawn (stop (record b { respawns = suc b.respawns }))),
      respawning (suc b.respawns) cfg.max_respawns ∷ [],
    )

abbrev pub is_starting : BackendStatus → Bool
is_starting starting = true
is_starting _ = false

abbrev pub is_dead : BackendStatus → Bool
is_dead dead = true
is_dead _ = false

log_progress : Description → Watch → Watch × List Event
log_progress no_text w = (w, [])
log_progress desc w = (
  record w { last_phase = w.backend.health.phase },
  if str_eq w.last_phase w.backend.health.phase then [] else progress desc ∷ [],
)

unfoldable pub note_progress : Watch → Watch × List Event
unfolding log_progress
note_progress w = log_progress (describe w.backend.health) w

-- The branch of a probe that succeeded.
pub passed : List (ℤ × String) → Backend → Backend × List Event
passed uuids b =
    if is_healthy b.state.status
    then (record b { failures = 0 }, [])
    else (with_status healthy (record b { failures = 0 }), became_healthy ∷ verify_pinning uuids b)

abbrev why_unhealthy : Description → Event
why_unhealthy no_text = became_unhealthy
why_unhealthy desc = unhealthy_because desc

-- A backend that is serving is taken out.
pub demote : Backend → Backend × List Event
demote b =
    if is_healthy b.state.status
    then (with_status unhealthy b, why_unhealthy (describe b.health) ∷ [])
    else (b, [])

abbrev after_strike : List Event → Backend × List Event → Backend × List Event
after_strike events (b, more) = (b, events ++ more)

abbrev with_backend : Watch → List Event → Backend × List Event → Watch × List Event
with_backend w events (b, more) = (record w { backend = b }, events ++ more)

-- The failure threshold.
pub strike : HealthConfig → ℕ → Option ℤ → Bool → Backend × List Event → Backend × List Event
strike cfg now spawn hard (b, events) =
    if hard || leb_ℤ cfg.failure_threshold (pos b.failures)
    then after_strike events (respawn cfg now spawn b)
    else (b, events)

-- A backend that is still loading.
pub wait : HealthConfig → ℕ → Option ℤ → Watch → Watch × List Event
wait cfg now spawn w =
    if ltb_ℤ w.backend.engine.startup_timeout (pos (uptime now w.backend))
    then with_backend w (startup_timed_out ∷ []) (respawn cfg now spawn w.backend)
    else note_progress w

-- The branch of a probe that failed, the latch read and cleared and the failure counted.
pub failed : HealthConfig → ℕ → Option ℤ → Bool → Watch → Watch × List Event
failed cfg now spawn hard w =
    if is_starting w.backend.state.status && not hard
    then wait cfg now spawn w
    else with_backend w [] (strike cfg now spawn hard (demote w.backend))

pub count_failure : Backend → Backend
count_failure b = record b { failures = suc b.failures; state = (take_hard_failure b.state).1 }

pub judge :
    HealthConfig → List (ℤ × String) → ℕ → Option ℤ → String → Backend × Bool → Watch × List Event
judge cfg uuids now spawn phase (b, true) =
    let (c, events) = passed uuids b in (record { backend = c; last_phase = phase }, events)
judge cfg uuids now spawn phase (b, false) =
    failed cfg now spawn (take_hard_failure b.state).0
      (record { backend = count_failure b; last_phase = phase })

unfoldable pub check_one :
    HealthConfig → List (ℤ × String) → ℕ → Option ℤ → Answers → Watch → Watch × List Event
unfolding judge failed wait strike demote passed count_failure
check_one cfg uuids now spawn answers w =
    judge cfg uuids now spawn w.last_phase (probe answers w.backend)

-- What `tick` does with one backend; the backends are checked side by side, each by a goroutine of
-- its own.
unfoldable pub tick_one :
    HealthConfig → List (ℤ × String) → ℕ → Option ℤ → Answers → Watch → Watch × List Event
tick_one cfg uuids now spawn answers w =
    if is_dead w.backend.state.status then (w, []) else check_one cfg uuids now spawn answers w

-- What `Shutdown` does with one backend, the first time that it is called.
unfoldable pub shutdown_one : Watch → Watch
shutdown_one w = record w { backend = stop w.backend }
