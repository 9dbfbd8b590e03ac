-- ===== src/Freetoken/Manager/Turns.antt =====
-- internal/freetoken/manager.go: `checkOne`, `respawn`, `Stop` and `Start` of one backend, cut where
-- other goroutines may come between: at each lock that is given back and at each atomic load or store.
-- A probe is one turn: of what the request path writes it reads the number in flight alone, and that
-- once. So is `Start`, which holds the lock to its end. The log and the feed are left out.
use viiwork_freetoken.Prelude.{
  ℕ, suc, Bool, true, false, not, ◌&&◌, ◌||◌, Option, none, some, ℤ, pos, ltb_ℤ, leb_ℤ,
  if◌then◌else◌,
}
use viiwork_freetoken.Balancer.State.{BackendStatus, healthy, unhealthy, dead, take_hard_failure}
use viiwork_freetoken.Balancer.Pick.{is_healthy}
use viiwork_freetoken.Config.{HealthConfig}
use viiwork_freetoken.Freetoken.Backend.{
  Backend, Process, Answers, StartError, start, uptime, probe,
}
use viiwork_freetoken.Freetoken.Manager.{with_status, is_starting, is_dead, count_failure}

-- Where the goroutine that checks a backend stands, with its local variables: the status that it read,
-- the latch and the number of failures.
pub data Phase : Type 0 where
  idle promoting respawning stopping killing spawning condemned : Phase
  judging : Bool → Phase
  reading : BackendStatus → Phase
  deciding : BackendStatus → Bool → ℕ → Phase
  demoting counting : Bool → ℕ → Phase

unfoldable pub judged : Backend × Bool → Phase × Backend
judged (b, ok) = (judging ok, b)

unfoldable pub stopped : Option Process → Backend → Phase × Backend
stopped none b = (spawning, b)
stopped (some _) b = (killing, record b { cmd = none })

unfoldable pub respawned : Backend × Option StartError → Phase × Backend
respawned (b, none) = (idle, b)
respawned (b, some _) = (condemned, b)

-- Patience ends with the startup timeout only.
unfoldable pub after_loading : ℕ → Backend → Phase
after_loading now b =
    if ltb_ℤ b.engine.startup_timeout (pos (uptime now b)) then respawning else idle

unfoldable pub after_serving : BackendStatus → Bool → ℕ → Phase
after_serving prev hard failures =
    if is_healthy prev then demoting hard failures else counting hard failures

-- One turn of the goroutine.
unfoldable pub advance : HealthConfig → ℕ → Option ℤ → Answers → Phase → Backend → Phase × Backend
unfolding judged stopped respawned after_loading after_serving
advance cfg now spawn a idle b = if is_dead b.state.status then (idle, b) else judged (probe a b)
advance cfg now spawn a (judging true) b =
    (if is_healthy b.state.status then idle else promoting, record b { failures = 0 })
advance cfg now spawn a (judging false) b = (reading b.state.status, b)
advance cfg now spawn a promoting b = (idle, with_status healthy b)
advance cfg now spawn a (reading prev) b =
    (deciding prev (take_hard_failure b.state).0 (suc b.failures), count_failure b)
advance cfg now spawn a (deciding prev hard failures) b = (
  if is_starting prev && not hard then after_loading now b else after_serving prev hard failures,
  b,
)
advance cfg now spawn a (demoting hard failures) b =
    (counting hard failures, with_status unhealthy b)
advance cfg now spawn a (counting hard failures) b =
    (if hard || leb_ℤ cfg.failure_threshold (pos failures) then respawning else idle, b)
advance cfg now spawn a respawning b =
    if leb_ℤ cfg.max_respawns (pos b.respawns)
    then (condemned, b)
    else (stopping, record b { respawns = suc b.respawns })
advance cfg now spawn a condemned b = (idle, with_status dead b)
advance cfg now spawn a stopping b = stopped b.cmd b
advance cfg now spawn a killing b = (spawning, with_status dead b)
advance cfg now spawn a spawning b = respawned (start now spawn b)

-- A backend, where its check stands, and the requests that have set its latch and not yet its status.
pub record Life : Type 0 where
  pub phase : Phase
  pub backend : Backend
  pub breaking : ℕ

abbrev turned : ℕ → Phase × Backend → Life
turned n (p, b) = record { phase = p; backend = b; breaking = n }

unfoldable pub turn : HealthConfig → ℕ → Option ℤ → Answers → Life → Life
turn cfg now spawn a l = turned l.breaking (advance cfg now spawn a l.phase l.backend)

-- The two stores of `NoteHardFailure`.
unfoldable pub latch : Life → Life
latch l = record l {
  backend = record l.backend { state = record l.backend.state { hard_failure = true } };
  breaking = suc l.breaking;
}

unfoldable pub mark : ℕ → Life → Life
mark n l = record l { backend = with_status unhealthy l.backend; breaking = n }
