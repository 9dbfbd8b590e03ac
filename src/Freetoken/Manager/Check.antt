-- ===== src/Freetoken/Manager/Check.antt =====
-- One check of one backend (internal/freetoken/manager.go), case by case.
use viiwork_freetoken.Prelude.{
  ℕ, suc, ◌≡◌, ◌≢◌, ◌⊎◌, refl, ap, ◌∙◌, Bool, true, false, List, Option, none, some, String, ℤ, pos,
  ◌≤ℤ◌, ◌<ℤ◌, arith,
}
use viiwork_freetoken.Balancer.State.{
  BackendStatus, starting, healthy, unhealthy, dead, set_status, take_hard_failure,
}
use viiwork_freetoken.Config.{HealthConfig}
use viiwork_freetoken.Freetoken.Backend.{Backend, start, stop, uptime}
use viiwork_freetoken.Freetoken.Manager.{
  Watch, Event, respawn, passed, failed, wait, strike, demote, count_failure, note_progress,
}

-- What became of the backend `b`, at its limit of respawns or below it.
abbrev pub Respawned : HealthConfig → ℕ → Option ℤ → Backend → Backend → Type 0
Respawned cfg now spawn b c =
    (cfg.max_respawns ≤ℤ pos b.respawns
      → (c.respawns ≡ b.respawns) × (c.state.status ≡ dead) × (c.cmd ≡ b.cmd))
    × (pos b.respawns <ℤ cfg.max_respawns
        → (c.respawns ≡ suc b.respawns)
          × (spawn ≡ none → (c.state.status ≡ dead) × (c.cmd ≡ none))
          × ((pid : ℤ)
              → spawn ≡ some pid
              → (c.state.status ≡ starting)
                × (c.cmd ≡ some (record { pid = pid; exited = false }))
                × (c.started ≡ some now)
                × (c.failures ≡ 0)))

pub respawn-Respawned :
    (cfg : HealthConfig) (now : ℕ) (spawn : Option ℤ) (b : Backend)
    → Respawned cfg now spawn b (respawn cfg now spawn b).0
unfolding respawn start stop set_status
respawn-Respawned cfg now spawn b =
    (λ h. ground arith, λ h. (ground arith, (λ e. ground arith), λ pid e. ground arith))

-- The process stays, and so does the number of respawns.
abbrev pub SameRun : Backend → Backend → Type 0
SameRun b c = (c.cmd ≡ b.cmd) × (c.started ≡ b.started) × (c.respawns ≡ b.respawns)

pub passed_lem :
    (uuids : List (ℤ × String)) (b : Backend)
    → let c = (passed uuids b).0 in (c.state.status ≡ healthy) × (c.failures ≡ 0) × SameRun b c
unfolding passed set_status
passed_lem uuids b = (ground arith, ground arith, (ground arith, ground arith, ground arith))

-- The status after one more failure that does not bring a respawn.
abbrev pub demoted : BackendStatus → BackendStatus
demoted healthy = unhealthy
demoted s = s

pub wait_lem :
    (cfg : HealthConfig) (now : ℕ) (spawn : Option ℤ) (w : Watch)
    → let c = (wait cfg now spawn w).0.backend in
      (pos (uptime now w.backend) ≤ℤ w.backend.engine.startup_timeout → c ≡ w.backend)
      × (w.backend.engine.startup_timeout <ℤ pos (uptime now w.backend)
          → c ≡ (respawn cfg now spawn w.backend).0)
unfolding wait note_progress
wait_lem cfg now spawn w = (λ h. ground arith, λ h. ground arith)

pub demote_lem :
    (b : Backend)
    → let c = (demote b).0 in
      (c.state.status ≡ demoted b.state.status) × (c.failures ≡ b.failures) × SameRun b c
unfolding demote set_status
demote_lem b = (ground arith, ground arith, (ground arith, ground arith, ground arith))

pub strike_lem :
    (cfg : HealthConfig) (now : ℕ) (spawn : Option ℤ) (hard : Bool) (d : Backend × List Event)
    → let c = (strike cfg now spawn hard d).0 in
      (hard ≡ false → pos d.0.failures <ℤ cfg.failure_threshold → c ≡ d.0)
      × ((hard ≡ true) ⊎ (cfg.failure_threshold ≤ℤ pos d.0.failures)
          → c ≡ (respawn cfg now spawn d.0).0)
unfolding strike
strike_lem cfg now spawn hard d = (λ h k. ground arith, λ h. ground arith)

pub failed_waits :
    (cfg : HealthConfig) (now : ℕ) (spawn : Option ℤ) (hard : Bool) (w : Watch)
    → w.backend.state.status ≡ starting
    → hard ≡ false
    → (failed cfg now spawn hard w).0.backend ≡ (wait cfg now spawn w).0.backend
unfolding failed
failed_waits cfg now spawn hard w s h = ground arith

pub failed_strikes :
    (cfg : HealthConfig) (now : ℕ) (spawn : Option ℤ) (hard : Bool) (w : Watch)
    → (hard ≡ true) ⊎ (w.backend.state.status ≢ starting)
    → (failed cfg now spawn hard w).0.backend ≡ (strike cfg now spawn hard (demote w.backend)).0
unfolding failed
failed_strikes cfg now spawn hard w h = ground arith

pub respawn-latch :
    (cfg : HealthConfig) (now : ℕ) (spawn : Option ℤ) (b : Backend)
    → (respawn cfg now spawn b).0.state.hard_failure ≡ b.state.hard_failure
unfolding respawn start stop set_status
respawn-latch cfg now spawn b = ground arith

-- With the failure counted the process is the same, the latch clear and the status as before.
pub counted_lem :
    (b : Backend)
    → let c = count_failure b in
      SameRun b c
      × (c.state.status ≡ b.state.status)
      × (c.failures ≡ suc b.failures)
      × (c.state.hard_failure ≡ false)
unfolding count_failure take_hard_failure
counted_lem b = ((refl, refl, refl), refl, refl, refl)

-- A respawn looks at the count of respawns and at the process only.
pub Respawned-of :
    (cfg : HealthConfig) (now : ℕ) (spawn : Option ℤ) (b d c : Backend)
    → SameRun b d
    → c ≡ (respawn cfg now spawn d).0
    → Respawned cfg now spawn b c
Respawned-of cfg now spawn b d c (cmd, started, respawns) e =
    let (at, below) = respawn-Respawned cfg now spawn d in
    rw e (
      (λ h. let k = at (rw respawns h) in (k.0 ∙ respawns, k.1, k.2 ∙ cmd)),
      (λ h. let k = below (rw respawns h) in (k.0 ∙ ap suc respawns, k.1, k.2)),
    )
