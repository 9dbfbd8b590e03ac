-- ===== src/Freetoken/Manager/Life.antt =====
-- The life of a backend (internal/freetoken/manager.go) between its start and the end of the node:
-- the turns of the goroutine that checks it, and what other goroutines do between any two of them.
use viiwork_freetoken.Prelude.{
  ℕ, suc, ◌≡◌, ◌≢◌, ◌⊎◌, inl, inr, true, Option, none, some, ℤ, pos, ◌≤ℤ◌, leb_ℤ, Bool-cases, arith,
}
use viiwork_freetoken.Balancer.State.{starting, healthy}
use viiwork_freetoken.Config.{HealthConfig}
use viiwork_freetoken.Freetoken.Backend.{Backend, Process, Answers}
use viiwork_freetoken.Freetoken.Manager.{Watch, start_one}
use viiwork_freetoken.Freetoken.Manager.Turns.{
  Phase, idle, promoting, respawning, stopping, killing, spawning, condemned, judging, reading,
  deciding, demoting, counting, advance, Life, turn, latch, mark,
}

-- While it is starting there is a process, while it is healthy no failure is counted.
abbrev pub IsSpawned : Backend → Type 0
IsSpawned b = b.state.status ≡ starting → b.cmd ≢ none

abbrev pub IsClean : Backend → Type 0
IsClean b = b.state.status ≡ healthy → b.failures ≡ 0

abbrev pub IsTakenOut : Backend → Type 0
IsTakenOut b = b.state.status ≢ healthy

-- What holds of the backend where its check stands.
abbrev pub Holds : Phase → Backend → Type 0
Holds idle b = IsClean b × IsSpawned b
Holds (judging ok) b = IsClean b × IsSpawned b
Holds promoting b = (b.failures ≡ 0) × IsSpawned b
Holds (reading prev) b = (b.state.status ≡ healthy → prev ≡ healthy) × IsClean b × IsSpawned b
Holds (deciding prev hard n) b = (b.state.status ≡ healthy → prev ≡ healthy) × IsSpawned b
Holds (demoting hard n) b = IsSpawned b
Holds (counting hard n) b = IsTakenOut b × IsSpawned b
Holds respawning b = IsTakenOut b × IsSpawned b
Holds stopping b = IsTakenOut b × IsSpawned b
Holds condemned b = IsTakenOut b
Holds killing b = IsTakenOut b × (b.cmd ≡ none)
Holds spawning b = IsTakenOut b × (b.state.status ≢ starting) × (b.cmd ≡ none)

pub record InBudget (cfg : HealthConfig) (p : Phase) (b : Backend) : Type 0 where
  pub respawns_bounded : (b.respawns ≡ 0) ⊎ (pos b.respawns ≤ℤ cfg.max_respawns)
  pub holds : Holds p b

-- The request path changed the number in flight.
abbrev pub with_in_flight : ℤ → Life → Life
with_in_flight n l = record l {
  backend = record l.backend { state = record l.backend.state { in_flight = n } };
}

-- The goroutine that waits for the process saw it exit.
abbrev pub exited : Process → Life → Life
exited p l = record l { backend = record l.backend { cmd = some (record p { exited = true }) } }

pub data Step (cfg : HealthConfig) : Life → Life → Type 0 where
  turns :
      (now : ℕ) (spawn : Option ℤ) (a : Answers) (l : Life) → Step cfg l (turn cfg now spawn a l)
  serves : (n : ℤ) (l : Life) → Step cfg l (with_in_flight n l)
  latches : (l : Life) → Step cfg l (latch l)
  marks : (n : ℕ) (l : Life) → l.breaking ≡ suc n → Step cfg l (mark n l)
  exits : (p : Process) (l : Life) → l.backend.cmd ≡ some p → Step cfg l (exited p l)

-- What can become of a backend that was never started before.
pub data Reach (cfg : HealthConfig) : Life → Type 0 where
  starts :
      (now : ℕ) (spawn : Option ℤ) (w : Watch)
      → w.backend.respawns ≡ 0
      → w.backend.cmd ≡ none
      → Reach cfg
          (record { phase = idle; backend = (start_one now spawn w).0.backend; breaking = 0 })
  continues : {l m : Life} → Reach cfg l → Step cfg l m → Reach cfg m

-- The turns, by where the check stands.
module _ (cfg : HealthConfig) (now : ℕ) (spawn : Option ℤ) (a : Answers) (b : Backend) where
  abbrev Kept : Phase → Type 0
  Kept p =
      InBudget cfg p b
      → InBudget cfg (advance cfg now spawn a p b).0 (advance cfg now spawn a p b).1

  respawns : Kept respawning
  unfolding advance
  respawns h = elim (Bool-cases (leb_ℤ cfg.max_respawns (pos b.respawns))) [
    | inl e ↦ rw e (record { respawns_bounded = h.respawns_bounded; holds = h.holds.0 })
    | inr e ↦ rw e (record { respawns_bounded = inr (ground arith); holds = h.holds })
  ]
