-- ===== src/Freetoken/Manager/Latch.antt =====
-- What the latch of a hard failure does beyond the process that it is about
-- (internal/freetoken/manager.go, internal/balancer/state.go).
use viiwork_freetoken.Prelude.{ℕ, ◌≡◌, ap, true, List, Option, String, ℤ}
use viiwork_freetoken.Balancer.State.{healthy, dead, note_hard_failure}
use viiwork_freetoken.Config.{HealthConfig}
use viiwork_freetoken.Freetoken.Backend.{Answers, probe}
use viiwork_freetoken.Freetoken.Manager.{Watch, tick_one, is_dead}
use viiwork_freetoken.Freetoken.Manager.Verdict.{check_one-Judged}

-- A request that saw the connection break, with both stores of `NoteHardFailure`.
abbrev pub broken : Watch → Watch
broken w = record w { backend = record w.backend { state = note_hard_failure w.backend.state } }

-- A break that a request reports after a backend was given up makes it unhealthy, so that the next
-- tick checks it again: if its process still answers, it is healthy, with its respawns as they were.
pub tick_one_revives :
    (cfg : HealthConfig) (uuids : List (ℤ × String)) (now : ℕ) (spawn : Option ℤ) (a : Answers)
    (w : Watch)
    → w.backend.state.status ≡ dead
    → (probe a (broken w).backend).1 ≡ true
    → ((tick_one cfg uuids now spawn a w).0 ≡ w)
      × ((tick_one cfg uuids now spawn a (broken w)).0.backend.state.status ≡ healthy)
      × ((tick_one cfg uuids now spawn a (broken w)).0.backend.respawns ≡ w.backend.respawns)
unfolding tick_one note_hard_failure
tick_one_revives cfg uuids now spawn a w d e =
    let (s, f, same) = (check_one-Judged cfg uuids now spawn a (broken w)).passes e in
    let skipped : is_dead w.backend.state.status ≡ true = ap is_dead d in (rw skipped, s, same.2)
