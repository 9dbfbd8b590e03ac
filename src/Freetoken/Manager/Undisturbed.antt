-- ===== src/Freetoken/Manager/Undisturbed.antt =====
-- The check of a backend (internal/freetoken/manager.go) while no other goroutine comes between.
use viiwork_freetoken.Prelude.{ℕ, ◌≡◌, List, Option, ℤ}
use viiwork_freetoken.Config.{HealthConfig}
use viiwork_freetoken.Freetoken.Backend.{Backend, Answers}
use viiwork_freetoken.Freetoken.Manager.{Event}
use viiwork_freetoken.Freetoken.Manager.Turns.{Phase, idle, advance}

-- Turns of the check, one after another.
pub data Runs (cfg : HealthConfig) (now : ℕ) (spawn : Option ℤ) (a : Answers)
    : Phase × Backend → Phase × Backend → Type 0 where
  ends : {s : Phase × Backend} → Runs cfg now spawn a s s
  goes :
      {p : Phase} {b : Backend} {s t : Phase × Backend}
      → advance cfg now spawn a p b ≡ s
      → Runs cfg now spawn a s t
      → Runs cfg now spawn a (p, b) t

abbrev first_of : Backend × List Event → Backend
first_of r = r.0

module _ (cfg : HealthConfig) (now : ℕ) (spawn : Option ℤ) (a : Answers) where
  abbrev To : Phase × Backend → Backend → Type 0
  To s b = Runs cfg now spawn a s (idle, b)
