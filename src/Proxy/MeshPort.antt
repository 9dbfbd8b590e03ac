-- ===== src/Proxy/MeshPort.antt =====
-- internal/proxy/meshport.go: the loop of `ServeMeshPort`, and the nodes of one host that contend for
-- the port. A node is where its loop stands. That the operating system gives a port to one listener at
-- a time is the premise of `binds`. The cancellation of the context is one step to the return, with the
-- end of a listener by then.
pub mod Contended
use viiwork_freetoken.Prelude.{ℕ, ◌≢◌, Bool, true, false, ℤ, pos, leb_ℤ, ◌==◌, if◌then◌else◌}

pub data Phase : Type 0 where
  trying waiting serving returned : Phase

-- `net.Listen` fails or binds, the wait is over, `srv.Serve` comes back, the context is done.
pub data Outcome : Type 0 where
  taken bound retried stopped cancelled : Outcome

unfoldable pub start_mesh_port : ℤ → Phase
start_mesh_port port = if leb_ℤ port (pos 0) then returned else trying

-- An outcome that cannot come at a phase leaves it as it is.
unfoldable pub step : Outcome → Phase → Phase
step cancelled p = returned
step taken trying = waiting
step bound trying = serving
step retried waiting = trying
step stopped serving = trying
step taken waiting = waiting
step taken serving = serving
step taken returned = returned
step bound waiting = waiting
step bound serving = serving
step bound returned = returned
step retried trying = trying
step retried serving = serving
step retried returned = returned
step stopped trying = trying
step stopped waiting = waiting
step stopped returned = returned

abbrev pub Host : Type 0
Host = ℕ → Phase

abbrev pub at : ℕ → Outcome → Host → Host
at i o h j = if j == i then step o (h i) else h j

-- One outcome at one node; the port is bound by a node only while no other serves it.
pub data Step : Host → Host → Type 0 where
  binds : (i : ℕ) (h : Host) → ((j : ℕ) → h j ≢ serving) → Step h (at i bound h)
  other : (i : ℕ) (o : Outcome) (h : Host) → o ≢ bound → Step h (at i o h)

pub data Steps : Host → Host → Type 0 where
  done : (h : Host) → Steps h h
  next : {h g k : Host} → Step h g → Steps g k → Steps h k
