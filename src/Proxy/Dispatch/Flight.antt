-- ===== src/Proxy/Dispatch/Flight.antt =====
-- What serving a request leaves alone (internal/proxy/streaming.go).
use viiwork_freetoken.Prelude.{ℕ, ◌≡◌, arith}
use viiwork_freetoken.Balancer.State.{BackendState, note_hard_failure, record_latency, evict_locked}
use viiwork_freetoken.Proxy.Dispatch.{Upstream, served}

pub served-in_flight :
    (now dur : ℕ) (u : Upstream) (b : BackendState) → (served now dur u b).in_flight ≡ b.in_flight
unfolding served note_hard_failure record_latency evict_locked
served-in_flight now dur u b = ground arith
