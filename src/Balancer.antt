-- ===== src/Balancer.antt =====
-- internal/balancer: the load of each local backend, and the choice of the one to serve next.
pub mod State
pub mod Pick
