-- ===== src/Peer.antt =====
-- internal/peer: what the node knows of its peers, and where a request for a model goes.
pub mod State
pub mod Route
pub mod Registry
pub mod Report
pub mod Cluster
