-- ===== src/Examples.antt =====
-- The theorems applied to concrete states of a node.
mod Load
pub mod Settings
mod Engine
pub mod Mesh
mod Feed
mod Output
mod Request
mod Cards
mod Pages
mod Pools
mod Dashboard
mod Client
mod Asked
mod Started
mod Fanout
mod Polled
