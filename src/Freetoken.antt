-- ===== src/Freetoken.antt =====
-- internal/freetoken: the engine processes, one per card, and their supervision.
pub mod Health
pub mod Backend
pub mod Prefix
pub mod Manager
pub mod Stats
