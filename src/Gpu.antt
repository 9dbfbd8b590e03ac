-- ===== src/Gpu.antt =====
-- internal/gpu: the telemetry of the cards.
pub mod History
pub mod Readings
pub mod Watts
pub mod Broadcaster
