-- ===== src/Proxy.antt =====
-- internal/proxy: the request path.
pub mod Dispatch
pub mod Request
pub mod Headers
pub mod Stream
pub mod Cors
pub mod Capture
pub mod HostMemory
pub mod PromptPages
pub mod MeshStream
pub mod Relay
pub mod Serve
pub mod PromptText
pub mod Metrics
pub mod MeshPort
