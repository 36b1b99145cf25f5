-- ===== src/Proxy.antt =====
-- internal/proxy: the proxy between an agent and a provider.
pub mod Streaming
pub mod Json
pub mod Payload
pub mod Retry
pub mod Admission
pub mod Director
pub mod Capture
pub mod Account
pub mod RoundTrip
pub mod Cloud
pub mod Keys
pub mod Shadow
