-- ===== src/Httpx.antt =====
-- internal/httpx: the transports and the response buffer that the other packages share.
pub mod Breaker
pub mod Capture
pub mod Headers
pub mod Hops
pub mod Retry
