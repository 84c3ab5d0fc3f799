-- ===== src/Middleware.antt =====
-- internal/middleware: what stands between the server and the federation.
pub mod Auth
pub mod Authz
pub mod Cache
pub mod RateLimit
