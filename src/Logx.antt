-- ===== src/Logx.antt =====
-- internal/logx: log helpers.
pub mod Throttle
