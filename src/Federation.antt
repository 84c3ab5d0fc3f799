-- ===== src/Federation.antt =====
-- internal/federation: one answer out of many origins.
pub mod Cursor
pub mod Merger
pub mod Status
pub mod Pagination
pub mod Router
pub mod LinkHeader
pub mod Adapters
