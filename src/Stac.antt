-- ===== src/Stac.antt =====
-- internal/stac: the documents that the federation passes on, and the link that marks the origin a
-- document came from.
pub mod Item
pub mod Cql2
