-- ===== src/Collective.antt =====
-- runtime/src/collective: the deltas between two versions of a site map, and what is stripped
-- before a map is shared.
pub mod Hash
pub mod Delta
pub mod Strip
pub mod Apply
pub mod Examples
