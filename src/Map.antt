-- ===== src/Map.antt =====
-- runtime/src/map and runtime/src/collective: the site map, the binary file that holds it, the
-- builder, the reads over it, the search for a path, and the deltas between two versions.
pub mod Kinds
pub mod Types
pub mod Utf8
pub mod Crc
pub mod Bytes
pub mod Serializer
pub mod Deserializer
pub mod Floats
pub mod Clusters
pub mod Builder
pub mod Build
pub mod Reader
pub mod Queries
pub mod Nearest
pub mod Paths
pub mod Examples
