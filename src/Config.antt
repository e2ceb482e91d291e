-- ===== src/Config.antt =====
-- compose/config: reading, merging and checking of Compose files.
pub mod Value
pub mod Interpolation
pub mod Merge
pub mod Extends
pub mod Files
pub mod Validation
pub mod Environment
pub mod Types
pub mod Volumes
pub mod SortServices
