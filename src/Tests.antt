-- ===== src/Tests.antt =====
-- Examples: each property applied to concrete values.
pub mod Sample
pub mod Input
pub mod Provider
pub mod Record
pub mod Store
pub mod Adoption
pub mod Secrets
pub mod Identity
pub mod KeyOps
pub mod Hops
pub mod Update
pub mod Change
