-- ===== src/Sources.antt =====
-- The harvesters and converters of single sources: app/harvesters.
pub mod Idref
pub mod Roles
pub mod DocumentTypes
pub mod Hal
