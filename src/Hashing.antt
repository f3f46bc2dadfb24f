-- ===== src/Hashing.antt =====
-- The texts that are hashed to tell whether a reference has changed: app/services/hash. The digest
-- is a function of them and is left to the converters' interface.
pub mod Rdf
pub mod Xml
pub mod Reordering
mod Tests
