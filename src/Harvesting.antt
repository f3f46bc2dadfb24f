-- ===== src/Harvesting.antt =====
-- The harvesting of one source for one entity.
pub mod Model
pub mod Dao
pub mod Recorder
pub mod Converter
pub mod World
pub mod Harvester
pub mod Sample
mod Tests
