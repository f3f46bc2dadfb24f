-- ===== src/Publications.antt =====
-- The objects that references share, apart from contributors: document types, issues, journals and
-- books. Each has its model in app/db/models, its look-ups in app/db/daos and its
-- `_get_or_create_…` method in app/harvesters/abstract_references_converter.py.
pub mod DocumentTypes
pub mod Issues
pub mod Journals
pub mod Books
mod Tests
