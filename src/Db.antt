-- ===== src/Db.antt =====
-- db/: schemas and their layout, the document storage, the hash index and the database.
pub mod Schema
pub mod Layout
pub mod Storage
pub mod Collection
pub mod Database
