-- ===== src/Chunking.antt =====
-- The chunking of a snapshot: app/chunking and app/services/chunking.py.
pub mod Worker
pub mod Columns
pub mod Files
pub mod Publish
pub mod Process
