-- ===== src/Tables.antt =====
-- The queries of app/crud/*.py over the tables.
pub mod Like
pub mod Blobs
pub mod Buckets
pub mod Trash
pub mod Uploads
pub mod Refs
pub mod Shares
