-- ===== src/Storage.antt =====
-- src/storage: resumable uploads.
pub mod Tus
