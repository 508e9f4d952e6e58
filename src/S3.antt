-- ===== src/S3.antt =====
-- s3: the command that loads an object store.
pub mod Job
pub mod Summary
pub mod Options
pub mod Threads
pub mod Concurrent
pub mod Interface
