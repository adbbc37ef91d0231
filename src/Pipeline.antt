-- ===== src/Pipeline.antt =====
-- ingest/pipeline.py: raw messages in, stored reports out.
pub mod Flush
pub mod Store
pub mod Message
pub mod Upload
pub mod Reprocess
pub mod Http
pub mod Induction
pub mod Grows
pub mod Unique
pub mod Arrival
pub mod Again
pub mod Twice
pub mod Filed
pub mod Counted
pub mod Replayed
pub mod Accepted
pub mod Uploaded
pub mod Batch
pub mod Survives
