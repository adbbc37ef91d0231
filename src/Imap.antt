-- ===== src/Imap.antt =====
-- ingest/imap.py: reports that are fetched from mailboxes.
pub mod Client
pub mod Fetch
pub mod Stored
pub mod Acknowledged
pub mod Safe
pub mod Complete
pub mod Poll
pub mod Polled
