-- ===== src/Metrics.antt =====
-- metrics.py: the numbers for Prometheus, and who may read them.
pub mod Counts
pub mod Gauges
pub mod Snapshot
pub mod Server
pub mod Exact
pub mod Polls
