-- ===== src/Spf.antt =====
-- ingest/spf.py: the networks that a domain's SPF record authorises. The resolver and the reader of
-- addresses and networks are libraries: a `Network` is of any type.
pub mod Expand
pub mod Bounded
pub mod Cached
