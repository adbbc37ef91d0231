-- ===== src/Parsers.antt =====
-- ingest/parsers.py: from the bytes of a message to parsed reports.
pub mod Types
pub mod Decoders
pub mod Documents
pub mod Xml
pub mod Aggregate
pub mod Tlsrpt
pub mod Extraction
pub mod Normalised
