-- ===== src/Api.antt =====
-- api/app.py: the JSON API, and the upload handler of api/ui.py.
pub mod Control
pub mod Ingest
pub mod Handlers
pub mod Incoming
pub mod Reports
pub mod Listed
