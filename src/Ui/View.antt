-- ===== src/Ui/View.antt =====
-- The pages of api/ui.py: what their templates are given.
pub mod Guard
pub mod Lists
pub mod Report
pub mod Domain
pub mod Tenants
pub mod Personal
pub mod Screen
pub mod Private
pub mod Covered
pub mod Once
pub mod Rechecked
