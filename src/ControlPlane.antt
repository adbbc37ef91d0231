-- ===== src/ControlPlane.antt =====
-- control_plane/service.py: tenants, domains and their report addresses, the DNS records that a
-- domain has to publish, and their check against live DNS.
pub mod Provision
pub mod Records
pub mod Check
pub mod Validity
pub mod Rotation
pub mod Deletion
pub mod Cached
pub mod Held
pub mod Resolve
pub mod Named
pub mod Agreed
pub mod Published
