-- ===== src/Signing.antt =====
-- The `signable_bytes`, `verify` and signing code of the signed documents, one module for each
-- kind of document.
pub mod Domains
pub mod Tlds
pub mod Zones
pub mod Manifests
pub mod Registries
pub mod Requests
pub mod Audits
pub mod RoundTrip
pub mod Entries
pub mod AuditTrail
