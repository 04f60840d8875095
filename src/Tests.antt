-- ===== src/Tests.antt =====
-- Concrete runs, and the theorems at inputs that meet their hypotheses.
pub mod Fixture
mod Naming
mod Registry
mod Documents
mod Lookups
mod Peers
mod Nodes
pub mod SmallHost
pub mod Resolver
mod Lifetime
mod NameServer
mod Caches
