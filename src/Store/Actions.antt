-- ===== src/Store/Actions.antt =====
-- `apply_action` of crates/federate-mutation/src/store.rs: each arm is a function of its own over the
-- clone of the zone, in the modules below; `apply_action` chooses the arm.
pub mod Domains
pub mod Tlds
pub mod Writes
pub mod DomainWrites
pub mod Frame
