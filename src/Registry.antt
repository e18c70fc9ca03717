-- ===== src/Registry.antt =====
-- validators/registry.py: signed snapshots of the witness registry, their parser and validation, and
-- the chain that they form.
pub mod Snapshot
pub mod Revoked
pub mod Kept
pub mod Sorted
pub mod Monotone
pub mod Witnesses
pub mod Parse
pub mod Validate
pub mod Chain
pub mod Sealed
pub mod Linked
pub mod Accepted
pub mod Registered
mod Tests
