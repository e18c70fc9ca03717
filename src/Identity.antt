-- ===== src/Identity.antt =====
-- agent_identity.py and wire_spec.py: certificates of agent identities, and the records of a bundle
-- that carry them.
pub mod Certificate
pub mod Wire
pub mod Certified
pub mod Sound
pub mod Complete
pub mod Records
mod Tests
