-- ===== src/Revocation.antt =====
-- revocation.py: the list of keys with their status, its parser and the trust decision.
pub mod List
pub mod Parse
pub mod Trust
pub mod Sound
pub mod Read
pub mod Decision
pub mod Named
mod Tests
