-- ===== src/Witness.antt =====
-- validators/witness.py: the registry of witness organisations, their signed statements about an
-- anchor, and the quorum.
pub mod Entry
pub mod Parse
pub mod Structure
pub mod Statement
pub mod Quorum
pub mod Unsigned
pub mod Attested
pub mod Groups
pub mod Agreement
pub mod Registered
mod Tests
