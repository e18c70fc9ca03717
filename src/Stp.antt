-- ===== src/Stp.antt =====
-- stp_contracts.py and validators/stp.py: the messages of the Specora Trust Protocol, and the
-- simulation of its decisions.
pub mod Contracts
pub mod Body
pub mod Message
mod Holds
pub mod Sound
pub mod Simulate
mod Tests
pub mod Decision
