-- ===== src/Chain.antt =====
-- validators/chain.py: the append-only transparency log. Chain/Dict and Chain/Dicts hold the checks
-- over the dicts of the log, whose values may be of any type. Chain/Entry and Chain/Verify hold the
-- same checks for the entries of a log whose documented fields have their types, in which nothing
-- raises; Chain/Documents shows that both agree there. Reading the log file is left out.
pub mod Entry
pub mod Verify
pub mod Log
pub mod Accept
pub mod Schema
pub mod Sound
pub mod Tamper
pub mod Content
pub mod Order
pub mod Report
pub mod Dict
pub mod Dicts
mod Typed
pub mod Documents
pub mod Documented
mod Tests
