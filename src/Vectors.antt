-- ===== src/Vectors.antt =====
-- validators/vectors.py, and the vectors of validators/anchor.py, receipt.py and stp.py: golden
-- files whose canonical bytes and hashes are computed again.
pub mod Directory
pub mod Verify
pub mod Golden
pub mod Counts
mod Tests
