-- ===== src/Bundle.antt =====
-- validators/bundle.py: proof bundles, ZIP files whose manifest lists the artifacts with their hashes.
pub mod Archive
pub mod Verify
pub mod Intact
pub mod Sound
pub mod Same
mod Tests
