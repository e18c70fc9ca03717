-- ===== src/External.antt =====
-- validators/external_anchor.py: anchors published on external surfaces, and the chain that they form.
pub mod Anchor
pub mod Chain
pub mod Linked
mod Sound
mod Sorted
mod Accepted
mod Tests
