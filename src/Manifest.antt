-- ===== src/Manifest.antt =====
-- contracts/registry.py and validators/manifest.py: the manifest contracts, and the validation of a
-- manifest against the contract that it names.
pub mod Contract
pub mod Fields
pub mod Validate
pub mod Floats
pub mod Typed
pub mod Conforms
pub mod Required
pub mod Anchor
mod Tests
