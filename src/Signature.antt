-- ===== src/Signature.antt =====
-- Image signature policies: image-rs/src/signature.
pub mod Digest
pub mod Reference
pub mod Namespaces
pub mod Parents
pub mod Wildcards
pub mod Lookup
pub mod Policy
pub mod Matching
pub mod Requirements
pub mod Sigstore
pub mod Merge
pub mod Update
pub mod Validator
pub mod Allowed
pub mod Checked
mod Tests
