-- ===== src/Pull.antt =====
-- Pulling an image: image-rs/src/image.rs, pull.rs and what they use of the crate.
pub mod Media
pub mod Store
pub mod Paths
pub mod Layers
pub mod Metas
pub mod Client
pub mod Unique
pub mod Ordered
pub mod Types
pub mod Verified
pub mod Validated
pub mod Failures
mod Tests
