-- ===== src/Registries.antt =====
-- The choice of the registries an image is pulled from: image-rs/src/registry/mod.rs.
pub mod Config
pub mod Handler
mod Longest
pub mod Prefixes
pub mod Tidy
mod Steps
pub mod Origins
pub mod Blocked
mod Tests
