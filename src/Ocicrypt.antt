-- ===== src/Ocicrypt.antt =====
-- Encrypted image layers: ocicrypt-rs/src.
pub mod Options
pub mod Cipher
pub mod Streams
pub mod Sealed
pub mod Keys
pub mod Layers
pub mod Wrapping
pub mod Rounds
pub mod Opened
mod Toy
mod Tests
