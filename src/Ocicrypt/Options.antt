-- ===== src/Ocicrypt/Options.antt =====
-- The options of a layer's cipher: ocicrypt-rs/src/blockcipher/mod.rs.
use guest_components.Prelude.{Option, none, some, List, Str, Bytes, get}

pub record PublicLayerBlockCipherOptions : Type 0 where
  pub cipher_type : Str
  pub cipher_options : List (Str × Bytes)
  pub hmac : Bytes

pub record PrivateLayerBlockCipherOptions : Type 0 where
  pub symmetric_key : Bytes
  pub cipher_options : List (Str × Bytes)
  pub digest : Str

pub record LayerBlockCipherOptions : Type 0 where
  pub shared : PublicLayerBlockCipherOptions
  pub secret : PrivateLayerBlockCipherOptions

-- A public option goes before a private one.
unfoldable pub get_opt : LayerBlockCipherOptions → Str → Option Bytes
get_opt self key = elim (get key self.shared.cipher_options) [
  | some v ↦ some v
  | none ↦ get key self.secret.cipher_options
]
