-- ===== src/Pull/Validated.antt =====
-- Only images that the policy allows are kept and mounted.
use guest_components.Prelude.{◌≡◌, Option, some, List, Str, map, All, ok}
use guest_components.Signature.Validator.{SignatureValidator, check_image_signature}
use guest_components.Pull.Media.{OciDescriptor}
use guest_components.Pull.Store.{LayerStore}
use guest_components.Pull.Layers.{async_pull_layers}
use guest_components.Pull.Metas.{LayerMeta, ImageMeta, create_image_meta, OciImageManifest}
use guest_components.Pull.Client.{Net, RegistryAuth, ClientConfig, ImageClient, rev}

-- The image was allowed by the policy under its own reference and digest, and what its manifest says of
-- its layers was pulled: its layers are those that the manifest's layers were made into.
pub record IsPulled {Reference Reader Configuration : Type 0} (validator : SignatureValidator)
    (net : Net Reference Reader Configuration) (image : ImageMeta Configuration) : Type 0 where
  pub url : Str
  pub digest : Str
  pub list_digest : Option Str
  pub is_reference : image.reference ≡ url
  pub is_digest : image.digest ≡ digest
  pub allowed : check_image_signature net.signatures validator url digest list_digest ≡ ok tt
  pub manifest : OciImageManifest
  pub config : Str
  pub bare : ImageMeta Configuration
  pub layers : List (OciDescriptor × Str)
  pub described :
      create_image_meta net.configurations manifest.config_digest url manifest digest config
      ≡ ok (bare, layers)
  pub client_config : ClientConfig
  pub reference : Reference
  pub auth : RegistryAuth
  pub decrypt_config : Option Str
  pub layer_db : List (Str × LayerMeta)
  pub store : LayerStore
  pub handled :
      (async_pull_layers net.codecs
        (net.pull_blob_stream client_config reference auth)
        decrypt_config
        layer_db
        net.turns
        store
        layers).1
      ≡ ok image.layer_metas
  pub same : image ≡ record bare { layer_metas = image.layer_metas }

module _ {Configuration : Type 0} (validator : SignatureValidator)
    (Trusted : ImageMeta Configuration → Type 0) where
  -- The client checks signatures, each image it keeps is trusted, and each root file system that it has
  -- mounted is made of the directories of the layers of a trusted image, the last layer's first.
  pub record IsValidated (self : ImageClient Configuration) : Type 0 where
    pub checks : self.signature_validator ≡ some validator
    pub kept : All (λ e. Trusted e.1) self.meta_store.image_db
    pub mounts :
        All
          (λ m.
            (image : ImageMeta Configuration) × Trusted image
            × (m.0 ≡ rev (map (λ l. l.store_path) image.layer_metas)))
          self.mounted
