-- ===== src/Pull/Metas.antt =====
-- What is known of images and layers: image-rs/src/meta_store.rs and the records and helpers of
-- image-rs/src/image.rs.
use guest_components.Prelude.{
  ℕ, ◌==◌, Bool, true, false, Option, List, [], ◌∷◌, Str, length, str_eq, insert, if◌then◌else◌,
  Result, ok, ◌>>=◌, ◌>>◌, bail_if, not, ok_or,
}
use guest_components.Pull.Media.{Compression, OciDescriptor, PullLayerError}

pub record LayerMeta : Type 0 where
  pub decoder : Compression
  pub encrypted : Bool
  pub compressed_digest : Str
  pub uncompressed_digest : Str
  pub store_path : Str

-- The type of image configurations is oci_spec's.
pub record ImageMeta (Configuration : Type 0) : Type 0 where
  pub id : Str
  pub digest : Str
  pub reference : Str
  pub image_config : Configuration
  pub signed : Bool
  pub layer_metas : List LayerMeta

pub record MetaStore (Configuration : Type 0) : Type 0 where
  pub image_db : List (Str × ImageMeta Configuration)
  pub layer_db : List (Str × LayerMeta)
  pub snapshot_db : List (Str × ℕ)

pub record OciImageManifest : Type 0 where
  pub config_digest : Str
  pub layers : List OciDescriptor

-- What is asked of the crate's configurations.
pub record Configurations (Configuration : Type 0) : Type 0 where
  pub from_reader : Str → Option Configuration
  pub diff_ids : Configuration → List Str
  pub is_linux : Configuration → Bool

pub data PullImageError : Type 0 where
  illegal_registry_auth : PullImageError
  failed_to_pull_manifest : PullImageError
  failed_to_create_bundle : PullImageError
  signature_validation_failed : PullImageError
  not_all_unique_layers_pulled : ℕ → PullImageError
  pull_layers_failed : PullLayerError → PullImageError
  internal : PullImageError
  illegal_image_reference : PullImageError
  illegal_registry_configuration_format : PullImageError
  -- with the images that were tried
  all_tasks_tried : List Str → PullImageError

-- `digests.contains(d)`
unfoldable pub has_digest : Str → List Str → Bool
has_digest d [] = false
has_digest d (e ∷ digests) = if str_eq e d then true else has_digest d digests

-- The loop over the layers, with the digests it has met.
unfoldable pub unique_layers_of :
    List Str → List OciDescriptor → List Str → List (OciDescriptor × Str)
unique_layers_of digests [] diff_ids = []
unique_layers_of digests (layer ∷ layers) [] = []
unique_layers_of digests (layer ∷ layers) (diff_id ∷ diff_ids) =
    let same = unique_layers_of digests layers diff_ids in
    let more = unique_layers_of (layer.digest ∷ digests) layers diff_ids in
    if has_digest layer.digest digests then same else (layer, diff_id) ∷ more

-- `a.extend(b)`
unfoldable pub extend : {V : Type 0} → List (Str × V) → List (Str × V) → List (Str × V)
extend m [] = m
extend m ((k, v) ∷ more) = extend (insert k v m) more

-- `.map(|layer| (layer.compressed_digest.clone(), layer.clone()))`
unfoldable pub by_digest : List LayerMeta → List (Str × LayerMeta)
by_digest [] = []
by_digest (layer ∷ layers) = (layer.compressed_digest, layer) ∷ by_digest layers

module _ {Configuration : Type 0} (crate : Configurations Configuration) where
  unfoldable pub create_image_meta :
      Str
      → Str
      → OciImageManifest
      → Str
      → Str
      → Result PullImageError (ImageMeta Configuration × List (OciDescriptor × Str))
  create_image_meta id image_url image_manifest image_digest image_config = do
    configuration ← ok_or (crate.from_reader image_config) internal
    bail_if (not (length (crate.diff_ids configuration) == length image_manifest.layers)) internal
    ok (
      record {
        id = id;
        digest = image_digest;
        reference = image_url;
        image_config = configuration;
        signed = false;
        layer_metas = [];
      },
      unique_layers_of [] image_manifest.layers (crate.diff_ids configuration),
    )
