-- ===== src/Pull/Media.antt =====
-- Layers and their media types: image-rs/src/decoder/mod.rs, decrypt.rs and digest.rs.
use guest_components.Prelude.{
  Bool, true, false, ◌||◌, Option, none, some, List, [], ◌++◌, Str, Bytes, codes, str_eq,
  starts_with, if◌then◌else◌, Result, ok, err, ◌>>=◌, ok_or,
}

pub data Compression : Type 0 where
  uncompressed : Compression
  gzip : Compression
  zstd : Compression

-- The crate oci_spec's media types, as far as they are told apart.
pub data MediaType : Type 0 where
  image_layer image_layer_non_distributable : MediaType
  image_layer_gzip image_layer_non_distributable_gzip : MediaType
  image_layer_zstd image_layer_non_distributable_zstd : MediaType
  other : MediaType

-- The errors, with those of the modules that they come from.
pub data PullLayerError : Type 0 where
  pull_manifest_error : PullLayerError
  pull_bootstrap_layer_error : PullLayerError
  runtime_error : PullLayerError
  pull_blob_stream_failed : PullLayerError
  unencrypted_media_type : PullLayerError
  decrypt_layer_opts_data_failed : PullLayerError
  prepare_decryption_context_failed : PullLayerError
  unequal_uncompressed_digest : Str → Str → PullLayerError
  bad_media_type : Str → PullLayerError
  failed_to_roll_back : PullLayerError
  unsupported_digest_format : Str → PullLayerError
  unpack_layer_failed : PullLayerError

-- What a manifest says of a layer.
pub record OciDescriptor : Type 0 where
  pub digest : Str
  pub media_type : Str
  pub annotations : List (Str × Str)

-- The crates' part: media types, decompression, hashing, and the decryption that ocicrypt sets up.
-- A reader is what a layer is read from.
pub record Codecs (Reader : Type 0) : Type 0 where
  pub image_docker_layer_gzip_media_type : Str
  pub image_layer_media_type : Str
  pub image_layer_gzip_media_type : Str
  pub media_type_from : Str → MediaType
  pub decompress : Compression → Reader → Reader
  pub sha256 : Bytes → Str
  pub sha512 : Bytes → Str
  -- all that was read from the reader when its archive was unpacked there, if it was
  pub unpack : Reader → Str → Option Bytes
  pub remove_dir_all : Str → Bool
  pub decrypt_layer_key_opts_data : Option Str → List (Str × Str) → Option Bytes
  pub async_decrypt_layer : Reader → List (Str × Str) → Bytes → Option Reader

pub record Decryptor : Type 0 where
  pub media_type : Str
  pub encrypted : Bool

module _ {Reader : Type 0} (crate : Codecs Reader) where
  unfoldable pub compression_try_from : Str → Result PullLayerError Compression
  compression_try_from s =
      let media_type_str =
        if str_eq s crate.image_docker_layer_gzip_media_type
        then crate.image_layer_gzip_media_type
        else s in
      elim (crate.media_type_from media_type_str) [
        | image_layer ↦ ok uncompressed
        | image_layer_non_distributable ↦ ok uncompressed
        | image_layer_gzip ↦ ok gzip
        | image_layer_non_distributable_gzip ↦ ok gzip
        | image_layer_zstd ↦ ok zstd
        | image_layer_non_distributable_zstd ↦ ok zstd
        | other ↦ err (bad_media_type media_type_str)
      ]

  unfoldable pub from_media_type : Str → Decryptor
  from_media_type media_type =
      if str_eq media_type (codes "application/vnd.oci.image.layer.v1.tar+encrypted")
        || str_eq media_type
            (codes "application/vnd.oci.image.layer.nondistributable.v1.tar+encrypted")
      then record { media_type = crate.image_layer_media_type; encrypted = true }
      else if str_eq media_type (codes "application/vnd.oci.image.layer.v1.tar+gzip+encrypted")
          || str_eq media_type
              (codes "application/vnd.oci.image.layer.nondistributable.v1.tar+gzip+encrypted")
      then record { media_type = crate.image_layer_gzip_media_type; encrypted = true }
      else record { media_type = []; encrypted = false }

  unfoldable pub get_decrypt_key :
      Decryptor → OciDescriptor → Option Str → Result PullLayerError Bytes
  get_decrypt_key self descriptor decrypt_config =
      if self.encrypted
      then ok_or (crate.decrypt_layer_key_opts_data decrypt_config descriptor.annotations)
          decrypt_layer_opts_data_failed
      else err unencrypted_media_type

  unfoldable pub async_get_plaintext_layer :
      Reader → OciDescriptor → Bytes → Result PullLayerError Reader
  async_get_plaintext_layer encrypted_layer descriptor priv_opts_data =
      ok_or (crate.async_decrypt_layer encrypted_layer descriptor.annotations priv_opts_data)
        prepare_decryption_context_failed

  -- The hasher of a digest's algorithm, with its text.
  unfoldable pub hasher_of : Str → Result PullLayerError (Bytes → Str)
  hasher_of diff_id =
      if starts_with (codes "sha256:") diff_id
      then ok (λ read. codes "sha256:" ++ crate.sha256 read)
      else if starts_with (codes "sha512:") diff_id
      then ok (λ read. codes "sha512:" ++ crate.sha512 read)
      else err (unsupported_digest_format diff_id)

  -- The archive is unpacked; if it cannot be, its directory is removed.
  unfoldable pub async_processing : Reader → (Bytes → Str) → Str → Result PullLayerError Str
  async_processing layer_reader hasher destination = elim (crate.unpack layer_reader destination) [
    | some read ↦ ok (hasher read)
    | none ↦
        if crate.remove_dir_all destination
        then err unpack_layer_failed
        else err failed_to_roll_back
  ]

  unfoldable pub stream_processing : Reader → Str → Str → Result PullLayerError Str
  stream_processing layer_reader diff_id destination = do
    hasher ← hasher_of diff_id
    async_processing layer_reader hasher destination

  unfoldable pub async_decompress_unpack_layer :
      Reader → Str → Str → Str → Result PullLayerError Str
  async_decompress_unpack_layer input_reader diff_id media_type destination = do
    decoder ← compression_try_from media_type
    stream_processing (crate.decompress decoder input_reader) diff_id destination
