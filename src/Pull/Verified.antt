-- ===== src/Pull/Verified.antt =====
-- What is unpacked for a layer has the digest of the image's configuration.
use mathlib.Core.Path.{subst}
use guest_components.Prelude.{
  ◌≡◌, inl, inr, refl, sym, ap, ◌∙◌, true, false, not, Option, some, Str, Bytes, str_eq, str_eq_iff,
  Bool-cases, Option-cases, ok, ◌>>=◌, >>=-eq-ok, ok_inj, ok_or, ok_or-eq-ok, bail_if,
  bail_if-eq-ok, arith,
}
use guest_components.Pull.Media.{
  Codecs, Compression, gzip, OciDescriptor, Decryptor, decrypt_layer_opts_data_failed,
  prepare_decryption_context_failed, unequal_uncompressed_digest, from_media_type, get_decrypt_key,
  async_get_plaintext_layer, hasher_of, async_processing, stream_processing, compression_try_from,
  async_decompress_unpack_layer,
}
use guest_components.Pull.Types.{
  IsTypeOf, IsDigestOf, IsEncryptedType, compression_try_from-eq-ok, hasher_of-IsDigestOf,
  from_media_type_lem,
}
use guest_components.Pull.Metas.{LayerMeta}
use guest_components.Pull.Layers.{decrypted_digest, plaintext_digest, handle_new_layer}

module _ {Reader : Type 0} (crate : Codecs Reader) where
  -- An archive was decompressed as its type says and unpacked there, and what was read for that has
  -- this SHA-256 or SHA-512 digest.
  pub record IsUnpacked (layer_reader : Reader) (media_type destination digest : Str) : Type 0 where
    pub decoder : Compression
    pub typed : IsTypeOf crate media_type decoder
    pub read : Bytes
    pub unpacked : crate.unpack (crate.decompress decoder layer_reader) destination ≡ some read
    pub summed : IsDigestOf crate digest read

  async_processing-eq-ok :
      (layer_reader : Reader) (hasher : Bytes → Str) (destination digest : Str)
      → async_processing crate layer_reader hasher destination ≡ ok digest
      → (read : Bytes) × (crate.unpack layer_reader destination ≡ some read)
        × (hasher read ≡ digest)
  unfolding async_processing
  async_processing-eq-ok layer_reader hasher destination digest h =
      elim (Option-cases (crate.unpack layer_reader destination)) [
        | inr (read, done) ↦ (read, done, ground (arith, done, h))
        | inl failed ↦ elim (Bool-cases (crate.remove_dir_all destination)) [
          | inl removed ↦ absurd (ground (arith, failed, removed, h))
          | inr left ↦ absurd (ground (arith, failed, left, h))
        ]
      ]

  unpack-IsUnpacked :
      (layer_reader : Reader) (diff_id media_type destination digest : Str)
      → async_decompress_unpack_layer crate layer_reader diff_id media_type destination ≡ ok digest
      → IsUnpacked layer_reader media_type destination digest
  unfolding async_decompress_unpack_layer stream_processing
  unpack-IsUnpacked layer_reader diff_id media_type destination digest h =
      let (decoder, typed, begun) = >>=-eq-ok (compression_try_from crate media_type) _ h in
      let (hasher, hashed, last) = >>=-eq-ok (hasher_of crate diff_id) _ begun in
      let (read, unpacked, summed) =
        async_processing-eq-ok (crate.decompress decoder layer_reader) hasher destination digest
          last in
      record {
        decoder = decoder;
        typed = compression_try_from-eq-ok crate media_type decoder typed;
        read = read;
        unpacked = unpacked;
        summed =
            subst (λ d. IsDigestOf crate d read) summed
              (hasher_of-IsDigestOf crate diff_id hasher hashed read);
      }

  -- What is unpacked: the layer as it is, or deciphered with the key that its annotations hold.
  pub data IsPlain (layer : OciDescriptor) (decrypt_config : Option Str) (layer_reader : Reader)
      (meta : LayerMeta) (diff_id : Str) : Type 0 where
    plain :
        ¬ ((plain_type : Str) × IsEncryptedType crate layer.media_type plain_type)
        → meta.encrypted ≡ false
        → IsUnpacked layer_reader layer.media_type meta.store_path diff_id
        → IsPlain layer decrypt_config layer_reader meta diff_id
    deciphered :
        (key : Bytes) (plaintext_layer : Reader) (plain_type : Str)
        → IsEncryptedType crate layer.media_type plain_type
        → meta.encrypted ≡ true
        → crate.decrypt_layer_key_opts_data decrypt_config layer.annotations ≡ some key
        → crate.async_decrypt_layer layer_reader layer.annotations key ≡ some plaintext_layer
        → IsUnpacked plaintext_layer plain_type meta.store_path diff_id
        → IsPlain layer decrypt_config layer_reader meta diff_id

  meta_of : OciDescriptor → Str → Str → LayerMeta
  meta_of layer digest destination = record {
    decoder = gzip;
    encrypted = (from_media_type crate layer.media_type).encrypted;
    compressed_digest = layer.digest;
    uncompressed_digest = digest;
    store_path = destination;
  }

  module _ (decryptor : Decryptor) (layer : OciDescriptor) (diff_id : Str)
      (decrypt_config : Option Str) (layer_reader : Reader) (destination : Str) where
    plain_branch :
        decryptor.encrypted ≡ false
        → plaintext_digest crate decryptor layer diff_id decrypt_config layer_reader destination
          ≡ async_decompress_unpack_layer crate layer_reader diff_id layer.media_type destination
    unfolding plaintext_digest
    plain_branch clear = rw (clear, plaintext_digest) refl

    deciphered_branch :
        decryptor.encrypted ≡ true
        → plaintext_digest crate decryptor layer diff_id decrypt_config layer_reader destination ≡ (
            ok_or
              (crate.decrypt_layer_key_opts_data decrypt_config layer.annotations)
              decrypt_layer_opts_data_failed
            >>= λ key.
                ok_or
                  (crate.async_decrypt_layer layer_reader layer.annotations key)
                  prepare_decryption_context_failed
                >>= λ plaintext_layer.
                    async_decompress_unpack_layer crate plaintext_layer diff_id decryptor.media_type
                      destination)
    unfolding plaintext_digest decrypted_digest get_decrypt_key async_get_plaintext_layer
    deciphered_branch secret = rw (secret, plaintext_digest, get_decrypt_key) refl

  plaintext-IsPlain :
      (layer : OciDescriptor) (diff_id : Str) (decrypt_config : Option Str) (layer_reader : Reader)
      (destination : Str)
      → plaintext_digest crate
          (from_media_type crate layer.media_type)
          layer
          diff_id
          decrypt_config
          layer_reader
          destination
        ≡ ok diff_id
      → IsPlain layer decrypt_config layer_reader (meta_of layer diff_id destination) diff_id
  unfolding meta_of
  plaintext-IsPlain layer diff_id decrypt_config layer_reader destination h =
      let decryptor = from_media_type crate layer.media_type in
      elim (from_media_type_lem crate layer.media_type) [
        | inr (clear, no_type) ↦ plain no_type clear (
            unpack-IsUnpacked layer_reader diff_id layer.media_type destination diff_id (
              sym
                (plain_branch decryptor layer diff_id decrypt_config layer_reader destination clear)
              ∙ h))
        | inl (secret, is_type) ↦
            let (key, opened, begun) =
              >>=-eq-ok
                (ok_or (crate.decrypt_layer_key_opts_data decrypt_config layer.annotations)
                  decrypt_layer_opts_data_failed)
                _
                (sym (
                    deciphered_branch decryptor layer diff_id decrypt_config layer_reader
                      destination secret)
                  ∙ h) in
            let (plaintext_layer, prepared, last) =
              >>=-eq-ok
                (ok_or (crate.async_decrypt_layer layer_reader layer.annotations key)
                  prepare_decryption_context_failed)
                _ begun in
            deciphered key plaintext_layer decryptor.media_type is_type secret
              (ok_or-eq-ok (crate.decrypt_layer_key_opts_data decrypt_config layer.annotations) _
                key opened)
              (ok_or-eq-ok (crate.async_decrypt_layer layer_reader layer.annotations key) _
                plaintext_layer prepared)
              (unpack-IsUnpacked plaintext_layer diff_id decryptor.media_type destination diff_id
                last)
      ]

  -- The metadata of a layer that was handled name the layer, and the digest and the directory that
  -- were asked for. If the layer's type is one of the four encrypted ones, the layer was deciphered with
  -- the key of its annotations, and is then of the plain type that this one stands for; otherwise it was
  -- taken as it is. It was decompressed as that type says, with docker's type standing for the image
  -- specification's, and unpacked there; and the bytes that the unpacking says it has read have the digest
  -- that was asked for, with the name of SHA-256 or SHA-512 in front.
  pub handle_new_layer-IsPlain :
      (layer : OciDescriptor) (diff_id : Str) (decrypt_config : Option Str) (layer_reader : Reader)
      (destination : Str) (meta : LayerMeta)
      → handle_new_layer crate layer diff_id decrypt_config layer_reader destination ≡ ok meta
      → (meta.compressed_digest ≡ layer.digest)
        × (meta.uncompressed_digest ≡ diff_id)
        × (meta.store_path ≡ destination)
        × IsPlain layer decrypt_config layer_reader meta diff_id
  unfolding handle_new_layer meta_of
  handle_new_layer-IsPlain layer diff_id decrypt_config layer_reader destination meta h =
      let (digest, read, begun) =
        >>=-eq-ok
          (plaintext_digest crate (from_media_type crate layer.media_type) layer diff_id
            decrypt_config layer_reader destination)
          _ h in
      let (_, equal, last) =
        >>=-eq-ok
          (bail_if (not (str_eq digest diff_id)) (unequal_uncompressed_digest digest diff_id)) _
          begun in
      let checked : str_eq digest diff_id ≡ true =
        ground (arith, bail_if-eq-ok (not (str_eq digest diff_id)) _ equal) in
      let same = (str_eq_iff digest diff_id).0 checked in
      subst
        (λ m.
          (m.compressed_digest ≡ layer.digest)
          × (m.uncompressed_digest ≡ diff_id)
          × (m.store_path ≡ destination)
          × IsPlain layer decrypt_config layer_reader m diff_id)
        (ap (λ d. meta_of layer d destination) (sym same) ∙ ok_inj _ meta last)
        (
          refl,
          refl,
          refl,
          plaintext-IsPlain layer diff_id decrypt_config layer_reader destination
              (read ∙ ap ok same),
        )
