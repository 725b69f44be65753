-- ===== src/Pull/Types.antt =====
-- Media types and digests of layers, as the formats have them: for decoder/mod.rs, decrypt.rs and
-- digest.rs of image-rs/src.
use mathlib.Core.Path.{subst}
use guest_components.Prelude.{
  ◌≡◌, ◌≢◌, ◌⊎◌, inl, inr, refl, sym, ap, ◌∙◌, [], true, false, ◌||◌, ◌++◌, Str, Bytes, codes,
  str_eq, str_eq_iff, starts_with, if◌then◌else◌, Bool-cases, Result, ok, err, arith,
}
use guest_components.Pull.Media.{
  Codecs, Compression, uncompressed, gzip, zstd, MediaType, image_layer,
  image_layer_non_distributable, image_layer_gzip, image_layer_non_distributable_gzip,
  image_layer_zstd, image_layer_non_distributable_zstd, other, PullLayerError, bad_media_type,
  compression_try_from, from_media_type, hasher_of,
}

-- How the layers of a type are compressed.
pub data IsCompressed : MediaType → Compression → Type 0 where
  tar : IsCompressed image_layer uncompressed
  tar_non_distributable : IsCompressed image_layer_non_distributable uncompressed
  tar_gzip : IsCompressed image_layer_gzip gzip
  tar_gzip_non_distributable : IsCompressed image_layer_non_distributable_gzip gzip
  tar_zstd : IsCompressed image_layer_zstd zstd
  tar_zstd_non_distributable : IsCompressed image_layer_non_distributable_zstd zstd

either_text : (s a b : Str) → (str_eq s a || str_eq s b) ≡ true → (s ≡ a) ⊎ (s ≡ b)
either_text s a b h = elim (Bool-cases (str_eq s a)) [
  | inl first ↦ inl ((str_eq_iff s a).0 first)
  | inr next ↦ inr ((str_eq_iff s b).0 (sym (rw next refl) ∙ h))
]

neither_text : (s a b : Str) → (str_eq s a || str_eq s b) ≡ false → ¬ ((s ≡ a) ⊎ (s ≡ b))
neither_text s a b h (inl same) = let equal = (str_eq_iff s a).1 same in ground (arith, h, equal)
neither_text s a b h (inr same) =
    let equal = (str_eq_iff s b).1 same in
    elim (Bool-cases (str_eq s a)) [
      | inl first ↦ ground (arith, h, first)
      | inr next ↦ ground (arith, h, equal, next)
    ]

module _ {Reader : Type 0} (crate : Codecs Reader) where
  -- A text is a media type of layers that are compressed like this; docker's type of layers stands for
  -- the image specification's.
  abbrev pub IsTypeOf : Str → Compression → Type 0
  IsTypeOf s decoder =
      ((s ≡ crate.image_docker_layer_gzip_media_type)
        × IsCompressed (crate.media_type_from crate.image_layer_gzip_media_type) decoder)
      ⊎ ((s ≢ crate.image_docker_layer_gzip_media_type)
          × IsCompressed (crate.media_type_from s) decoder)

  of_type :
      (s : Str) (t : MediaType) (decoder : Compression)
      → (elim t as (λ t. Result PullLayerError Compression) [
        | image_layer ↦ ok uncompressed
        | image_layer_non_distributable ↦ ok uncompressed
        | image_layer_gzip ↦ ok gzip
        | image_layer_non_distributable_gzip ↦ ok gzip
        | image_layer_zstd ↦ ok zstd
        | image_layer_non_distributable_zstd ↦ ok zstd
        | other ↦ err (bad_media_type s)
      ])
        ≡ ok decoder
      → IsCompressed t decoder
  of_type s image_layer uncompressed h = tar
  of_type s image_layer gzip h = cc
  of_type s image_layer zstd h = cc
  of_type s image_layer_non_distributable uncompressed h = tar_non_distributable
  of_type s image_layer_non_distributable gzip h = cc
  of_type s image_layer_non_distributable zstd h = cc
  of_type s image_layer_gzip gzip h = tar_gzip
  of_type s image_layer_gzip uncompressed h = cc
  of_type s image_layer_gzip zstd h = cc
  of_type s image_layer_non_distributable_gzip gzip h = tar_gzip_non_distributable
  of_type s image_layer_non_distributable_gzip uncompressed h = cc
  of_type s image_layer_non_distributable_gzip zstd h = cc
  of_type s image_layer_zstd zstd h = tar_zstd
  of_type s image_layer_zstd uncompressed h = cc
  of_type s image_layer_zstd gzip h = cc
  of_type s image_layer_non_distributable_zstd zstd h = tar_zstd_non_distributable
  of_type s image_layer_non_distributable_zstd uncompressed h = cc
  of_type s image_layer_non_distributable_zstd gzip h = cc
  of_type s other decoder h = cc

  pub compression_try_from-eq-ok :
      (s : Str) (decoder : Compression)
      → compression_try_from crate s ≡ ok decoder
      → IsTypeOf s decoder
  unfolding compression_try_from
  compression_try_from-eq-ok s decoder h =
      let t =
        if str_eq s crate.image_docker_layer_gzip_media_type
        then crate.image_layer_gzip_media_type
        else s in
      let compressed : IsCompressed (crate.media_type_from t) decoder =
        of_type t (crate.media_type_from t) decoder h in
      elim (Bool-cases (str_eq s crate.image_docker_layer_gzip_media_type)) [
        | inl docker ↦
            let renamed : t ≡ crate.image_layer_gzip_media_type = rw docker refl in
            inl (
              (str_eq_iff s _).0 docker,
              subst (λ m. IsCompressed (crate.media_type_from m) decoder) renamed compressed,
            )
        | inr not_docker ↦
            let kept : t ≡ s = rw not_docker refl in
            inr (
              λ same. let equal = (str_eq_iff s _).1 same in cc,
              subst (λ m. IsCompressed (crate.media_type_from m) decoder) kept compressed,
            )
      ]

  -- A media type of an encrypted layer, with that of the layer that it is when deciphered.
  abbrev pub IsEncryptedType : Str → Str → Type 0
  IsEncryptedType media_type plain_type =
      (((media_type ≡ codes "application/vnd.oci.image.layer.v1.tar+encrypted")
          ⊎ (media_type
              ≡ codes "application/vnd.oci.image.layer.nondistributable.v1.tar+encrypted"))
        × (plain_type ≡ crate.image_layer_media_type))
      ⊎ (((media_type ≡ codes "application/vnd.oci.image.layer.v1.tar+gzip+encrypted")
            ⊎ (media_type
                ≡ codes "application/vnd.oci.image.layer.nondistributable.v1.tar+gzip+encrypted"))
          × (plain_type ≡ crate.image_layer_gzip_media_type))

  pub from_media_type_lem :
      (media_type : Str)
      → (((from_media_type crate media_type).encrypted ≡ true)
          × IsEncryptedType media_type (from_media_type crate media_type).media_type)
        ⊎ (((from_media_type crate media_type).encrypted ≡ false)
            × ¬ ((plain_type : Str) × IsEncryptedType media_type plain_type))
  unfolding from_media_type
  from_media_type_lem media_type =
      elim (Bool-cases (
        str_eq media_type (codes "application/vnd.oci.image.layer.v1.tar+encrypted")
        || str_eq media_type
            (codes "application/vnd.oci.image.layer.nondistributable.v1.tar+encrypted"))) [
              | inl tar_type ↦ inl (
                rw (tar_type, from_media_type) refl,
                inl (either_text media_type _ _ tar_type, rw (tar_type, from_media_type) refl),
              )
              | inr no_tar ↦
                  elim (Bool-cases (
                    str_eq media_type
                      (codes "application/vnd.oci.image.layer.v1.tar+gzip+encrypted")
                    || str_eq media_type (
                        codes
                          "application/vnd.oci.image.layer.nondistributable.v1.tar+gzip+encrypted"))) [
                            | inl gzip_type ↦ inl (
                              rw (no_tar, gzip_type, from_media_type) refl,
                              inr (
                                either_text media_type _ _ gzip_type,
                                rw (no_tar, gzip_type, from_media_type) refl,
                              ),
                            )
                            | inr no_gzip ↦ inr (
                              rw (no_tar, no_gzip, from_media_type) refl,
                              λ (plain_type, which). elim which [
                                | inl is_tar ↦ neither_text media_type _ _ no_tar is_tar.0
                                | inr is_gzip ↦ neither_text media_type _ _ no_gzip is_gzip.0
                              ],
                            )
                          ]
            ]

  -- The digest of these bytes, with the name of its algorithm.
  abbrev pub IsDigestOf : Str → Bytes → Type 0
  IsDigestOf digest read =
      (digest ≡ codes "sha256:" ++ crate.sha256 read)
      ⊎ (digest ≡ codes "sha512:" ++ crate.sha512 read)

  pub hasher_of-IsDigestOf :
      (diff_id : Str) (hasher : Bytes → Str)
      → hasher_of crate diff_id ≡ ok hasher
      → (read : Bytes) → IsDigestOf (hasher read) read
  unfolding hasher_of
  hasher_of-IsDigestOf diff_id hasher h read =
      elim (Bool-cases (starts_with (codes "sha256:") diff_id)) [
        | inl short ↦
            let same : ok (λ r. codes "sha256:" ++ crate.sha256 r) ≡ hasher_of crate diff_id =
              sym (rw (short, hasher_of) refl) in
            inl (ap (at read) (sym h ∙ sym same))
        | inr next ↦ elim (Bool-cases (starts_with (codes "sha512:") diff_id)) [
          | inl long ↦
              let same : ok (λ r. codes "sha512:" ++ crate.sha512 r) ≡ hasher_of crate diff_id =
                sym (rw (next, long, hasher_of) refl) in
              inr (ap (at read) (sym h ∙ sym same))
          | inr unknown ↦ absurd (ground (arith, next, unknown, h))
        ]
      ]
    where
      at : Bytes → Result PullLayerError (Bytes → Str) → Str
      at read (ok f) = f read
      at read (err e) = []
