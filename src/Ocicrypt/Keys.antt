-- ===== src/Ocicrypt/Keys.antt =====
-- Wrapped keys of layers: ocicrypt-rs/src/encryption.rs, with the key wrappers of lib.rs and
-- keywrap/mod.rs. The wrappers' own methods, base64 and JSON are parameters.
use guest_components.Prelude.{
  Bool, false, ◌||◌, Option, none, some, List, [], ◌∷◌, ◌++◌, Str, Bytes, codes, is_empty, get,
  insert, split, starts_with, if◌then◌else◌, Result, ok, err, ◌>>=◌, ◌>>◌, bail_if, ok_or,
}
use guest_components.Ocicrypt.Options.{
  PublicLayerBlockCipherOptions, PrivateLayerBlockCipherOptions, LayerBlockCipherOptions,
}
use guest_components.Ocicrypt.Cipher.{CipherError, AesCtrBlockCipher}

pub record DecryptConfig : Type 0 where
  pub param : List (Str × List Bytes)

pub record EncryptConfig : Type 0 where
  pub param : List (Str × List Bytes)
  pub decrypt_config : Option DecryptConfig

pub data KeyError : Type 0 where
  cipher_failed : CipherError → KeyError
  not_supported wrap_failed no_new_annotation no_wrapped_keys : KeyError
  empty_annotations bad_base64 bad_json no_suitable_key : KeyError
  missing_private_key no_suitable_unwrapper no_decrypt_config : KeyError

pub record KeyWrapper : Type 0 where
  pub wrap_keys : EncryptConfig → Bytes → Option Bytes
  pub unwrap_keys : DecryptConfig → Bytes → Option Bytes
  pub annotation_id : Str
  pub probe : List (Str × List Bytes) → Bool
  -- whether there are some
  pub private_keys : List (Str × List Bytes) → Bool

pub record Texts : Type 0 where
  pub encode : Bytes → Str
  pub decode : Str → Option Bytes
  pub secret_to_vec : PrivateLayerBlockCipherOptions → Bytes
  pub secret_from_slice : Bytes → Option PrivateLayerBlockCipherOptions
  pub shared_to_vec : PublicLayerBlockCipherOptions → Bytes
  pub shared_from_slice : Bytes → Option PublicLayerBlockCipherOptions

abbrev pub Annotations : Type 0
Annotations = List (Str × Str)

abbrev pub provider_prefix : Str
provider_prefix = codes "org.opencontainers.image.enc.keys.provider."

abbrev pub pubopts : Str
pubopts = codes "org.opencontainers.image.enc.pubopts"

abbrev pub default_options : LayerBlockCipherOptions
default_options = record {
  shared = record { cipher_type = []; cipher_options = []; hmac = [] };
  secret = record { symmetric_key = []; cipher_options = []; digest = [] };
}

-- `annotations.unwrap_or(&DEFAULT_ANNOTATION_MAP)`
abbrev pub or_default : Option Annotations → Annotations
or_default none = []
or_default (some annotations) = annotations

-- `LayerBlockCipherHandler::default()`
abbrev pub default_handler : AesCtrBlockCipher
default_handler = record { key_len = 32; encrypting = false; state = none }

abbrev pub lift : {A : Type 0} → Result CipherError A → Result KeyError A
lift (ok a) = ok a
lift (err e) = err (cipher_failed e)

-- `KEY_WRAPPERS_ANNOTATIONS`: the schemes by their annotations
unfoldable pub key_wrappers_annotations : List (Str × KeyWrapper) → List (Str × Str)
key_wrappers_annotations [] = []
key_wrappers_annotations ((scheme, wrapper) ∷ more) =
    insert wrapper.annotation_id scheme (key_wrappers_annotations more)

-- The first annotation of a key provider.
unfoldable pub provider_annotation : Annotations → Option Str
provider_annotation [] = none
provider_annotation ((k, v) ∷ annotations) =
    let rest = provider_annotation annotations in
    if starts_with provider_prefix k then some v else rest

unfoldable pub get_layer_key_opts : Str → Annotations → Option Str
get_layer_key_opts annotations_id annotations =
    if starts_with provider_prefix annotations_id
    then provider_annotation annotations
    else get annotations_id annotations

unfoldable pub get_key_wrapper : List (Str × KeyWrapper) → Str → Result KeyError KeyWrapper
get_key_wrapper wrappers scheme = ok_or (get scheme wrappers) not_supported

module _ (texts : Texts) where
  unfoldable pub pre_wrap_key : KeyWrapper → EncryptConfig → Str → Bytes → Result KeyError Str
  pre_wrap_key keywrapper ec b64_annotations opts_data = do
    new_annotation ← ok_or (keywrapper.wrap_keys ec opts_data) wrap_failed
    bail_if (is_empty new_annotation) no_new_annotation
    ok (
        if is_empty b64_annotations
        then texts.encode new_annotation
        else b64_annotations ++ (b',' ∷ texts.encode new_annotation))

  -- The loop over the packets: the first that is unwrapped, or that is no base64.
  unfoldable pub unwrap_packets : KeyWrapper → DecryptConfig → List Str → Result KeyError Bytes
  unwrap_packets keywrapper dc [] = err no_suitable_key
  unwrap_packets keywrapper dc (b64_annotation ∷ more) =
      let rest = unwrap_packets keywrapper dc more in
      do
        annotation ← ok_or (texts.decode b64_annotation) bad_base64
        elim (keywrapper.unwrap_keys dc annotation) [ some opts_data ↦ ok opts_data | none ↦ rest ]

  unfoldable pub pre_unwrap_key : KeyWrapper → DecryptConfig → Str → Result KeyError Bytes
  pre_unwrap_key keywrapper dc b64_annotations =
      bail_if (is_empty b64_annotations) empty_annotations
      >> unwrap_packets keywrapper dc (split b',' b64_annotations)

  unfoldable pub get_layer_pub_opts : Annotations → Result KeyError Bytes
  get_layer_pub_opts annotations = elim (get pubopts annotations) [
    | some pub_opts ↦ ok_or (texts.decode pub_opts) bad_base64
    | none ↦ ok (texts.shared_to_vec default_options.shared)
  ]

  module _ (wrappers : List (Str × KeyWrapper)) where
    -- The loop over the wrappers, with whether one of them was given a private key.
    unfoldable pub unwrap_with :
        DecryptConfig → Annotations → Bool → List (Str × Str) → Result KeyError Bytes
    unwrap_with dc annotations priv_key_given [] =
        if priv_key_given then err no_suitable_unwrapper else err missing_private_key
    unwrap_with dc annotations priv_key_given ((annotations_id, scheme) ∷ more) =
        elim (get_layer_key_opts annotations_id annotations) [
          | none ↦ unwrap_with dc annotations priv_key_given more
          | some b64_annotation ↦ elim (get_key_wrapper wrappers scheme) [
            | err e ↦ err e
            | ok keywrapper ↦
                let skipped = unwrap_with dc annotations priv_key_given more in
                let next =
                  unwrap_with dc annotations (priv_key_given || keywrapper.private_keys dc.param)
                    more in
                if keywrapper.probe dc.param
                then (pre_unwrap_key keywrapper dc b64_annotation >>= λ opts_data.
                    if is_empty opts_data then next else ok opts_data)
                else skipped
          ]
        ]

    unfoldable pub decrypt_layer_key_opts_data :
        DecryptConfig → Option Annotations → Result KeyError Bytes
    decrypt_layer_key_opts_data dc annotations =
        unwrap_with dc (or_default annotations) false (key_wrappers_annotations wrappers)
