-- ===== src/Ocicrypt/Layers.antt =====
-- Encrypting and decrypting a layer with wrapped keys: ocicrypt-rs/src/encryption.rs.
use guest_components.Prelude.{
  Bool, true, false, Option, none, some, List, [], ◌∷◌, Str, Bytes, is_empty, get, insert,
  if◌then◌else◌, Result, ok, err, ◌>>=◌, ◌>>◌, bail_if, ok_or,
}
use guest_components.Ocicrypt.Options.{LayerBlockCipherOptions}
use guest_components.Ocicrypt.Cipher.{
  AesCtrBlockCipher, Reader, aes256ctr, encrypt, decrypt, finalized_lbco,
}
use guest_components.Ocicrypt.Keys.{
  DecryptConfig, EncryptConfig, KeyError, no_wrapped_keys, bad_json, no_decrypt_config, KeyWrapper,
  Texts, Annotations, pubopts, default_options, or_default, default_handler, lift,
  key_wrappers_annotations, pre_wrap_key, get_layer_pub_opts, get_key_wrapper,
  decrypt_layer_key_opts_data,
}

pub record EncLayerFinalizer : Type 0 where
  pub lbco : LayerBlockCipherOptions

-- The text of an annotation that is there, or none.
abbrev pub text_of : Option Str → Str
text_of none = []
text_of (some text) = text

module _ (texts : Texts) (wrappers : List (Str × KeyWrapper)) where
  -- The loop over the wrappers, with the annotations that they have made.
  unfoldable pub wrap_with :
      EncryptConfig
      → Annotations
      → Bytes
      → List (Str × Str)
      → Annotations
      → Result KeyError Annotations
  wrap_with ec anno priv_opts [] new_annotations = ok new_annotations
  wrap_with ec anno priv_opts ((annotations_id, scheme) ∷ more) new_annotations = do
    key_wrapper ← get_key_wrapper wrappers scheme
    b64_annotations ←
        pre_wrap_key texts key_wrapper ec (text_of (get annotations_id anno)) priv_opts
    wrap_with ec anno priv_opts more (
        if is_empty b64_annotations
        then new_annotations
        else insert annotations_id b64_annotations new_annotations)

  -- The options, private and public, of a layer that was read.
  unfoldable pub options_of :
      EncLayerFinalizer → Option AesCtrBlockCipher → Result KeyError (Bytes × Bytes)
  options_of self none = ok ([], [])
  options_of self (some lbch) = do
    lbco ← lift (finalized_lbco lbch self.lbco)
    ok (texts.secret_to_vec lbco.secret, texts.shared_to_vec lbco.shared)

  -- With the cipher that has read the layer, if there is one.
  unfoldable pub finalize_annotations :
      EncLayerFinalizer
      → EncryptConfig
      → Option Annotations
      → Option AesCtrBlockCipher
      → Result KeyError Annotations
  finalize_annotations self ec annotations finalizer = do
    options ← options_of self finalizer
    new_annotations ←
        wrap_with ec (or_default annotations) options.0 (key_wrappers_annotations wrappers) []
    bail_if (is_empty new_annotations) no_wrapped_keys
    ok (insert pubopts (texts.encode options.1) new_annotations)

  -- Whether the layer has a key already, which has to be unwrapped then.
  unfoldable pub check_encrypted :
      EncryptConfig → Option Annotations → List (Str × Str) → Bool → Result KeyError Bool
  check_encrypted ec annotations [] encrypted = ok encrypted
  check_encrypted ec annotations ((annotations_id, scheme) ∷ more) encrypted =
      let skipped = check_encrypted ec annotations more encrypted in
      let next = check_encrypted ec annotations more true in
      elim (get annotations_id (or_default annotations)) [
        | none ↦ skipped
        | some _ ↦ elim ec.decrypt_config [
          | none ↦ err no_decrypt_config
          | some decrypt_config ↦ do
            opts_data ← decrypt_layer_key_opts_data texts wrappers decrypt_config annotations
            pub_opts ← get_layer_pub_opts texts (or_default annotations)
            next
        ]
      ]

  unfoldable pub encrypt_layer :
      EncryptConfig
      → Reader
      → Option Annotations
      → Str
      → Option Bytes
      → Option Bytes
      → Result KeyError (Option AesCtrBlockCipher × EncLayerFinalizer)
  encrypt_layer ec layer_reader annotations digest key nonce = do
    encrypted ← check_encrypted ec annotations (key_wrappers_annotations wrappers) false
    if encrypted
        then ok (none, record { lbco = default_options })
        else (lift (encrypt default_handler layer_reader aes256ctr default_options key nonce)
            >>= λ r. ok (
              some r.0,
              record { lbco = record r.1 { secret = record r.1.secret { digest = digest } } },
            ))

  -- The options of a layer and the cipher that reads it.
  unfoldable pub decrypt_options :
      Reader → Bytes → Bytes → Option Bytes → Result KeyError (AesCtrBlockCipher × Str)
  decrypt_options layer_reader priv_opts_data pub_opts_data random = do
    priv_opts ← ok_or (texts.secret_from_slice priv_opts_data) bad_json
    pub_opts ← ok_or (texts.shared_from_slice pub_opts_data) bad_json
    r ← lift (
        decrypt default_handler layer_reader (record { shared = pub_opts; secret = priv_opts })
          random)
    ok (r.0, r.1.secret.digest)

  unfoldable pub decrypt_layer :
      DecryptConfig
      → Reader
      → Option Annotations
      → Bool
      → Option Bytes
      → Result KeyError (Option AesCtrBlockCipher × Str)
  decrypt_layer dc layer_reader annotations unwrap_only random = do
    priv_opts_data ← decrypt_layer_key_opts_data texts wrappers dc annotations
    pub_opts_data ← get_layer_pub_opts texts (or_default annotations)
    if unwrap_only
        then ok (none, [])
        else (decrypt_options layer_reader priv_opts_data pub_opts_data random >>= λ r.
            ok (some r.0, r.1))

  unfoldable pub async_decrypt_layer :
      Reader → Option Annotations → Bytes → Option Bytes → Result KeyError (AesCtrBlockCipher × Str)
  async_decrypt_layer layer_reader annotations priv_opts_data random = do
    pub_opts_data ← get_layer_pub_opts texts (or_default annotations)
    decrypt_options layer_reader priv_opts_data pub_opts_data random
