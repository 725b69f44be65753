-- ===== src/Ocicrypt/Rounds.antt =====
-- A layer that is encrypted with a wrapped key is decrypted with it.
use guest_components.Prelude.{
  join, ◌==◌, suc, ◌≡◌, ◌≢◌, inl, inr, refl, sym, ap, ◌∙◌, true, false, Option, none, some, List,
  [], ◌∷◌, Str, Bytes, codes, is_empty, get, insert, length, str_eq, str_eq_refl, str_eq_of_ne,
  starts_with, Bool-cases, Option-cases, All, ok, >>=-eq-ok, ok_inj, bail_if, not, arith,
}
use guest_components.Ocicrypt.Options.{LayerBlockCipherOptions}
use guest_components.Ocicrypt.Cipher.{
  Crypto, AesCtrBlockCipher, Reader, aes256ctr, nonce_of, with_nonce, init, decrypt, finalized_lbco,
}
use guest_components.Ocicrypt.Streams.{read_to_end, giving, concat}
use guest_components.Ocicrypt.Sealed.{
  IsLawful, IsFresh, set_up, noted, keyed, encrypt-fresh, decrypt-encrypt,
}
use guest_components.Ocicrypt.Keys.{
  DecryptConfig, EncryptConfig, KeyWrapper, Texts, Annotations, provider_prefix, pubopts,
  default_options, default_handler, key_wrappers_annotations, provider_annotation,
  get_layer_key_opts, pre_wrap_key, pre_unwrap_key, get_layer_pub_opts, get_key_wrapper,
  unwrap_with, decrypt_layer_key_opts_data,
}
use guest_components.Ocicrypt.Layers.{
  EncLayerFinalizer, wrap_with, options_of, finalize_annotations, check_encrypted, encrypt_layer,
  decrypt_options, decrypt_layer,
}
use guest_components.Ocicrypt.Wrapping.{IsReadBack, pre_unwrap_key-pre_wrap_key}

with_nonce-digest :
    (opts : LayerBlockCipherOptions) (nonce : Bytes)
    → (with_nonce opts nonce).secret.digest ≡ opts.secret.digest
with_nonce-digest opts nonce =
    elim (Option-cases (get (codes "nonce") opts.secret.cipher_options)) [
      | inl missing ↦ rw (missing, with_nonce) refl
      | inr (v, found) ↦ rw (found, with_nonce) refl
    ]

-- Decryption leaves the digest in the options as it is.
decrypt-digest :
    (self : AesCtrBlockCipher) (reader : Reader) (opts o : LayerBlockCipherOptions)
    (random : Option Bytes) (d : AesCtrBlockCipher)
    → decrypt self reader opts random ≡ ok (d, o)
    → o.secret.digest ≡ opts.secret.digest
unfolding decrypt init
decrypt-digest self reader opts o random d h =
    let (_, typed, begun) =
      >>=-eq-ok (bail_if (not (str_eq opts.shared.cipher_type aes256ctr)) _) _ h in
    let (_, keyed, more) =
      >>=-eq-ok (bail_if (not (length opts.secret.symmetric_key == 32)) _) _ begun in
    let (_, coded, rest) = >>=-eq-ok (bail_if (is_empty opts.shared.hmac) _) _ more in
    let (nonce, chosen, last) = >>=-eq-ok (nonce_of opts random) _ rest in
    sym (ap (λ p. p.1.secret.digest) (ok_inj _ _ last)) ∙ with_nonce-digest opts nonce

finalized_lbco-secret :
    (self : AesCtrBlockCipher) (opts o : LayerBlockCipherOptions)
    → finalized_lbco self opts ≡ ok o
    → o.secret ≡ opts.secret
unfolding finalized_lbco
finalized_lbco-secret self opts o h = elim (Option-cases self.state) [
  | inl fresh ↦ absurd (ground (arith, fresh, h))
  | inr (state, begun) ↦ elim (Bool-cases state.done) [
    | inl done ↦
        ap (λ r. r.secret)
          (sym (
            ok_inj (record opts { shared = record opts.shared { hmac = state.exp_hmac } }) o
              (sym (rw (begun, finalized_lbco) (rw done refl)) ∙ h)))
    | inr short ↦ absurd (ground (arith, begun, short, h))
  ]
]

get_second : (j k : Str) (v x : Str) → j ≢ k → get k ((j, v) ∷ (k, x) ∷ []) ≡ some x
unfolding get
get_second j k v x apart = rw (str_eq_of_ne j k apart) (rw (str_eq_refl k) refl)

pub_opts_read :
    (texts : Texts) (annotations : Annotations) (text : Str) (shared : Bytes)
    → get pubopts annotations ≡ some text
    → texts.decode text ≡ some shared
    → get_layer_pub_opts texts annotations ≡ ok shared
unfolding get_layer_pub_opts
pub_opts_read texts annotations text shared found read =
    rw (found, get_layer_pub_opts) (rw read refl)

-- The first wrapper has an annotation and unwraps it.
unwrap_with_first :
    (texts : Texts) (wrappers : List (Str × KeyWrapper)) (dc : DecryptConfig)
    (annotations : Annotations) (id scheme : Str) (w : KeyWrapper) (text : Str) (opts_data : Bytes)
    → get_layer_key_opts id annotations ≡ some text
    → get_key_wrapper wrappers scheme ≡ ok w
    → w.probe dc.param ≡ true
    → pre_unwrap_key texts w dc text ≡ ok opts_data
    → is_empty opts_data ≡ false
    → unwrap_with texts wrappers dc annotations false ((id, scheme) ∷ []) ≡ ok opts_data
unfolding unwrap_with
unwrap_with_first texts wrappers dc annotations id scheme w text opts_data found known probed
      unwrapped full =
    rw (found, unwrap_with) (rw known (rw probed (rw unwrapped (rw full refl))))

module _ (texts : Texts) (law : IsReadBack texts) (scheme : Str) (w : KeyWrapper)
    (ec : EncryptConfig) (dc : DecryptConfig) where
  abbrev one_wrapper : List (Str × KeyWrapper)
  one_wrapper = (scheme, w) ∷ []

  -- Whatever the wrapper wraps for these recipients, it unwraps with this key.
  pub record IsOpened : Type 0 where
    pub probed : w.probe dc.param ≡ true
    pub packet_of : Bytes → Bytes
    pub wraps : (o : Bytes) → w.wrap_keys ec o ≡ some (packet_of o)
    pub full : (o : Bytes) → is_empty (packet_of o) ≡ false
    pub opens : (o : Bytes) → w.unwrap_keys dc (packet_of o) ≡ some o
    pub named : w.annotation_id ≢ pubopts

  module _ (opened : IsOpened) where
    abbrev annotations_of : LayerBlockCipherOptions → Annotations
    annotations_of lbco =
        (w.annotation_id, texts.encode (opened.packet_of (texts.secret_to_vec lbco.secret)))
        ∷ (pubopts, texts.encode (texts.shared_to_vec lbco.shared))
        ∷ []

    pre_wrapped :
        (o : Bytes) → pre_wrap_key texts w ec [] o ≡ ok (texts.encode (opened.packet_of o))
    unfolding pre_wrap_key is_empty
    pre_wrapped o = rw (opened.wraps o) (rw (opened.full o) refl)

    finalize_fresh :
        (opts lbco : LayerBlockCipherOptions) (last : AesCtrBlockCipher)
        → finalized_lbco last opts ≡ ok lbco
        → finalize_annotations texts one_wrapper (record { lbco = opts }) ec none (some last)
          ≡ ok (annotations_of lbco)
    unfolding finalize_annotations options_of wrap_with get_key_wrapper key_wrappers_annotations get
        insert is_empty
    finalize_fresh opts lbco last done =
        let priv = texts.secret_to_vec lbco.secret in
        rw done (
          rw (str_eq_refl scheme) (
            rw (pre_wrapped priv) (
              rw (law.nonempty (opened.packet_of priv) (opened.full priv))
                (rw (str_eq_of_ne w.annotation_id pubopts opened.named) refl))))

    key_opts :
        (lbco : LayerBlockCipherOptions)
        → get_layer_key_opts w.annotation_id (annotations_of lbco)
          ≡ some (texts.encode (opened.packet_of (texts.secret_to_vec lbco.secret)))
    unfolding get_layer_key_opts provider_annotation get
    key_opts lbco = elim (Bool-cases (starts_with provider_prefix w.annotation_id)) [
      | inl provider ↦ rw provider refl
      | inr other ↦ rw other (rw (str_eq_refl w.annotation_id) refl)
    ]

    pre_unwrapped :
        (o : Bytes) → pre_unwrap_key texts w dc (texts.encode (opened.packet_of o)) ≡ ok o
    unfolding join
    pre_unwrapped o =
        pre_unwrap_key-pre_wrap_key texts law w ec dc [] o (opened.packet_of o)
          (texts.encode (opened.packet_of o)) tt (opened.wraps o) (opened.opens o) (pre_wrapped o)

    wrapper_found : get_key_wrapper one_wrapper scheme ≡ ok w
    unfolding get_key_wrapper get
    wrapper_found = rw (str_eq_refl scheme) refl

    key_found :
        (lbco : LayerBlockCipherOptions)
        → decrypt_layer_key_opts_data texts one_wrapper dc (some (annotations_of lbco))
          ≡ ok (texts.secret_to_vec lbco.secret)
    unfolding decrypt_layer_key_opts_data key_wrappers_annotations insert
    key_found lbco =
        let priv = texts.secret_to_vec lbco.secret in
        unwrap_with_first texts one_wrapper dc (annotations_of lbco) w.annotation_id scheme w _ priv
          (key_opts lbco) wrapper_found opened.probed (pre_unwrapped priv)
          (law.secret_some lbco.secret)

    pub_found :
        (lbco : LayerBlockCipherOptions)
        → get_layer_pub_opts texts (annotations_of lbco) ≡ ok (texts.shared_to_vec lbco.shared)
    pub_found lbco =
        pub_opts_read texts (annotations_of lbco) (texts.encode (texts.shared_to_vec lbco.shared)) _
          (get_second w.annotation_id pubopts _ _ opened.named)
          (law.decoded (texts.shared_to_vec lbco.shared))

    decrypt_found :
        (lbco : LayerBlockCipherOptions) (reader : Reader) (random : Option Bytes)
        (d : AesCtrBlockCipher) (o : LayerBlockCipherOptions)
        → decrypt default_handler reader lbco random ≡ ok (d, o)
        → decrypt_layer texts one_wrapper dc reader (some (annotations_of lbco)) false random
          ≡ ok (some d, lbco.secret.digest)
    unfolding decrypt_layer decrypt_options
    decrypt_found lbco reader random d o h = rw (key_found lbco) (
        rw (pub_found lbco) (
          rw (law.secret_read lbco.secret) (
            rw (law.shared_read lbco.shared) (
              rw h (
                ap (λ t. ok (some d, t))
                  (decrypt-digest default_handler reader lbco o random d h))))))

    -- With one wrapper, which unwraps with a key what it wraps for some recipients: a layer that has
    -- no key yet is encrypted for the recipients and read to its end, and annotations are made for
    -- it; with these and the key, what was read, however it comes in pieces, is decrypted to the
    -- layer's bytes, and the layer's digest is given back.
    pub decrypt_layer-encrypt_layer :
        (crypto : Crypto) (sound : IsLawful crypto) (chunks : List Bytes) (digest : Str)
        (key nonce : Bytes)
        → length key ≡ 32
        → length nonce ≡ 16
        → All (λ c. is_empty c ≡ false) chunks
        → (c : AesCtrBlockCipher) × (finalizer : EncLayerFinalizer) × (encrypt_layer texts
              one_wrapper ec
              (giving chunks)
              none
              digest
              (some key)
              (some nonce)
            ≡ ok (some c, finalizer))
          × (last : AesCtrBlockCipher) × (sealed : Bytes) × (read_to_end crypto
                (suc (length chunks))
                c
              ≡ (last, ok sealed))
          × (annotations : Annotations) × (finalize_annotations texts one_wrapper finalizer ec none
                (some last)
              ≡ ok annotations)
          × ((pieces : List Bytes) (random : Option Bytes)
              → All (λ p. is_empty p ≡ false) pieces
              → concat pieces ≡ sealed
              → (d : AesCtrBlockCipher) × (decrypt_layer texts one_wrapper dc
                    (giving pieces)
                    (some annotations)
                    false
                    random
                  ≡ ok (some d, digest))
                × ((read_to_end crypto (suc (length pieces)) d).1 ≡ ok (concat chunks)))
    unfolding encrypt_layer check_encrypted key_wrappers_annotations get insert
    decrypt_layer-encrypt_layer crypto sound chunks digest key nonce long_key long_nonce full =
        let opts : LayerBlockCipherOptions = record default_options {
          secret = record default_options.secret { digest = digest };
        } in
        let fresh : IsFresh crypto sound default_handler opts key nonce =
          (refl, refl, long_key, long_nonce) in
        let (c, with_key, began, last, sealed, reads, finished, done, opens) =
          decrypt-encrypt crypto sound default_handler opts key nonce chunks fresh full in
        let same = ok_inj _ _ (
          sym (encrypt-fresh crypto sound default_handler opts key nonce (giving chunks) fresh)
          ∙ began) in
        let ours =
          set_up default_handler true key nonce (keyed crypto sound default_handler opts key nonce)
            (giving chunks) in
        let lbco = noted (keyed crypto sound default_handler opts key nonce) nonce in
        let secret = finalized_lbco-secret last with_key finished done in
        let kept : finished.secret.digest ≡ digest =
          ap (λ o. o.digest) secret ∙ ap (λ p. p.1.secret.digest) (sym same) in
        (
          ours,
          record { lbco = lbco },
          rw
              (encrypt-fresh crypto sound default_handler default_options key nonce (giving chunks)
                (refl, refl, long_key, long_nonce))
              refl,
          last,
          sealed,
          ap (λ x. read_to_end crypto (suc (length chunks)) x) (ap (λ p. p.0) same) ∙ reads,
          annotations_of finished,
          finalize_fresh lbco finished last (ap (finalized_lbco last) (ap (λ p. p.1) same) ∙ done),
          λ pieces random whole equal.
              let (d, o, decrypts, text) = opens pieces random whole equal in
              (
                d,
                decrypt_found finished (giving pieces) random d o decrypts
                    ∙ ap (λ t. ok (some d, t)) kept,
                text,
              ),
        )
