-- ===== src/Signature/Validator.antt =====
-- `SignatureValidator`: image-rs/src/signature/mod.rs, with policy/{simple, cosign}/mod.rs and
-- payload/simple_signing.rs.
use guest_components.Prelude.{
  Bool, ◌||◌, ◌==◌, map, not, Option, none, some, List, [], ◌∷◌, ◌++◌, Str, Bytes, codes, str_eq,
  is_empty, if◌then◌else◌, Result, ok, err, ◌>>=◌, ◌>>◌, bail_if, ok_or, map_err,
}
use guest_components.Signature.Digest.{Digest, display, try_from, has_no_value}
use guest_components.Signature.Reference.{Oci}
use guest_components.Signature.Policy.{
  PolicyReqMatchType, match_exact, match_repo_digest_or_exact, match_repository, exact_reference,
  exact_repository, remap_identity, CosignParameters, SimpleParameters, PolicyReqType, accept,
  reject, simple_signing, cosign, Policy, Image, Reason, Refusal, for_reason, none_satisfied,
  rejected, bad_signature, unknown_key_type, no_key, both_keys, bad_key, no_resource,
  no_sigstore_config, missing_digest, no_signatures, no_base_url, bad_sigstore_uri, digest_mismatch,
  rule_denied, default_with_reference, set_manifest_digest, set_manifest_list_digest,
  matches_docker_reference, parsed, requirements_for_image,
}
use guest_components.Signature.Sigstore.{
  SigstoreConfig, Entry, format_sigstore_name, base_url, get_sigs_from_specific_sigstore,
}

-- The payload of a signature, as far as it is looked at.
pub record Identity : Type 0 where
  pub docker_reference : Str

pub record SignedImage : Type 0 where
  pub docker_manifest_digest : Str

pub record Critical : Type 0 where
  pub type_name : Str
  pub image : SignedImage
  pub identity : Identity

pub record SigPayload : Type 0 where
  pub critical : Critical

-- A layer of a cosign signature, as sigstore reads it: what was signed, the signature's text, and the
-- payload in it.
pub record SignatureLayer : Type 0 where
  pub raw_data : Bytes
  pub signature : Option Str
  pub simple_signing : SigPayload

unfoldable pub without_newlines : Str → Str
without_newlines [] = []
without_newlines (c ∷ s) =
    let rest = without_newlines s in if c == 10 || c == 13 then rest else c ∷ rest

abbrev pub cleaned_text : Option Str → Option Str
cleaned_text none = none
cleaned_text (some signature) = some (without_newlines signature)

abbrev pub cleaned : SignatureLayer → SignatureLayer
cleaned layer = record layer { signature = cleaned_text layer.signature }

-- The crates, files and services behind the checks.
pub record World (Reference : Type 0) : Type 0 where
  pub oci : Oci Reference
  pub decode_hex : Str → Option Bytes
  pub decode_base64 : Str → Option Bytes
  pub get_resource : Str → Option Bytes
  pub verify_sig_and_extract_payload : Bytes → Bytes → Result Reason SigPayload
  -- sigstore: the layers of an image's signatures, whether a key can be read, and whether the key
  -- verifies one of the layers
  pub trusted_signature_layers : Reference → Result Reason (List SignatureLayer)
  pub is_public_key : Bytes → Bool
  pub verify_constraints : List SignatureLayer → Bytes → Bool
  pub parse_url : Str → Option (Str × Str)
  pub read_dir : Str → Option (List Entry)

pub data SignatureError : Type 0 where
  illegal_image_reference illegal_image_digest : Str → SignatureError
  denied_by_policy : Refusal → SignatureError

pub record SignatureValidator : Type 0 where
  pub policy : Policy
  pub simple_signing_sigstore_config : Option SigstoreConfig

-- `Err(e)` of the smaller type of errors, by `?`
abbrev pub lift : {A : Type 0} → Result Reason A → Result Refusal A
lift (ok a) = ok a
lift (err e) = err (for_reason e)

-- `.map_err(|source| DeniedByPolicy { source })`
abbrev pub denied : Result Refusal (Unit {0}) → Result SignatureError (Unit {0})
denied (ok _) = ok tt
denied (err source) = err (denied_by_policy source)

module _ {Reference : Type 0} (w : World Reference) where
  -- `validate_signed_docker_manifest_digest`
  unfoldable pub validate_digest : SigPayload → Str → Result Reason (Unit {0})
  validate_digest self ref_manifest_digest =
      bail_if (not (str_eq self.critical.image.docker_manifest_digest ref_manifest_digest))
        digest_mismatch

  -- `validate_signed_docker_reference`
  unfoldable pub validate_reference :
      SigPayload → Reference → PolicyReqMatchType → Result Reason (Unit {0})
  validate_reference self image_ref match_policy =
      matches_docker_reference w.oci match_policy image_ref self.critical.identity.docker_reference

  abbrev pub or_repo_digest : Option PolicyReqMatchType → PolicyReqMatchType
  or_repo_digest (some rule) = rule
  or_repo_digest none = match_repo_digest_or_exact

  unfoldable pub judge_single_signature :
      Image Reference → Option PolicyReqMatchType → Bytes → Bytes → Result Reason (Unit {0})
  judge_single_signature image signed_identity pubkey_ring sig = do
    sig_payload ← w.verify_sig_and_extract_payload pubkey_ring sig
    validate_reference sig_payload image.reference (or_repo_digest signed_identity)
    validate_digest sig_payload (display image.manifest_digest)

  -- The loop over the signatures: one that is accepted is enough.
  unfoldable pub judge_signatures :
      Image Reference
      → Option PolicyReqMatchType
      → Bytes
      → List Bytes
      → List Reason
      → Result Refusal (Unit {0})
  judge_signatures image signed_identity pubkey_ring [] reject_reasons =
      if is_empty reject_reasons
      then err (none_satisfied (no_signatures ∷ []))
      else err (none_satisfied reject_reasons)
  judge_signatures image signed_identity pubkey_ring (sig ∷ sigs) reject_reasons =
      elim (judge_single_signature image signed_identity pubkey_ring sig) [
        | ok _ ↦ ok tt
        | err e ↦
            judge_signatures image signed_identity pubkey_ring sigs (reject_reasons ++ (e ∷ []))
      ]

  unfoldable pub image_digest_of : Image Reference → Result Reason Digest
  image_digest_of image =
      if not (has_no_value image.manifest_digest)
      then ok image.manifest_digest
      else elim (w.oci.digest image.reference) [
        | some d ↦ map_err (try_from w.decode_hex d) missing_digest
        | none ↦ err missing_digest
      ]

  -- The signatures of the image's store.
  unfoldable pub get_signatures :
      Option SigstoreConfig → Image Reference → Result Reason (List Bytes)
  get_signatures simple_signing_sigstore_config image = do
    config ← ok_or simple_signing_sigstore_config no_sigstore_config
    image_digest ← image_digest_of image
    sigstore_base_url ← ok_or (base_url w.oci config image.reference) no_base_url
    sigstore_uri ←
        ok_or
          (w.parse_url
            (sigstore_base_url ++ (b'/' ∷ format_sigstore_name w.oci image.reference image_digest)))
          bad_sigstore_uri
    get_sigs_from_specific_sigstore w.read_dir sigstore_uri.0 sigstore_uri.1

  unfoldable pub pubkey_ring_of : SimpleParameters → Result Reason Bytes
  pubkey_ring_of parameters = elim parameters.key_path [
    | none ↦ elim parameters.key_data [
      | none ↦ err no_key
      | some key_data ↦ ok_or (w.decode_base64 key_data) bad_key
    ]
    | some key_path ↦ elim parameters.key_data [
      | some _ ↦ err both_keys
      | none ↦ ok_or (w.get_resource key_path) no_resource
    ]
  ]

  unfoldable pub simple_signing_allows_image :
      SignatureValidator → SimpleParameters → Image Reference → Result Refusal (Unit {0})
  simple_signing_allows_image self parameters image = do
    lift (bail_if (not (str_eq parameters.key_type (codes "GPGKeys"))) unknown_key_type)
    pubkey_ring ← lift (pubkey_ring_of parameters)
    sigs ← lift (get_signatures self.simple_signing_sigstore_config image)
    judge_signatures image parameters.signed_identity pubkey_ring sigs []

  unfoldable pub check_reference_rule_types : Option PolicyReqMatchType → Result Reason (Unit {0})
  check_reference_rule_types none = ok tt
  check_reference_rule_types (some match_repository) = ok tt
  check_reference_rule_types (some (exact_repository _)) = ok tt
  check_reference_rule_types (some match_exact) = err rule_denied
  check_reference_rule_types (some match_repo_digest_or_exact) = err rule_denied
  check_reference_rule_types (some (exact_reference _)) = err rule_denied
  check_reference_rule_types (some (remap_identity _ _)) = err rule_denied

  unfoldable pub cosign_key : CosignParameters → Result Reason Bytes
  cosign_key parameter = elim parameter.key_data [
    | none ↦ elim parameter.key_path [
      | none ↦ err no_key
      | some key_path ↦ ok_or (w.get_resource key_path) no_resource
    ]
    | some key_data ↦ elim parameter.key_path [ none ↦ ok key_data | some _ ↦ err both_keys ]
  ]

  -- The digest that is signed is the manifest's, or the manifest list's.
  unfoldable pub check_digests : Image Reference → SigPayload → Result Reason (Unit {0})
  check_digests image payload = elim (validate_digest payload (display image.manifest_digest)) [
    | ok _ ↦ ok tt
    | err _ ↦ elim image.manifest_list_digest [
      | some manifest_list_digest ↦ validate_digest payload (display manifest_list_digest)
      | none ↦ err digest_mismatch
    ]
  ]

  abbrev pub check_identity :
      Option PolicyReqMatchType → Image Reference → SigPayload → Result Reason (Unit {0})
  check_identity none image payload = ok tt
  check_identity (some rule) image payload = validate_reference payload image.reference rule

  unfoldable pub check_payloads :
      Option PolicyReqMatchType → Image Reference → List SigPayload → Result Reason (Unit {0})
  check_payloads rule image [] = ok tt
  check_payloads rule image (payload ∷ payloads) = do
    check_identity rule image payload
    check_digests image payload
    check_payloads rule image payloads

  -- The payloads are those of all the layers.
  unfoldable pub verify_signature_and_get_payload :
      Image Reference → Bytes → Result Reason (List SigPayload)
  verify_signature_and_get_payload image key = do
    image_ref ← parsed w.oci (w.oci.whole image.reference)
    layers ← w.trusted_signature_layers image_ref
    let signature_layers = map cleaned layers
    bail_if (not (w.is_public_key key)) bad_key
    bail_if (not (w.verify_constraints signature_layers key)) bad_signature
    ok (map (λ layer. layer.simple_signing) signature_layers)

  unfoldable pub cosign_allows_image : CosignParameters → Image Reference → Result Reason (Unit {0})
  cosign_allows_image parameter image = do
    check_reference_rule_types parameter.signed_identity
    key ← cosign_key parameter
    payloads ← verify_signature_and_get_payload image key
    check_payloads parameter.signed_identity image payloads

  module _ (self : SignatureValidator) where
    unfoldable pub check_image_requirement :
        PolicyReqType → Image Reference → Result Refusal (Unit {0})
    check_image_requirement accept image = ok tt
    check_image_requirement reject image = err (for_reason rejected)
    check_image_requirement (simple_signing inner) image =
        simple_signing_allows_image self inner image
    check_image_requirement (cosign inner) image = lift (cosign_allows_image inner image)

    -- `for req in reqs`
    unfoldable pub check_requirements :
        Image Reference → List PolicyReqType → Result Refusal (Unit {0})
    check_requirements image [] = ok tt
    check_requirements image (req ∷ reqs) = do
      check_image_requirement req image
      check_requirements image reqs

    -- The image that the arguments name.
    unfoldable pub image_of : Str → Str → Option Str → Result SignatureError (Image Reference)
    image_of image_reference image_digest manifest_list_digest = do
      reference ← ok_or (w.oci.parse image_reference) (illegal_image_reference image_reference)
      image ←
          map_err (set_manifest_digest w.decode_hex (default_with_reference reference) image_digest)
            (illegal_image_digest image_digest)
      elim manifest_list_digest [
        | none ↦ ok image
        | some list_digest ↦
            map_err (set_manifest_list_digest w.decode_hex image list_digest)
              (illegal_image_digest list_digest)
      ]

    unfoldable pub check_image_signature : Str → Str → Option Str → Result SignatureError (Unit {0})
    check_image_signature image_reference image_digest manifest_list_digest = do
      image ← image_of image_reference image_digest manifest_list_digest
      denied (check_requirements image (requirements_for_image w.oci self.policy image))
