-- ===== src/Signature/Policy.antt =====
-- Policies and how a signed reference is matched: image-rs/src/signature/policy/{mod, ref_match,
-- policy_requirement}.rs and the image of image-rs/src/signature/image/mod.rs.
use guest_components.Prelude.{
  Bool, true, false, ◌&&◌, not, Option, none, some, List, [], ◌∷◌, ◌++◌, Str, Bytes, codes, str_eq,
  strip_prefix, get, if◌then◌else◌, Result, ok, err, ◌>>=◌, ◌>>◌, bail_if,
}
use guest_components.Signature.Digest.{Digest, ParseError, try_from, default}
use guest_components.Signature.Reference.{Oci, get_image_repository_full_name}
use guest_components.Signature.Namespaces.{get_image_namespaces}

pub data PolicyReqMatchType : Type 0 where
  match_exact match_repo_digest_or_exact match_repository : PolicyReqMatchType
  exact_reference exact_repository : Str → PolicyReqMatchType
  remap_identity : Str → Str → PolicyReqMatchType

pub record CosignParameters : Type 0 where
  pub key_path : Option Str
  pub key_data : Option Str
  pub signed_identity : Option PolicyReqMatchType

pub record SimpleParameters : Type 0 where
  pub key_type : Str
  pub key_path : Option Str
  pub key_data : Option Str
  pub signed_identity : Option PolicyReqMatchType

pub data PolicyReqType : Type 0 where
  accept reject : PolicyReqType
  simple_signing : SimpleParameters → PolicyReqType
  cosign : CosignParameters → PolicyReqType

pub record Policy : Type 0 where
  pub default : List PolicyReqType
  pub transports : List (Str × List (Str × List PolicyReqType))

pub record Image (Reference : Type 0) : Type 0 where
  pub reference : Reference
  pub manifest_digest : Digest
  pub manifest_list_digest : Option Digest

-- Why an image is refused.
pub data Reason : Type 0 where
  digest_with_match_exact match_reference illegal_reference rejected unknown_key_type : Reason
  no_key both_keys bad_key no_resource no_sigstore_config missing_digest no_signatures : Reason
  no_base_url bad_sigstore_uri unsupported_scheme bad_signature digest_mismatch rule_denied : Reason
  cannot_read defined_repeatedly : Reason

-- Why simple signing refuses: a fault, or that every signature had one.
pub data Refusal : Type 0 where
  for_reason : Reason → Refusal
  none_satisfied : List Reason → Refusal

abbrev pub is_some : {A : Type 0} → Option A → Bool
is_some none = false
is_some (some _) = true

abbrev pub default_with_reference : {Reference : Type 0} → Reference → Image Reference
default_with_reference image_ref = record {
  reference = image_ref;
  manifest_digest = default;
  manifest_list_digest = none;
}

abbrev pub transport_name : Str
transport_name = codes "docker"

module _ {Reference : Type 0} (decode : Str → Option Bytes) where
  abbrev pub set_manifest_digest : Image Reference → Str → Result ParseError (Image Reference)
  set_manifest_digest self digest = do
    d ← try_from decode digest
    ok (record self { manifest_digest = d })

  abbrev pub set_manifest_list_digest : Image Reference → Str → Result ParseError (Image Reference)
  set_manifest_list_digest self digest = do
    d ← try_from decode digest
    ok (record self { manifest_list_digest = some d })

module _ {Reference : Type 0} (oci : Oci Reference) where
  -- `Reference::try_from(s)?`
  abbrev pub parsed : Str → Result Reason Reference
  parsed s = elim (oci.parse s) [ some r ↦ ok r | none ↦ err illegal_reference ]

  -- The parsed reference has another repository.
  abbrev pub other_repository : Reference → Str → Result Reason (Unit {0})
  other_repository origin signed_image_ref = do
    signed ← parsed signed_image_ref
    bail_if
        (not (
          str_eq (get_image_repository_full_name oci origin)
            (get_image_repository_full_name oci signed)))
        match_reference

  -- The tests that two of the rules share.
  abbrev pub digest_or_exact : Reference → Str → Result Reason (Unit {0})
  digest_or_exact origin signed_image_ref = do
    bail_if (is_some (oci.tag origin) && not (str_eq (oci.whole origin) signed_image_ref))
        match_reference
    if is_some (oci.digest origin) then other_repository origin signed_image_ref else ok tt

  -- `prefix` of a reference replaced
  unfoldable pub remapped : Str → Str → Str → Str
  remapped prefix signed_prefix origin = elim (strip_prefix prefix origin) [
    | none ↦ origin
    | some ref_with_no_prefix ↦ signed_prefix ++ ref_with_no_prefix
  ]

  unfoldable pub matches_docker_reference :
      PolicyReqMatchType → Reference → Str → Result Reason (Unit {0})
  matches_docker_reference match_exact origin signed_image_ref = do
    bail_if (is_some (oci.digest origin)) digest_with_match_exact
    bail_if (not (str_eq (oci.whole origin) signed_image_ref)) match_reference
  matches_docker_reference match_repo_digest_or_exact origin signed_image_ref =
      digest_or_exact origin signed_image_ref
  matches_docker_reference match_repository origin signed_image_ref =
      other_repository origin signed_image_ref
  matches_docker_reference (exact_reference docker_reference) origin signed_image_ref =
      bail_if (not (str_eq signed_image_ref docker_reference)) match_reference
  matches_docker_reference (exact_repository docker_repository) origin signed_image_ref = do
    signed ← parsed signed_image_ref
    bail_if (not (str_eq (get_image_repository_full_name oci signed) docker_repository))
        match_reference
  matches_docker_reference (remap_identity prefix signed_prefix) origin signed_image_ref = do
    new_origin_ref ← parsed (remapped prefix signed_prefix (oci.whole origin))
    digest_or_exact new_origin_ref signed_image_ref

  -- `for name in namespaces { if contains_key(name) { return get(name) } }`
  unfoldable pub first_scope : {V : Type 0} → List (Str × V) → List Str → Option V
  first_scope scopes [] = none
  first_scope scopes (name ∷ names) = elim (get name scopes) [
    | some reqs ↦ some reqs
    | none ↦ first_scope scopes names
  ]

  unfoldable pub requirements_for_image : Policy → Image Reference → List PolicyReqType
  requirements_for_image self image = elim (get transport_name self.transports) [
    | none ↦ self.default
    | some transport_scopes ↦ elim (get (oci.whole image.reference) transport_scopes) [
      | some reqs ↦ reqs
      | none ↦ elim (first_scope transport_scopes (get_image_namespaces oci image.reference)) [
        | some reqs ↦ reqs
        | none ↦ elim (get [] transport_scopes) [ some reqs ↦ reqs | none ↦ self.default ]
      ]
    ]
  ]
