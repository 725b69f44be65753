-- ===== src/Signature/Tests.antt =====
-- The validator at work on concrete policies and images.
use guest_components.Prelude.{
  ◌≡◌, ◌⊎◌, ◌↔◌, refl, Bool, true, false, Option, none, some, List, [], ◌∷◌, ◌++◌, Str, Bytes,
  codes, contains, str_eq, get, split, is_empty, rsplit_once, All, ok, err,
}
use guest_components.Signature.Digest.{
  Digest, IsDigest, of_parts, from_str, sha256, display, try_from, display-try_from,
}
use guest_components.Signature.Reference.{Oci, get_image_repository_full_name}
use guest_components.Signature.Namespaces.{parents, get_image_namespaces}
use guest_components.Signature.Parents.{IsParent, IsWildcard, Listed}
use guest_components.Signature.Lookup.{IsHost, IsWithoutPort, get_image_namespaces_lem}
use guest_components.Signature.Policy.{
  default_with_reference, match_exact, Policy, Image, accept, reject, PolicyReqType, Reason,
  bad_signature, transport_name, first_scope, matches_docker_reference, requirements_for_image,
}
use guest_components.Signature.Matching.{Matches, matches_docker_reference_lem}
use guest_components.Signature.Requirements.{IsFirst, names_of, requirements_for_image_lem}
use guest_components.Signature.Sigstore.{SigstoreConfig, update_self}
use guest_components.Signature.Update.{IsMerged, update_self_lem}
use guest_components.Signature.Validator.{
  SignatureLayer, without_newlines, verify_signature_and_get_payload, World, SignatureValidator,
  check_image_signature, image_of,
}
use guest_components.Signature.Allowed.{Meets}
use guest_components.Signature.Checked.{check_image_signature_lem, IsNamed}

abbrev hub : Oci Str
hub = record {
  registry = λ r. codes "docker.io";
  repository = λ r. r;
  tag = λ r. some (codes "latest");
  digest = λ r. none;
  whole = λ r. codes "docker.io/" ++ (r ++ codes ":latest");
  parse = λ s. some s;
}

abbrev decode_any : Str → Option Bytes
decode_any s = some s

abbrev value : Str
value = codes "7173b809ca12ec5dee4506cd86be934c4596dd234ee82c0662eac04a8c2c71dc"

abbrev digest : Digest
digest = record { algorithm = codes "sha256"; value = value }

digest-IsDigest : IsDigest decode_any digest
digest-IsDigest = record {
  kind = sha256;
  named = refl;
  long = refl;
  bytes = value;
  hexadecimal = refl;
}

abbrev policy : Policy
policy = record {
  default = reject ∷ [];
  transports = (codes "docker", (codes "docker.io/opensuse", accept ∷ []) ∷ []) ∷ [];
}

abbrev image : Image Str
image = record {
  reference = codes "opensuse/leap";
  manifest_digest = digest;
  manifest_list_digest = none;
}

abbrev stores : SigstoreConfig
stores = record {
  default_config = some (record { sigstore = codes "file:///a" });
  docker_namespace_config = none;
}

abbrev world : World Str
world = record {
  oci = hub;
  decode_hex = decode_any;
  decode_base64 = decode_any;
  get_resource = λ s. none;
  verify_sig_and_extract_payload = λ ring sig. err bad_signature;
  trusted_signature_layers = λ image. err bad_signature;
  is_public_key = λ key. true;
  verify_constraints = λ layers key. true;
  parse_url = λ s. none;
  read_dir = λ s. none;
}

abbrev validator : SignatureValidator
validator = record { policy = policy; simple_signing_sigstore_config = some stores }

read : try_from decode_any (codes "sha256:" ++ value) ≡ ok digest
unfolding try_from split of_parts is_empty from_str str_eq
read = refl

display-try_from_example : (display digest ≡ codes "sha256:" ++ value) × IsDigest decode_any digest
display-try_from_example = display-try_from decode_any (codes "sha256:" ++ value) digest read

plain : contains b':' value ≡ false
unfolding contains
plain = refl

get_image_namespaces_lem_example :
    (host : Str) × (domain : Str) × IsHost hub (codes "opensuse/leap") host
    × IsWithoutPort hub (codes "opensuse/leap") host domain
    × ((s : Str)
        → Listed s (get_image_namespaces hub (codes "opensuse/leap")) ↔ (
            IsParent (get_image_repository_full_name hub (codes "opensuse/leap")) s
            ⊎ IsWildcard domain s))
get_image_namespaces_lem_example = get_image_namespaces_lem hub (codes "opensuse/leap")

matches_docker_reference_lem_example :
    (matches_docker_reference hub match_exact (codes "a") (codes "docker.io/a:latest") ≡ ok tt)
    ↔ Matches hub match_exact (codes "a") (codes "docker.io/a:latest")
matches_docker_reference_lem_example =
    matches_docker_reference_lem hub match_exact (codes "a") (codes "docker.io/a:latest")

requirements_for_image_lem_example :
    ((get transport_name policy.transports ≡ none)
      × (requirements_for_image hub policy image ≡ policy.default))
    ⊎ ((scopes : List (Str × List PolicyReqType)) × (get transport_name policy.transports
          ≡ some scopes)
        × IsFirst scopes
            (names_of hub policy image)
            policy.default
            (requirements_for_image hub policy image))
requirements_for_image_lem_example = requirements_for_image_lem hub policy image

-- The image is looked up in the parent of its repository.
parent_found : requirements_for_image hub policy image ≡ accept ∷ []
unfolding requirements_for_image get_image_namespaces get_image_repository_full_name str_eq get
    first_scope parents rsplit_once is_empty
parent_found = refl

update_self_lem_example :
    (((update_self stores stores).1 ≡ ok tt) × IsMerged stores stores (update_self stores stores).0)
    ⊎ ((e : Reason) × ((update_self stores stores).1 ≡ err e)
        × ((update_self stores stores).0 ≡ stores))
update_self_lem_example = update_self_lem stores stores

check_image_signature_lem_example :
    (check_image_signature world validator (codes "opensuse/leap") (codes "sha256:" ++ value) none
      ≡ ok tt)
    ↔ ((image : Image Str) × IsNamed world
          (codes "opensuse/leap")
          (codes "sha256:" ++ value)
          none
          image
        × All (Meets world validator image) (requirements_for_image hub policy image))
check_image_signature_lem_example =
    check_image_signature_lem world validator (codes "opensuse/leap") (codes "sha256:" ++ value)
      none

-- A layer whose signature ends in a newline, and a payload of another image.
abbrev signed_layer : SignatureLayer
signed_layer = record {
  raw_data = [];
  signature = some (codes "sig" ++ (10 ∷ []));
  simple_signing = record {
    critical = record {
      type_name = [];
      image = record { docker_manifest_digest = codes "sha256:other" };
      identity = record { docker_reference = codes "busybox" };
    };
  };
}

abbrev is_sig : List SignatureLayer → Bool
is_sig [] = false
is_sig (layer ∷ layers) = elim layer.signature [
  | none ↦ is_sig layers
  | some s ↦ str_eq s (codes "sig")
]

abbrev cosign_world : World Str
cosign_world = record world {
  trusted_signature_layers = λ image. ok (signed_layer ∷ []);
  verify_constraints = λ layers key. is_sig layers;
}

-- The newline is taken out before the key is tried.
payloads_run :
    verify_signature_and_get_payload cosign_world (default_with_reference (codes "busybox")) []
    ≡ ok (signed_layer.simple_signing ∷ [])
unfolding verify_signature_and_get_payload without_newlines str_eq
payloads_run = refl

-- The list's digest is read when it is given.
listed_run :
    image_of world validator
      (codes "busybox")
      (codes "sha256:" ++ value)
      (some (codes "sha256:" ++ value))
    ≡ ok (record {
      reference = codes "busybox";
      manifest_digest = digest;
      manifest_list_digest = some digest;
    })
unfolding image_of try_from split of_parts is_empty from_str str_eq
listed_run = refl
