-- ===== src/Signature/Sigstore.antt =====
-- Where simple signatures are stored: image-rs/src/signature/policy/simple/sigstore.rs.
use guest_components.Prelude.{
  Bool, false, Option, none, some, List, [], ◌∷◌, ◌++◌, Str, Bytes, codes, str_eq, get, insert,
  if◌then◌else◌, Result, ok, err, ◌>>=◌,
}
use guest_components.Signature.Digest.{Digest}
use guest_components.Signature.Reference.{Oci}
use guest_components.Signature.Namespaces.{get_image_namespaces}
use guest_components.Signature.Policy.{
  Reason, defined_repeatedly, cannot_read, unsupported_scheme, first_scope,
}

-- The base address of one namespace's store.
pub record SigstoreConfigEntry : Type 0 where
  pub sigstore : Str

abbrev pub Entries : Type 0
Entries = List (Str × SigstoreConfigEntry)

pub record SigstoreConfig : Type 0 where
  pub default_config : Option SigstoreConfigEntry
  pub docker_namespace_config : Option Entries

unfoldable pub entry_eq : SigstoreConfigEntry → SigstoreConfigEntry → Bool
entry_eq a b = str_eq a.sigstore b.sigstore

unfoldable pub get_namespace : SigstoreConfig → Str → Option SigstoreConfigEntry
get_namespace self ns = elim self.docker_namespace_config [
  | some docker ↦ get ns docker
  | none ↦ none
]

unfoldable pub insert_namespace : SigstoreConfig → Str → SigstoreConfigEntry → SigstoreConfig
insert_namespace self ns_name ns_config = elim self.docker_namespace_config [
  | some docker ↦ record self { docker_namespace_config = some (insert ns_name ns_config docker) }
  | none ↦ record self { docker_namespace_config = some (insert ns_name ns_config []) }
]

-- The default of the input, which may not differ from one that is there.
unfoldable pub update_default :
    SigstoreConfig → Option SigstoreConfigEntry → Result Reason SigstoreConfig
update_default merged none = ok merged
update_default merged (some e) = elim merged.default_config [
  | none ↦ ok (record merged { default_config = some e })
  | some d ↦
      if entry_eq e d
      then ok (record merged { default_config = some e })
      else err defined_repeatedly
]

-- The loop over the input's namespaces.
unfoldable pub update_namespaces : SigstoreConfig → Entries → Result Reason SigstoreConfig
update_namespaces merged [] = ok merged
update_namespaces merged ((ns_name, ns_config) ∷ entries) = elim (get_namespace merged ns_name) [
  | some namespace ↦
      let rest = update_namespaces merged entries in
      if entry_eq namespace ns_config then rest else err defined_repeatedly
  | none ↦ update_namespaces (insert_namespace merged ns_name ns_config) entries
]

abbrev pub entries_of : Option Entries → Entries
entries_of none = []
entries_of (some entries) = entries

-- `update_self`: what `self` becomes, and the result. It is written back only at the end.
unfoldable pub update_self :
    SigstoreConfig → SigstoreConfig → SigstoreConfig × Result Reason (Unit {0})
update_self self input =
    elim (update_default self input.default_config >>= λ merged.
    update_namespaces merged (entries_of input.docker_namespace_config)) [
      | ok merged_config ↦ (merged_config, ok tt)
      | err e ↦ (self, err e)
    ]

-- A directory's entry: a file with its name's extension and its text, if it can be read.
pub data Entry : Type 0 where
  directory : Entry
  file : Option Str → Option Bytes → Entry

-- `new_from_configs`: the `.yaml` files of a directory, merged in their order.
unfoldable merge_configs :
    (Bytes → Option SigstoreConfig) → SigstoreConfig → List Entry → Result Reason SigstoreConfig
merge_configs parse merged [] = ok merged
merge_configs parse merged (directory ∷ entries) = merge_configs parse merged entries
merge_configs parse merged (file extension text ∷ entries) =
    let skipped = merge_configs parse merged entries in
    if elim extension [ none ↦ false | some x ↦ str_eq x (codes "yaml") ]
    then elim text [
      | none ↦ err cannot_read
      | some bytes ↦ elim (parse bytes) [
        | none ↦ err cannot_read
        | some config ↦ elim (update_self merged config).1 [
          | err e ↦ err e
          | ok _ ↦ merge_configs parse (update_self merged config).0 entries
        ]
      ]
    ]
    else skipped

module _ {Reference : Type 0} (oci : Oci Reference) where
  unfoldable pub format_sigstore_name : Reference → Digest → Str
  format_sigstore_name image_ref image_digest =
      oci.repository image_ref ++ (b'@' ∷ (image_digest.algorithm ++ (b'=' ∷ image_digest.value)))

  -- The store of the whole reference, of the first of its namespaces that has one, or the default.
  unfoldable pub base_url : SigstoreConfig → Reference → Option Str
  base_url self image_ref =
      let names = oci.whole image_ref ∷ get_image_namespaces oci image_ref in
      elim (first_scope oci (entries_of self.docker_namespace_config) names) [
        | some e ↦ some e.sigstore
        | none ↦ elim self.default_config [ some e ↦ some e.sigstore | none ↦ none ]
      ]

-- `get_sigs_from_specific_sigstore`: the files of the directory that the address names.
unfoldable pub read_signatures : List Entry → Result Reason (List Bytes)
read_signatures [] = ok []
read_signatures (directory ∷ entries) = read_signatures entries
read_signatures (file extension none ∷ entries) = err cannot_read
read_signatures (file extension (some sig) ∷ entries) = do
  rest ← read_signatures entries
  ok (sig ∷ rest)

unfoldable pub get_sigs_from_specific_sigstore :
    (Str → Option (List Entry)) → Str → Str → Result Reason (List Bytes)
get_sigs_from_specific_sigstore read_dir scheme path =
    if str_eq scheme (codes "file")
    then elim (read_dir path) [ none ↦ err cannot_read | some entries ↦ read_signatures entries ]
    else err unsupported_scheme
