-- ===== src/Registries/Config.antt =====
-- The configuration of registries, and the tasks it leads to: image-rs/src/registry/mod.rs and the
-- task types of image-rs/src/image.rs.
use guest_components.Prelude.{
  Bool, ◌&&◌, Option, List, [], ◌∷◌, Str, codes, is_empty, starts_with, if◌then◌else◌, Result, ok,
  err, ◌>>=◌, ◌>>◌, bail_if,
}

pub data TaskType : Type 0 where
  origininal : TaskType
  remapped : TaskType
  mirrored : TaskType
  unqualified_search : TaskType

-- One try at an image. The reference's type is oci_client's.
pub record ImagePullTask (Reference : Type 0) : Type 0 where
  pub image_reference : Reference
  pub use_http : Bool
  pub task_type : TaskType

-- What is asked of the crate's references.
pub record References (Reference : Type 0) : Type 0 where
  pub registry : Reference → Str
  pub repository : Reference → Str
  pub tag : Reference → Option Str
  -- asked for only where there is no tag
  pub digest : Reference → Str
  pub to_string : Reference → Str
  pub with_tag : Str → Str → Str → Reference
  pub with_digest : Str → Str → Str → Reference
  pub from_str : Str → Option Reference

pub record Mirror : Type 0 where
  pub location : Str
  pub insecure : Bool

pub record Registry : Type 0 where
  pub prefix : Str
  pub insecure : Bool
  pub blocked : Bool
  pub location : Str
  pub mirror : List Mirror

pub record Config : Type 0 where
  pub unqualified_search_registries : List Str
  pub registry : List Registry

pub data RegistryError : Type 0 where
  no_location_or_prefix : RegistryError
  wildcard_without_location : RegistryError
  no_mirror_location : RegistryError
  illegal_reference : RegistryError
  blocked_by_rule : RegistryError

-- The prefix, which is the location where none is given.
unfoldable pub tidy_prefix : Registry → Result RegistryError Registry
tidy_prefix registry =
    if is_empty registry.prefix
    then if is_empty registry.location
      then err no_location_or_prefix
      else ok (record registry { prefix = registry.location })
    else ok registry

unfoldable pub check_mirrors : List Mirror → Result RegistryError (Unit {0})
check_mirrors [] = ok tt
check_mirrors (mirror ∷ mirrors) =
    bail_if (is_empty mirror.location) no_mirror_location >> check_mirrors mirrors

-- The body of the loop over the rules.
unfoldable pub tidy_registry : Registry → Result RegistryError Registry
tidy_registry given = do
  registry ← tidy_prefix given
  bail_if (starts_with (codes "*.") registry.prefix && is_empty registry.location)
      wildcard_without_location
  check_mirrors registry.mirror
  ok registry

unfoldable pub tidy_registries : List Registry → Result RegistryError (List Registry)
tidy_registries [] = ok []
tidy_registries (registry ∷ registries) = do
  tidied ← tidy_registry registry
  rest ← tidy_registries registries
  ok (tidied ∷ rest)

unfoldable pub validate_and_tidy : Config → Result RegistryError Config
validate_and_tidy self = do
  registries ← tidy_registries self.registry
  ok (record self { registry = registries })
