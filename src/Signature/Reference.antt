-- ===== src/Signature/Reference.antt =====
-- Image references: the crate oci_client's `Reference` is a parameter.
use guest_components.Prelude.{Option, ◌++◌, ◌∷◌, Str, is_empty, if◌then◌else◌}

-- What the code asks of a reference, and the crate's parser.
pub record Oci (Reference : Type 0) : Type 0 where
  pub registry : Reference → Str
  pub repository : Reference → Str
  pub tag : Reference → Option Str
  pub digest : Reference → Option Str
  pub whole : Reference → Str
  pub parse : Str → Option Reference

module _ {Reference : Type 0} (oci : Oci Reference) where
  unfoldable pub get_image_repository_full_name : Reference → Str
  get_image_repository_full_name image_ref =
      if is_empty (oci.registry image_ref)
      then oci.repository image_ref
      else oci.registry image_ref ++ (b'/' ∷ oci.repository image_ref)
