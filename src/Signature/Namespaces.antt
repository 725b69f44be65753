-- ===== src/Signature/Namespaces.antt =====
-- The namespaces in which an image is looked up: `get_image_namespaces` of
-- image-rs/src/signature/image/mod.rs.
use guest_components.Prelude.{
  ℕ, zero, suc, none, some, List, [], ◌∷◌, ◌++◌, Str, codes, split_once, rsplit_once, length,
}
use guest_components.Signature.Reference.{Oci, get_image_repository_full_name}

-- The first loop, on fuel: the names pushed, and the name it leaves.
unfoldable pub parents : ℕ → Str → List Str × Str
parents zero name = ([], name)
parents (suc fuel) name = elim (rsplit_once b'/' name) [
  | none ↦ (name ∷ [], name)
  | some (parent, _) ↦ let (res, last) = parents fuel parent in (name ∷ res, last)
]

-- `name.rsplit_once(':')`: the port, if any, is taken off
unfoldable pub strip_port : Str → Str
strip_port name = elim (rsplit_once b':' name) [ none ↦ name | some (host, _) ↦ host ]

-- The second loop, on fuel.
unfoldable pub wildcards : ℕ → Str → List Str
wildcards zero name = []
wildcards (suc fuel) name = elim (split_once b'.' name) [
  | none ↦ []
  | some (_, domain) ↦ (codes "*." ++ domain) ∷ wildcards fuel domain
]

-- Each loop makes its text shorter, so one step for each byte and one more are enough.
unfoldable pub get_image_namespaces : {Reference : Type 0} → Oci Reference → Reference → List Str
get_image_namespaces oci image_ref =
    let name = get_image_repository_full_name oci image_ref in
    let (res, host) = parents (suc (length name)) name in
    let domain = strip_port host in res ++ wildcards (suc (length domain)) domain
