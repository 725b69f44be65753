-- ===== src/Signature/Lookup.antt =====
-- The names pushed by the loops are the parents of the image's name and the wildcards of its host.
use guest_components.Prelude.{
  suc, ◌<◌, ◌≡◌, refl, rsplit_once, Option-cases, ◌⊎◌, ◌↔◌, inl, inr, false, List, [], ◌∷◌, ◌++◌,
  arith, Str, contains, length, Any, here, there,
}
use guest_components.Prelude.Split.{rsplit_once-eq-some, rsplit_once-eq-none}
use guest_components.Signature.Reference.{Oci, get_image_repository_full_name}
use guest_components.Signature.Namespaces.{parents, strip_port, wildcards, get_image_namespaces}
use guest_components.Signature.Parents.{
  Listed, IsParent, IsWildcard, parents-IsParent, IsParent-parents, parents-host, parents-front,
}
use guest_components.Signature.Wildcards.{wildcards-IsWildcard, IsWildcard-wildcards}

Any-append : {P : Str → Type 0} (xs ys : List Str) → Any P (xs ++ ys) → Any P xs ⊎ Any P ys
Any-append [] ys h = inr h
Any-append (x ∷ xs) ys (here p) = inl (here p)
Any-append (x ∷ xs) ys (there h) = elim (Any-append xs ys h) [
  | inl left ↦ inl (there left)
  | inr right ↦ inr right
]

append-Any : {P : Str → Type 0} (xs ys : List Str) → Any P xs ⊎ Any P ys → Any P (xs ++ ys)
append-Any [] ys (inl h) = elim h [ ]
append-Any [] ys (inr h) = h
append-Any (x ∷ xs) ys (inl (here p)) = here p
append-Any (x ∷ xs) ys (inl (there h)) = there (append-Any xs ys (inl h))
append-Any (x ∷ xs) ys (inr h) = there (append-Any xs ys (inr h))

module _ {Reference : Type 0} (oci : Oci Reference) (image_ref : Reference) where
  abbrev full_name : Str
  full_name = get_image_repository_full_name oci image_ref

  -- The host of an image's full name: what stands in front of its first slash.
  abbrev pub IsHost : Str → Type 0
  IsHost host = IsParent full_name host × (contains b'/' host ≡ false)

  -- What stands in front of the host's last colon, or the whole host if it has none.
  abbrev pub IsWithoutPort : Str → Str → Type 0
  IsWithoutPort host domain =
      ((contains b':' host ≡ false) × (domain ≡ host))
      ⊎ ((port : Str) × (host ≡ domain ++ (b':' ∷ port)) × (contains b':' port ≡ false))

  strip_port-IsWithoutPort : (host : Str) → IsWithoutPort host (strip_port host)
  unfolding strip_port
  strip_port-IsWithoutPort host = elim (Option-cases (rsplit_once b':' host)) [
    | inl none_there ↦
        inl (rsplit_once-eq-none b':' host none_there, rw (none_there, strip_port) refl)
    | inr ((domain, port), found) ↦
        let (e, behind) = rsplit_once-eq-some b':' host domain port found in
        inr (port, rw (found, strip_port) e, behind)
  ]

  -- The names in which an image is looked up are its full name, what stands in front of each of the
  -- full name's slashes, and `*.` followed by what stands behind each of the dots of the domain, which
  -- is what stands in front of the last colon of the host, or the host if it has no colon; and no
  -- others.
  pub get_image_namespaces_lem :
      (host : Str) × (domain : Str) × IsHost host
      × IsWithoutPort host domain
      × ((s : Str)
          → Listed s (get_image_namespaces oci image_ref)
            ↔ (IsParent full_name s ⊎ IsWildcard domain s))
  unfolding get_image_namespaces
  get_image_namespaces_lem =
      let (res, host) = parents (suc (length full_name)) full_name in
      let n : length full_name < suc (length full_name) = omega arith in
      let m : length (strip_port host) < suc (length (strip_port host)) = omega arith in
      (
        host,
        strip_port host,
        (parents-front _ full_name n, parents-host _ full_name n),
        strip_port-IsWithoutPort host,
        λ s. (
          λ h.
              elim (Any-append res (wildcards (suc (length (strip_port host))) (strip_port host))
                h) [
                  | inl parent ↦ inl (parents-IsParent _ full_name s parent)
                  | inr wild ↦ inr (wildcards-IsWildcard _ (strip_port host) s wild)
                ],
          λ p. append-Any res _ (elim p [
            | inl parent ↦ inl (IsParent-parents _ full_name s n parent)
            | inr wild ↦ inr (IsWildcard-wildcards _ (strip_port host) s m wild)
          ]),
        ),
      )
