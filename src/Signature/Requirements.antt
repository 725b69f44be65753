-- ===== src/Signature/Requirements.antt =====
-- Which requirements an image has: `requirements_for_image`.
use guest_components.Prelude.{
  ◌≡◌, ◌⊎◌, inl, inr, refl, ap, none, some, List, [], ◌∷◌, ◌++◌, Str, get, All, Option-cases,
}
use guest_components.Signature.Reference.{Oci}
use guest_components.Signature.Namespaces.{get_image_namespaces}
use guest_components.Signature.Policy.{
  PolicyReqType, Policy, Image, transport_name, first_scope, requirements_for_image,
}

-- `found` is the entry of the first of the names that has one, and `otherwise` if none has.
abbrev pub IsFirst : {V : Type 0} → List (Str × V) → List Str → V → V → Type 0
IsFirst scopes names otherwise found =
    ((before : List Str) × (name : Str) × (after : List Str) × (names ≡ before ++ (name ∷ after))
      × All (λ n. get n scopes ≡ none) before
      × (get name scopes ≡ some found))
    ⊎ (All (λ n. get n scopes ≡ none) names × (found ≡ otherwise))

module _ {V : Type 0} (scopes : List (Str × V)) (otherwise found : V) where
  -- The first name has the entry.
  IsFirst-here :
      (name : Str) (names : List Str)
      → get name scopes ≡ some found
      → IsFirst scopes (name ∷ names) otherwise found
  IsFirst-here name names h = inl ([], name, names, refl, tt, h)

  IsFirst-there :
      (name : Str) (names : List Str)
      → get name scopes ≡ none
      → IsFirst scopes names otherwise found
      → IsFirst scopes (name ∷ names) otherwise found
  IsFirst-there name names h (inl (before, n, after, whole, missing, e)) =
      inl (name ∷ before, n, after, ap (◌∷◌ name) whole, (h, missing), e)
  IsFirst-there name names h (inr (missing, e)) = inr ((h, missing), e)

  module _ {Reference : Type 0} (oci : Oci Reference) where
    -- `names` searched, and then `more`.
    first_scope-IsFirst :
        (names more : List Str)
        → (first_scope oci scopes names ≡ none → IsFirst scopes more otherwise found)
        → ((v : V) → first_scope oci scopes names ≡ some v → v ≡ found)
        → IsFirst scopes (names ++ more) otherwise found
    unfolding first_scope
    first_scope-IsFirst [] more rest hit = rest refl
    first_scope-IsFirst (name ∷ names) more rest hit = elim (Option-cases (get name scopes)) [
      | inl missing ↦ IsFirst-there name (names ++ more) missing (
          first_scope-IsFirst names more (λ h. rest (rw (missing, first_scope) h))
            (λ v h. hit v (rw (missing, first_scope) h)))
      | inr (v, e) ↦
          IsFirst-here name (names ++ more) (rw e (ap some (hit v (rw (e, first_scope) refl))))
    ]

module _ {Reference : Type 0} (oci : Oci Reference) (self : Policy) (image : Image Reference) where
  -- Where the requirements are looked for: the whole reference, the image's namespaces, and `""`.
  abbrev pub names_of : List Str
  names_of = oci.whole image.reference ∷ (get_image_namespaces oci image.reference ++ ([] ∷ []))

  -- The requirements of an image are those of the first of its names (the whole reference, then its
  -- namespaces in their order, then the empty name) that has an entry in the policy's `docker`
  -- transport, and the policy's default if none of them or the transport has one.
  pub requirements_for_image_lem :
      ((get transport_name self.transports ≡ none)
        × (requirements_for_image oci self image ≡ self.default))
      ⊎ ((scopes : List (Str × List PolicyReqType)) × (get transport_name self.transports
            ≡ some scopes)
          × IsFirst scopes names_of self.default (requirements_for_image oci self image))
  unfolding requirements_for_image
  requirements_for_image_lem = elim (Option-cases (get transport_name self.transports)) [
    | inl missing ↦ inl (missing, rw (missing, requirements_for_image) refl)
    | inr (scopes, e) ↦ inr (
      scopes,
      e,
      elim (Option-cases (get (oci.whole image.reference) scopes)) [
        | inr (reqs, found) ↦
            IsFirst-here scopes _ _ _ _ (rw (e, found, requirements_for_image) refl)
        | inl missing ↦ IsFirst-there scopes _ _ _ _ missing (
            first_scope-IsFirst scopes _ _ oci (get_image_namespaces oci image.reference) ([] ∷ [])
              (λ h. elim (Option-cases (get [] scopes)) [
                | inl nothing ↦
                    inr ((nothing, tt), rw (e, missing, h, nothing, requirements_for_image) refl)
                | inr (reqs, found) ↦
                    IsFirst-here scopes _ _ _ _
                      (rw (e, missing, h, found, requirements_for_image) refl)
              ])
              (λ v h. rw (e, missing, h, requirements_for_image) refl))
      ],
    )
  ]
