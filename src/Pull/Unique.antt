-- ===== src/Pull/Unique.antt =====
-- The layers that are pulled for an image.
use mathlib.Core.Path.{subst}
use guest_components.Prelude.{
  ◌==◌, ==_iff, ◌≡◌, ◌≢◌, ◌⊎◌, inl, inr, refl, sym, true, false, not, List, [], ◌∷◌, Str, length,
  str_eq, str_eq_iff, Bool-cases, All, All-map, Any, here, there, ok, >>=-eq-ok, ok_inj, ok_or,
  bail_if, bail_if-eq-ok, arith,
}
use guest_components.Pull.Media.{OciDescriptor}
use guest_components.Pull.Metas.{
  ImageMeta, OciImageManifest, Configurations, internal, has_digest, unique_layers_of,
  create_image_meta,
}

-- Layers of different digests.
abbrev pub Distinct : List (OciDescriptor × Str) → Type 0
Distinct [] = Unit
Distinct (p ∷ ps) = All (λ q. q.0.digest ≢ p.0.digest) ps × Distinct ps

-- The layer and the digest of its text stand at one place in the manifest and the configuration.
pub data Paired (p : OciDescriptor × Str) : List OciDescriptor → List Str → Type 0 where
  first :
      {layer : OciDescriptor} {diff_id : Str} {layers : List OciDescriptor} {diff_ids : List Str}
      → p ≡ (layer, diff_id)
      → Paired p (layer ∷ layers) (diff_id ∷ diff_ids)
  later :
      {layer : OciDescriptor} {diff_id : Str} {layers : List OciDescriptor} {diff_ids : List Str}
      → Paired p layers diff_ids
      → Paired p (layer ∷ layers) (diff_id ∷ diff_ids)

IsNew : List Str → OciDescriptor × Str → Type 0
IsNew digests p = has_digest p.0.digest digests ≡ false

is_new :
    (digests : List Str) (p : OciDescriptor × Str)
    → has_digest p.0.digest digests ≡ false
    → IsNew digests p
unfolding IsNew
is_new digests p h = h

IsNew-tail :
    (d : Str) (digests : List Str) (p : OciDescriptor × Str)
    → IsNew (d ∷ digests) p
    → (p.0.digest ≢ d) × IsNew digests p
unfolding IsNew has_digest
IsNew-tail d digests p h = elim (Bool-cases (str_eq d p.0.digest)) [
  | inl same ↦ absurd (ground (arith, same, h))
  | inr other ↦ (
    λ e. let same = (str_eq_iff d p.0.digest).1 (sym e) in absurd (ground (arith, same, other)),
    ground (arith, other, h),
  )
]

module _ (digests : List Str) (layer : OciDescriptor) (layers : List OciDescriptor) (diff_id : Str)
    (diff_ids : List Str) where
  unique_met :
      has_digest layer.digest digests ≡ true
      → unique_layers_of digests layers diff_ids
        ≡ unique_layers_of digests (layer ∷ layers) (diff_id ∷ diff_ids)
  unfolding unique_layers_of
  unique_met met = rw (met, unique_layers_of) refl

  unique_new :
      has_digest layer.digest digests ≡ false
      → (layer, diff_id) ∷ unique_layers_of (layer.digest ∷ digests) layers diff_ids
        ≡ unique_layers_of digests (layer ∷ layers) (diff_id ∷ diff_ids)
  unfolding unique_layers_of
  unique_new new = rw (new, unique_layers_of) refl

unique-IsNew :
    (digests : List Str) (layers : List OciDescriptor) (diff_ids : List Str)
    → All (IsNew digests) (unique_layers_of digests layers diff_ids)
      × Distinct (unique_layers_of digests layers diff_ids)
unfolding unique_layers_of
unique-IsNew digests [] diff_ids = (tt, tt)
unique-IsNew digests (layer ∷ layers) [] = (tt, tt)
unique-IsNew digests (layer ∷ layers) (diff_id ∷ diff_ids) =
    elim (Bool-cases (has_digest layer.digest digests)) [
      | inl met ↦
          subst (λ u. All (IsNew digests) u × Distinct u)
            (unique_met digests layer layers diff_id diff_ids met)
            (unique-IsNew digests layers diff_ids)
      | inr new ↦
          let (fresh, distinct) = unique-IsNew (layer.digest ∷ digests) layers diff_ids in
          subst (λ u. All (IsNew digests) u × Distinct u)
            (unique_new digests layer layers diff_id diff_ids new)
            (
              (
                is_new digests (layer, diff_id) new,
                All-map (IsNew (layer.digest ∷ digests)) (IsNew digests)
                    (λ p h. (IsNew-tail layer.digest digests p h).1) _ fresh,
              ),
              (
                All-map (IsNew (layer.digest ∷ digests)) (λ q. q.0.digest ≢ layer.digest)
                    (λ p h. (IsNew-tail layer.digest digests p h).0) _ fresh,
                distinct,
              ),
            )
    ]

unique-Paired :
    (digests : List Str) (layers : List OciDescriptor) (diff_ids : List Str)
    → All (λ p. Paired p layers diff_ids) (unique_layers_of digests layers diff_ids)
unfolding unique_layers_of
unique-Paired digests [] diff_ids = tt
unique-Paired digests (layer ∷ layers) [] = tt
unique-Paired digests (layer ∷ layers) (diff_id ∷ diff_ids) =
    let behind = λ (seen : List Str).
      All-map (λ p. Paired p layers diff_ids) (λ p. Paired p (layer ∷ layers) (diff_id ∷ diff_ids))
        (λ p. later) (unique_layers_of seen layers diff_ids) (unique-Paired seen layers diff_ids) in
    elim (Bool-cases (has_digest layer.digest digests)) [
      | inl met ↦
          subst (All (λ p. Paired p (layer ∷ layers) (diff_id ∷ diff_ids)))
            (unique_met digests layer layers diff_id diff_ids met) (behind digests)
      | inr new ↦
          subst (All (λ p. Paired p (layer ∷ layers) (diff_id ∷ diff_ids)))
            (unique_new digests layer layers diff_id diff_ids new)
            (first refl, behind (layer.digest ∷ digests))
    ]

-- A digest of a layer is among those that were met, or of a layer that is pulled.
Covered : List Str → List (OciDescriptor × Str) → OciDescriptor → Type 0
Covered digests pulled layer =
    (has_digest layer.digest digests ≡ true) ⊎ Any (λ p. p.0.digest ≡ layer.digest) pulled

Covered-tail :
    (digests : List Str) (one : OciDescriptor × Str) (pulled : List (OciDescriptor × Str))
    (layer : OciDescriptor)
    → Covered (one.0.digest ∷ digests) pulled layer
    → Covered digests (one ∷ pulled) layer
unfolding Covered has_digest
Covered-tail digests one pulled layer (inr place) = inr (there place)
Covered-tail digests one pulled layer (inl met) =
    elim (Bool-cases (str_eq one.0.digest layer.digest)) [
      | inl same ↦ inr (here ((str_eq_iff one.0.digest layer.digest).0 same))
      | inr other ↦ inl (ground (arith, met, other))
    ]

unique-Covered :
    (digests : List Str) (layers : List OciDescriptor) (diff_ids : List Str)
    → length diff_ids ≡ length layers
    → All (Covered digests (unique_layers_of digests layers diff_ids)) layers
unfolding unique_layers_of Covered
unique-Covered digests [] diff_ids long = tt
unique-Covered digests (layer ∷ layers) [] long = absurd (omega (arith, long))
unique-Covered digests (layer ∷ layers) (diff_id ∷ diff_ids) long =
    elim (Bool-cases (has_digest layer.digest digests)) [
      | inl met ↦
          subst (λ u. All (Covered digests u) (layer ∷ layers))
            (unique_met digests layer layers diff_id diff_ids met)
            (inl met, unique-Covered digests layers diff_ids (omega (arith, long)))
      | inr new ↦
          subst (λ u. All (Covered digests u) (layer ∷ layers))
            (unique_new digests layer layers diff_id diff_ids new)
            (
              inr (here refl),
              All-map
                  (Covered (layer.digest ∷ digests)
                    (unique_layers_of (layer.digest ∷ digests) layers diff_ids))
                  (Covered digests
                    ((layer, diff_id) ∷ unique_layers_of (layer.digest ∷ digests) layers diff_ids))
                  (Covered-tail digests (layer, diff_id)
                    (unique_layers_of (layer.digest ∷ digests) layers diff_ids))
                  layers
                  (unique-Covered (layer.digest ∷ digests) layers diff_ids (omega (arith, long))),
            )
    ]

Covered-all :
    (pulled : List (OciDescriptor × Str)) (layer : OciDescriptor)
    → Covered [] pulled layer
    → Any (λ p. p.0.digest ≡ layer.digest) pulled
unfolding Covered has_digest
Covered-all pulled layer (inl met) = cc
Covered-all pulled layer (inr place) = place

-- When the metadata of an image can be made, the layers to pull have different digests, each stands
-- in the manifest with the digest of its text at the same place of the configuration, and every
-- layer of the manifest has the digest of one of them.
pub create_image_meta_lem :
    {Configuration : Type 0} (crate : Configurations Configuration)
    (id image_url image_digest image_config : Str) (image_manifest : OciImageManifest)
    (image : ImageMeta Configuration) (pulled : List (OciDescriptor × Str))
    → create_image_meta crate id image_url image_manifest image_digest image_config
      ≡ ok (image, pulled)
    → Distinct pulled
      × All (λ p. Paired p image_manifest.layers (crate.diff_ids image.image_config)) pulled
      × All (λ layer. Any (λ p. p.0.digest ≡ layer.digest) pulled) image_manifest.layers
unfolding create_image_meta
create_image_meta_lem crate id image_url image_digest image_config image_manifest image pulled h =
    let (configuration, parsed, begun) =
      >>=-eq-ok (ok_or (crate.from_reader image_config) internal) _ h in
    let ids = crate.diff_ids configuration in
    let layers = image_manifest.layers in
    let (_, equal, last) =
      >>=-eq-ok (bail_if (not (length ids == length layers)) internal) _ begun in
    let long : length ids ≡ length layers = ground (
      arith,
      bail_if-eq-ok (not (length ids == length layers)) internal equal,
      ==_iff (length ids) (length layers),
    ) in
    subst
      (λ r.
        Distinct r.1
        × All (λ p. Paired p layers (crate.diff_ids r.0.image_config)) r.1
        × All (λ layer. Any (λ p. p.0.digest ≡ layer.digest) r.1) layers)
      (ok_inj _ _ last)
      (
        (unique-IsNew [] layers ids).1,
        unique-Paired [] layers ids,
        All-map (Covered [] (unique_layers_of [] layers ids)) _
            (Covered-all (unique_layers_of [] layers ids)) layers
            (unique-Covered [] layers ids long),
      )
