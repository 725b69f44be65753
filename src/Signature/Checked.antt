-- ===== src/Signature/Checked.antt =====
-- The validator allows exactly the images that meet every requirement.
use mathlib.Core.Path.{subst}
use guest_components.Prelude.{
  ◌≡◌, ◌↔◌, ◌⊎◌, inl, inr, refl, sym, ap, ◌∙◌, Option, none, some, List, [], ◌∷◌, Str, codes, All,
  Option-cases, Result, ok, err, >>=-eq-ok, Result-cases, ok_or, ok_or-eq-ok, ok_inj, map_err,
}
use guest_components.Signature.Digest.{Digest, display, try_from}
use guest_components.Signature.Policy.{
  PolicyReqMatchType, match_exact, match_repo_digest_or_exact, match_repository, exact_reference,
  exact_repository, remap_identity, CosignParameters, SimpleParameters, PolicyReqType, accept,
  reject, simple_signing, cosign, Image, Refusal, requirements_for_image, digest_mismatch,
  unknown_key_type, set_manifest_digest, set_manifest_list_digest, default_with_reference,
}
use guest_components.Signature.Matching.{same_text, bind-ok}
use guest_components.Signature.Validator.{
  SigPayload, verify_signature_and_get_payload, World, SignatureValidator, lift, validate_digest,
  get_signatures, pubkey_ring_of, simple_signing_allows_image, check_reference_rule_types,
  cosign_key, check_digests, check_identity, check_payloads, cosign_allows_image,
  check_image_requirement, check_requirements, image_of, check_image_signature, denied,
  SignatureError, illegal_image_reference, illegal_image_digest,
}
use guest_components.Signature.Allowed.{
  Claims, IsOfRepository, NamesIf, IsAbout, Meets, >>-ok, lift-eq-ok, validate_digest_lem,
  validate_reference_lem, judge_signatures_lem, verify_signature_and_get_payload_lem,
}

module _ {Reference : Type 0} (w : World Reference) where
  check_digests_lem :
      (image : Image Reference) (payload : SigPayload)
      → (check_digests w image payload ≡ ok tt) ↔ (
          Claims w payload (display image.manifest_digest)
          ⊎ ((l : Digest) × (image.manifest_list_digest ≡ some l) × Claims w payload (display l)))
  unfolding check_digests
  check_digests_lem image payload =
      let manifest = validate_digest_lem w payload (display image.manifest_digest) in
      elim (Result-cases (validate_digest w payload (display image.manifest_digest))) [
        | inl (_, good) ↦ (λ h. inl (manifest.0 good), λ a. rw (good, check_digests) refl)
        | inr (e, bad) ↦ elim (Option-cases image.manifest_list_digest) [
          | inl missing ↦
              let refused : check_digests w image payload ≡ err digest_mismatch =
                rw (bad, missing, check_digests) refl in
              (
                λ h. cc,
                λ a. elim a [
                  | inl claimed ↦ let good = manifest.1 claimed in cc
                  | inr (l, found, claimed) ↦ cc
                ],
              )
          | inr (l, found) ↦
              let same : check_digests w image payload ≡ validate_digest w payload (display l) =
                rw (bad, found, check_digests) refl in
              let list = validate_digest_lem w payload (display l) in
              (
                λ h. inr (l, found, list.0 (sym same ∙ h)),
                λ a. elim a [
                  | inl claimed ↦ let good = manifest.1 claimed in cc
                  | inr (k, is, claimed) ↦
                      let one : k ≡ l = cc in same ∙ list.1 (claimed ∙ ap display one)
                ],
              )
        ]
      ]

  check_identity_lem :
      (rule : Option PolicyReqMatchType) (image : Image Reference) (payload : SigPayload)
      → (check_identity w rule image payload ≡ ok tt) ↔ NamesIf w image rule payload
  check_identity_lem none image payload = (λ _. tt, λ _. refl)
  check_identity_lem (some rule) image payload = validate_reference_lem w payload image rule

  check_payloads_lem :
      (rule : Option PolicyReqMatchType) (image : Image Reference) (payloads : List SigPayload)
      → (check_payloads w rule image payloads ≡ ok tt) ↔ All (IsAbout w image rule) payloads
  unfolding check_payloads
  check_payloads_lem rule image [] = (λ _. tt, λ _. refl)
  check_payloads_lem rule image (payload ∷ payloads) =
      let named = check_identity_lem rule image payload in
      let claimed = check_digests_lem image payload in
      let rest = check_payloads_lem rule image payloads in
      (
        λ h.
            let (first, more) = (>>-ok _ _).0 h in
            let (second, last) = (>>-ok _ _).0 more in
            ((named.0 first, claimed.0 second), rest.0 last),
        λ a. (>>-ok _ _).1 (named.1 a.0.0, (>>-ok _ _).1 (claimed.1 a.0.1, rest.1 a.1)),
      )

  check_reference_rule_types_lem :
      (rule : Option PolicyReqMatchType)
      → (check_reference_rule_types w rule ≡ ok tt) ↔ IsOfRepository w rule
  unfolding check_reference_rule_types
  check_reference_rule_types_lem none = (λ _. tt, λ _. refl)
  check_reference_rule_types_lem (some match_repository) = (λ _. tt, λ _. refl)
  check_reference_rule_types_lem (some (exact_repository r)) = (λ _. tt, λ _. refl)
  check_reference_rule_types_lem (some match_exact) = (λ h. cc, λ a. elim a [ ])
  check_reference_rule_types_lem (some match_repo_digest_or_exact) = (λ h. cc, λ a. elim a [ ])
  check_reference_rule_types_lem (some (exact_reference r)) = (λ h. cc, λ a. elim a [ ])
  check_reference_rule_types_lem (some (remap_identity p s)) = (λ h. cc, λ a. elim a [ ])

  cosign_allows_image_lem :
      (self : SignatureValidator) (p : CosignParameters) (image : Image Reference)
      → (cosign_allows_image w p image ≡ ok tt) ↔ Meets w self image (cosign p)
  unfolding cosign_allows_image
  cosign_allows_image_lem self p image =
      let rule = check_reference_rule_types_lem p.signed_identity in
      (
        λ h.
            let (first, more) = (>>-ok _ _).0 h in
            let (key, found, rest) = >>=-eq-ok (cosign_key w p) _ more in
            let (payloads, verified, last) =
              >>=-eq-ok (verify_signature_and_get_payload w image key) _ rest in
            let about = (check_payloads_lem p.signed_identity image payloads).0 last in
            let verify = verify_signature_and_get_payload_lem w image key _ in
            (rule.0 first, (key, found, verify.0 (payloads, verified, about))),
        λ a.
            let (first, (key, found, signed)) = a in
            let (payloads, verified, last) =
              (verify_signature_and_get_payload_lem w image key
                  (IsAbout w image p.signed_identity)).1
                signed in
            (>>-ok _ _).1 (
              rule.1 first,
              bind-ok (cosign_key w p) _ found (
                  bind-ok (verify_signature_and_get_payload w image key) _ verified
                    ((check_payloads_lem _ image payloads).1 last)),
            ),
      )

  simple_signing_allows_image_lem :
      (self : SignatureValidator) (p : SimpleParameters) (image : Image Reference)
      → (simple_signing_allows_image w self p image ≡ ok tt) ↔ Meets w self image (simple_signing p)
  unfolding simple_signing_allows_image
  simple_signing_allows_image_lem self p image =
      let gpg = same_text p.key_type (codes "GPGKeys") unknown_key_type in
      (
        λ h.
            let (first, more) = (>>-ok _ _).0 h in
            let (ring, found, rest) = >>=-eq-ok (lift (pubkey_ring_of w p)) _ more in
            let (sigs, stored, last) =
              >>=-eq-ok (lift (get_signatures w self.simple_signing_sigstore_config image)) _
                rest in
            (
              gpg.0 ((lift-eq-ok _ tt).0 first),
              (
                ring,
                (lift-eq-ok _ ring).0 found,
                (
                  sigs,
                  (lift-eq-ok _ sigs).0 stored,
                  (judge_signatures_lem w image _ ring sigs []).0 last,
                ),
              ),
            ),
        λ a.
            let (first, (ring, found, (sigs, stored, last))) = a in
            (>>-ok _ _).1 (
              (lift-eq-ok _ tt).1 (gpg.1 first),
              bind-ok (lift (pubkey_ring_of w p)) _ ((lift-eq-ok _ ring).1 found) (
                  bind-ok (lift (get_signatures w self.simple_signing_sigstore_config image)) _
                    ((lift-eq-ok _ sigs).1 stored)
                    ((judge_signatures_lem w image _ ring sigs []).1 last)),
            ),
      )

  check_image_requirement_lem :
      (self : SignatureValidator) (req : PolicyReqType) (image : Image Reference)
      → (check_image_requirement w self req image ≡ ok tt) ↔ Meets w self image req
  unfolding check_image_requirement
  check_image_requirement_lem self accept image = (λ _. tt, λ _. refl)
  check_image_requirement_lem self reject image = (λ h. cc, λ a. elim a [ ])
  check_image_requirement_lem self (simple_signing p) image =
      simple_signing_allows_image_lem self p image
  check_image_requirement_lem self (cosign p) image =
      let allowed = cosign_allows_image_lem self p image in
      (λ h. allowed.0 ((lift-eq-ok _ tt).0 h), λ a. (lift-eq-ok _ tt).1 (allowed.1 a))

  check_requirements_lem :
      (self : SignatureValidator) (image : Image Reference) (reqs : List PolicyReqType)
      → (check_requirements w self image reqs ≡ ok tt) ↔ All (Meets w self image) reqs
  unfolding check_requirements
  check_requirements_lem self image [] = (λ _. tt, λ _. refl)
  check_requirements_lem self image (req ∷ reqs) =
      let one = check_image_requirement_lem self req image in
      let rest = check_requirements_lem self image reqs in
      (
        λ h. let (first, more) = (>>-ok _ _).0 h in (one.0 first, rest.0 more),
        λ a. (>>-ok _ _).1 (one.1 a.0, rest.1 a.1),
      )

  denied-ok : (m : Result Refusal (Unit {0})) → (denied m ≡ ok tt) ↔ (m ≡ ok tt)
  denied-ok (ok tt) = (λ _. refl, λ _. refl)
  denied-ok (err e) = (λ h. cc, λ h. cc)

  -- The list's digest is the one that is given, if one is given.
  abbrev pub IsListDigest : Option Str → Option Digest → Type 0
  IsListDigest none digest = digest ≡ none
  IsListDigest (some text) digest =
      (d : Digest) × (try_from w.decode_hex text ≡ ok d) × (digest ≡ some d)

  -- An image of this reference and these digests.
  pub record IsNamed (image_reference image_digest : Str) (manifest_list_digest : Option Str)
      (image : Image Reference) : Type 0 where
    pub is_reference : w.oci.parse image_reference ≡ some image.reference
    pub is_digest : try_from w.decode_hex image_digest ≡ ok image.manifest_digest
    pub is_list_digest : IsListDigest manifest_list_digest image.manifest_list_digest

  map_err-eq-ok :
      {E F A : Type 0} (m : Result E A) (e : F) {a : A} → (map_err m e ≡ ok a) ↔ (m ≡ ok a)
  map_err-eq-ok (ok b) e = (λ h. cc, λ h. cc)
  map_err-eq-ok (err f) e = (λ h. cc, λ h. cc)

  IsListDigest-unique :
      (image : Image Reference) (given : Option Str)
      → IsListDigest given image.manifest_list_digest
      → (elim given as (λ g. Result SignatureError (Image Reference)) [
        | none ↦ ok (record image { manifest_list_digest = none })
        | some list_digest ↦
            map_err
              (set_manifest_list_digest w.decode_hex
                (record image { manifest_list_digest = none })
                list_digest)
              (illegal_image_digest list_digest)
      ])
        ≡ ok image
  IsListDigest-unique image none h = rw (← h) refl
  IsListDigest-unique image (some text) (d, read, same) = rw read (rw (← same) refl)

  image_of_lem :
      (self : SignatureValidator) (image_reference image_digest : Str)
      (manifest_list_digest : Option Str) (image : Image Reference)
      → (image_of w self image_reference image_digest manifest_list_digest ≡ ok image)
        ↔ IsNamed image_reference image_digest manifest_list_digest image
  unfolding image_of
  image_of_lem self image_reference image_digest manifest_list_digest image = (
    λ h.
        let (reference, parsed, begun) =
          >>=-eq-ok (ok_or (w.oci.parse image_reference) (illegal_image_reference image_reference))
            _ h in
        let (first, set, last) =
          >>=-eq-ok
            (map_err
              (set_manifest_digest w.decode_hex (default_with_reference reference) image_digest)
              (illegal_image_digest image_digest))
            _ begun in
        let (digest, read, made) =
          >>=-eq-ok (try_from w.decode_hex image_digest) _ ((map_err-eq-ok _ _).0 set) in
        with_list reference digest (ok_or-eq-ok (w.oci.parse image_reference) _ reference parsed)
          read first (ok_inj _ _ made) manifest_list_digest last,
    λ n.
        bind-ok (ok_or (w.oci.parse image_reference) (illegal_image_reference image_reference)) _
          (rw n.is_reference refl)
          (bind-ok
            (map_err
              (set_manifest_digest w.decode_hex (default_with_reference image.reference)
                image_digest)
              (illegal_image_digest image_digest))
            _ (rw n.is_digest refl)
            (IsListDigest-unique image manifest_list_digest n.is_list_digest)),
  )
    where
      with_list :
          (reference : Reference) (digest : Digest)
          → w.oci.parse image_reference ≡ some reference
          → try_from w.decode_hex image_digest ≡ ok digest
          → (first : Image Reference)
          → record (default_with_reference reference) { manifest_digest = digest } ≡ first
          → (given : Option Str)
          → (elim given as (λ g. Result SignatureError (Image Reference)) [
            | none ↦ ok first
            | some list_digest ↦
                map_err
                  (set_manifest_list_digest w.decode_hex first list_digest)
                  (illegal_image_digest list_digest)
          ])
            ≡ ok image
          → IsNamed image_reference image_digest given image
      with_list reference digest parsed read first made none h =
          subst (IsNamed image_reference image_digest none) (made ∙ ok_inj _ _ h)
            (record { is_reference = parsed; is_digest = read; is_list_digest = refl })
      with_list reference digest parsed read first made (some text) h =
          let (d, listed, last) =
            >>=-eq-ok (try_from w.decode_hex text) _ ((map_err-eq-ok _ _).0 h) in
          subst (IsNamed image_reference image_digest (some text))
            (ap {A = Image Reference} {B = Image Reference}
                (λ i. record i { manifest_list_digest = some d }) made
              ∙ ok_inj _ _ last)
            (record { is_reference = parsed; is_digest = read; is_list_digest = (d, listed, refl) })

  -- An image is allowed exactly if its reference, its digest and, where one is given, its list's digest
  -- can be read, and it meets each of the requirements that the policy has for it. `accept` is met by
  -- every image and `reject` by none; simple signing if the keys are GPG keys that can be read and one
  -- of the signatures stored for the image is verified by them, with a payload that names the image by
  -- the rule, matchRepoDigestOrExact if there is none, and has its manifest's digest; cosign if its
  -- rule, where it has one, is about repositories, its key can be read and verifies one of the image's
  -- signature layers, and the payload of each of the layers names the image by the rule, or whatever it
  -- names if there is no rule, and has the digest of its manifest or of its manifest list.
  pub check_image_signature_lem :
      (self : SignatureValidator) (image_reference image_digest : Str)
      (manifest_list_digest : Option Str)
      → (check_image_signature w self image_reference image_digest manifest_list_digest ≡ ok tt) ↔ (
          (image : Image Reference) × IsNamed image_reference image_digest manifest_list_digest
            image
          × All (Meets w self image) (requirements_for_image w.oci self.policy image))
  unfolding check_image_signature
  check_image_signature_lem self image_reference image_digest manifest_list_digest =
      let m = image_of w self image_reference image_digest manifest_list_digest in
      (
        λ h.
            let (image, read, rest) = >>=-eq-ok m _ h in
            (
              image,
              (image_of_lem self _ _ _ image).0 read,
              (check_requirements_lem self image _).0 ((denied-ok _).0 rest),
            ),
        λ a.
            let (image, read, meets) = a in
            bind-ok m _ ((image_of_lem self _ _ _ image).1 read)
              ((denied-ok _).1 ((check_requirements_lem self image _).1 meets)),
      )
