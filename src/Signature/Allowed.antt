-- ===== src/Signature/Allowed.antt =====
-- Which images a policy allows.
use mathlib.Core.Path.{subst}
use guest_components.Prelude.{
  ◌≡◌, true, not, map, bail_if, ◌↔◌, ◌⊎◌, inl, inr, refl, sym, ◌∙◌, Option, none, some, List, [],
  ◌∷◌, ◌++◌, Str, Bytes, codes, is_empty, All, Any, here, there, Result, ok, ok_inj, err, ◌>>◌,
  >>=-eq-ok, Result-cases,
}
use guest_components.Signature.Digest.{display}
use guest_components.Signature.Policy.{
  PolicyReqMatchType, match_exact, match_repo_digest_or_exact, match_repository, exact_reference,
  exact_repository, remap_identity, PolicyReqType, accept, reject, simple_signing, cosign, Image,
  Reason, digest_mismatch, bad_key, bad_signature, parsed,
}
use guest_components.Signature.Matching.{
  Matches, matches_docker_reference_lem, parsed-eq-ok, parse-eq-some, bail_if-not, same_text,
  bind-ok,
}
use guest_components.Signature.Validator.{
  SigPayload, SignatureLayer, cleaned, verify_signature_and_get_payload, World, SignatureValidator,
  lift, validate_digest, validate_reference, or_repo_digest, judge_single_signature,
  judge_signatures, get_signatures, pubkey_ring_of, cosign_key,
}

pub >>-ok :
    {E : Type 0} (m k : Result E (Unit {0})) → ((m >> k) ≡ ok tt) ↔ ((m ≡ ok tt) × (k ≡ ok tt))
>>-ok (ok tt) k = (λ h. (refl, h), λ h. h.1)
>>-ok (err e) k = (λ h. cc, λ h. let e = h.0 in cc)

pub lift-eq-ok : {A : Type 0} (m : Result Reason A) (a : A) → (lift m ≡ ok a) ↔ (m ≡ ok a)
lift-eq-ok (ok b) a = (λ h. cc, λ h. cc)
lift-eq-ok (err e) a = (λ h. cc, λ h. cc)

module _ {Reference : Type 0} (w : World Reference) where
  -- The payload claims this digest.
  abbrev pub Claims : SigPayload → Str → Type 0
  Claims payload digest = payload.critical.image.docker_manifest_digest ≡ digest

  abbrev Names : Image Reference → PolicyReqMatchType → SigPayload → Type 0
  Names image rule payload =
      Matches w.oci rule image.reference payload.critical.identity.docker_reference

  -- A signature by the keys whose payload is about the image.
  abbrev IsAccepted : Image Reference → Option PolicyReqMatchType → Bytes → Bytes → Type 0
  IsAccepted image rule ring sig =
      (payload : SigPayload) × (w.verify_sig_and_extract_payload ring sig ≡ ok payload)
      × Names image (or_repo_digest w rule) payload
      × Claims payload (display image.manifest_digest)

  -- A rule that cosign's signatures can meet.
  abbrev pub IsOfRepository : Option PolicyReqMatchType → Type 0
  IsOfRepository none = Unit
  IsOfRepository (some match_repository) = Unit
  IsOfRepository (some (exact_repository _)) = Unit
  IsOfRepository (some match_exact) = ⊥
  IsOfRepository (some match_repo_digest_or_exact) = ⊥
  IsOfRepository (some (exact_reference _)) = ⊥
  IsOfRepository (some (remap_identity _ _)) = ⊥

  abbrev pub NamesIf : Image Reference → Option PolicyReqMatchType → SigPayload → Type 0
  NamesIf image none payload = Unit
  NamesIf image (some rule) payload = Names image rule payload

  -- A payload about the image: its manifest or its manifest list.
  abbrev pub IsAbout : Image Reference → Option PolicyReqMatchType → SigPayload → Type 0
  IsAbout image rule payload =
      NamesIf image rule payload
      × (Claims payload (display image.manifest_digest)
          ⊎ ((l : _) × (image.manifest_list_digest ≡ some l) × Claims payload (display l)))

  -- The image's text parses as a reference that has signature layers, the key can be read and
  -- verifies one of them, newlines being taken out of their signatures, and each has a payload like this.
  abbrev pub IsVerified : Image Reference → Bytes → (SigPayload → Type 0) → Type 0
  IsVerified image key P =
      (image_ref : Reference) × (layers : List SignatureLayer) × (w.oci.parse
          (w.oci.whole image.reference)
        ≡ some image_ref)
      × (w.trusted_signature_layers image_ref ≡ ok layers)
      × (w.is_public_key key ≡ true)
      × (w.verify_constraints (map cleaned layers) key ≡ true)
      × All (λ layer. P layer.simple_signing) layers

  -- What each requirement asks of an image.
  abbrev pub Meets : SignatureValidator → Image Reference → PolicyReqType → Type 0
  Meets self image accept = Unit
  Meets self image reject = ⊥
  Meets self image (simple_signing p) =
      (p.key_type ≡ codes "GPGKeys")
      × ((ring : Bytes) × (pubkey_ring_of w p ≡ ok ring)
          × ((sigs : List Bytes) × (get_signatures w self.simple_signing_sigstore_config image
                ≡ ok sigs)
              × Any (IsAccepted image p.signed_identity ring) sigs))
  Meets self image (cosign p) =
      IsOfRepository p.signed_identity
      × ((key : Bytes) × (cosign_key w p ≡ ok key)
          × IsVerified image key (IsAbout image p.signed_identity))

  pub validate_digest_lem :
      (payload : SigPayload) (digest : Str)
      → (validate_digest w payload digest ≡ ok tt) ↔ Claims payload digest
  unfolding validate_digest
  validate_digest_lem payload digest = same_text _ digest digest_mismatch

  pub validate_reference_lem :
      (payload : SigPayload) (image : Image Reference) (rule : PolicyReqMatchType)
      → (validate_reference w payload image.reference rule ≡ ok tt) ↔ Names image rule payload
  unfolding validate_reference
  validate_reference_lem payload image rule =
      matches_docker_reference_lem w.oci rule image.reference
        payload.critical.identity.docker_reference

  judge_single_signature_lem :
      (image : Image Reference) (rule : Option PolicyReqMatchType) (ring sig : Bytes)
      → (judge_single_signature w image rule ring sig ≡ ok tt) ↔ IsAccepted image rule ring sig
  unfolding judge_single_signature
  judge_single_signature_lem image rule ring sig = (
    λ h.
        let (payload, verified, rest) = >>=-eq-ok (w.verify_sig_and_extract_payload ring sig) _ h in
        let (named, claimed) = (>>-ok _ _).0 rest in
        (
          payload,
          verified,
          (validate_reference_lem payload image _).0 named,
          (validate_digest_lem payload _).0 claimed,
        ),
    λ a.
        let (payload, verified, named, claimed) = a in
        bind-ok (w.verify_sig_and_extract_payload ring sig) _ verified (
          (>>-ok _ _).1 (
            (validate_reference_lem payload image _).1 named,
            (validate_digest_lem payload _).1 claimed,
          )),
  )

  judged-nil :
      {P : Type 0} (image : Image Reference) (rule : Option PolicyReqMatchType) (ring : Bytes)
      (reasons : List Reason)
      → judge_signatures w image rule ring [] reasons ≡ ok tt
      → P
  unfolding judge_signatures is_empty
  judged-nil image rule ring [] h = cc
  judged-nil image rule ring (r ∷ reasons) h = cc

  judged-ok :
      (image : Image Reference) (rule : Option PolicyReqMatchType) (ring sig : Bytes)
      (sigs : List Bytes) (reasons : List Reason)
      → judge_single_signature w image rule ring sig ≡ ok tt
      → judge_signatures w image rule ring (sig ∷ sigs) reasons ≡ ok tt
  unfolding judge_signatures
  judged-ok image rule ring sig sigs reasons h = rw (h, judge_signatures) refl

  judged-err :
      (image : Image Reference) (rule : Option PolicyReqMatchType) (ring sig : Bytes)
      (sigs : List Bytes) (reasons : List Reason) (e : Reason)
      → judge_single_signature w image rule ring sig ≡ err e
      → judge_signatures w image rule ring (sig ∷ sigs) reasons
        ≡ judge_signatures w image rule ring sigs (reasons ++ (e ∷ []))
  unfolding judge_signatures
  judged-err image rule ring sig sigs reasons e h = rw (h, judge_signatures) refl

  pub judge_signatures_lem :
      (image : Image Reference) (rule : Option PolicyReqMatchType) (ring : Bytes)
      (sigs : List Bytes) (reasons : List Reason)
      → (judge_signatures w image rule ring sigs reasons ≡ ok tt)
        ↔ Any (IsAccepted image rule ring) sigs
  judge_signatures_lem image rule ring [] reasons =
      (λ h. judged-nil image rule ring reasons h, λ a. elim a [ ])
  judge_signatures_lem image rule ring (sig ∷ sigs) reasons =
      elim (Result-cases (judge_single_signature w image rule ring sig)) [
        | inl (_, accepted) ↦ (
          λ h. here ((judge_single_signature_lem image rule ring sig).0 accepted),
          λ a. judged-ok image rule ring sig sigs reasons accepted,
        )
        | inr (e, refused) ↦
            let skip = judged-err image rule ring sig sigs reasons e refused in
            let rest = judge_signatures_lem image rule ring sigs (reasons ++ (e ∷ [])) in
            (
              λ h. there (rest.0 (sym skip ∙ h)),
              λ a. elim a [
                | here good ↦
                    let good = (judge_single_signature_lem image rule ring sig).1 good in cc
                | there more ↦ skip ∙ rest.1 more
              ],
            )
      ]

  All-payloads :
      (P : SigPayload → Type 0) (layers : List SignatureLayer)
      → All P (map (λ layer. layer.simple_signing) (map cleaned layers))
        ↔ All (λ layer. P layer.simple_signing) layers
  All-payloads P [] = (λ _. tt, λ _. tt)
  All-payloads P (layer ∷ layers) =
      let rest = All-payloads P layers in (λ a. (a.0, rest.0 a.1), λ a. (a.0, rest.1 a.1))

  pub verify_signature_and_get_payload_lem :
      (image : Image Reference) (key : Bytes) (P : SigPayload → Type 0)
      → ((payloads : List SigPayload) × (verify_signature_and_get_payload w image key ≡ ok payloads)
          × All P payloads)
        ↔ IsVerified image key P
  unfolding verify_signature_and_get_payload
  verify_signature_and_get_payload_lem image key P = (
    λ a.
        let (payloads, verified, all) = a in
        let (image_ref, read, begun) =
          >>=-eq-ok (parsed w.oci (w.oci.whole image.reference)) _ verified in
        let (layers, got, more) = >>=-eq-ok (w.trusted_signature_layers image_ref) _ begun in
        let (_, keyed, rest) = >>=-eq-ok (bail_if (not (w.is_public_key key)) bad_key) _ more in
        let (_, sealed, last) =
          >>=-eq-ok (bail_if (not (w.verify_constraints (map cleaned layers) key)) bad_signature) _
            rest in
        (
          image_ref,
          layers,
          parsed-eq-ok w.oci _ image_ref read,
          got,
          (bail_if-not _ bad_key).0 keyed,
          (bail_if-not _ bad_signature).0 sealed,
          (All-payloads P layers).0 (subst (All P) (sym (ok_inj _ _ last)) all),
        ),
    λ a.
        let (image_ref, layers, read, got, keyed, sealed, all) = a in
        (
          map (λ layer. layer.simple_signing) (map cleaned layers),
          bind-ok (parsed w.oci (w.oci.whole image.reference)) _
              (parse-eq-some w.oci _ image_ref read)
              (bind-ok (w.trusted_signature_layers image_ref) _ got (
                bind-ok (bail_if (not (w.is_public_key key)) bad_key) _
                  ((bail_if-not _ bad_key).1 keyed)
                  (bind-ok
                    (bail_if (not (w.verify_constraints (map cleaned layers) key)) bad_signature) _
                    ((bail_if-not _ bad_signature).1 sealed) refl))),
          (All-payloads P layers).1 all,
        ),
  )
