-- ===== src/Signature/Matching.antt =====
-- When a signed reference satisfies a rule, and which requirements an image has.
use guest_components.Prelude.{
  ◌≡◌, ◌↔◌, inl, inr, refl, sym, ap, ◌∙◌, Bool, true, false, ◌&&◌, not, some, arith, Str, str_eq,
  str_eq_iff, strip_prefix, ◌⊎◌, ◌++◌, Option-cases, if◌then◌else◌, Result, ok, ◌>>=◌, bail_if,
  >>=-eq-ok,
}
use guest_components.Prelude.Split.{strip_prefix-append}
use guest_components.Prelude.Find.{strip_prefix-eq-some}
use guest_components.Signature.Reference.{Oci, get_image_repository_full_name}
use guest_components.Signature.Policy.{
  PolicyReqMatchType, match_exact, match_repo_digest_or_exact, match_repository, exact_reference,
  exact_repository, remap_identity, Reason, is_some, matches_docker_reference, remapped,
  digest_or_exact, other_repository, parsed, match_reference,
}

pub bail_if-not : {E : Type 0} (b : Bool) (e : E) → (bail_if (not b) e ≡ ok tt) ↔ (b ≡ true)
bail_if-not true e = (λ _. refl, λ _. refl)
bail_if-not false e = (λ h. cc, λ h. cc)

allowed : {E : Type 0} (b : Bool) (e : E) → bail_if b e ≡ ok tt → b ≡ false
allowed true e h = cc
allowed false e h = refl

pub bind-ok :
    {E A B : Type 0} {a : A} {b : B} (m : Result E A) (f : A → Result E B)
    → m ≡ ok a
    → f a ≡ ok b
    → (m >>= f) ≡ ok b
bind-ok m f h k = ap (λ r. r >>= f) h ∙ k

-- A comparison of texts that refuses when they differ.
pub same_text : (a b : Str) (e : Reason) → (bail_if (not (str_eq a b)) e ≡ ok tt) ↔ (a ≡ b)
same_text a b e = (
  λ h. (str_eq_iff a b).0 ((bail_if-not (str_eq a b) e).0 h),
  λ h. (bail_if-not (str_eq a b) e).1 ((str_eq_iff a b).1 h),
)

guarded :
    (t : Bool) (a b : Str) (e : Reason)
    → (bail_if (t && not (str_eq a b)) e ≡ ok tt) ↔ (t ≡ true → a ≡ b)
guarded true a b e = (λ h _. (same_text a b e).0 h, λ h. (same_text a b e).1 (h refl))
guarded false a b e = (λ _ h. cc, λ _. refl)

when :
    {P : Type 0} (d : Bool) (m : Result Reason (Unit {0}))
    → (m ≡ ok tt) ↔ P
    → ((if d then m else ok tt) ≡ ok tt) ↔ (d ≡ true → P)
when true m e = (λ h _. e.0 h, λ h. e.1 (h refl))
when false m e = (λ _ h. cc, λ _. refl)

module _ {Reference : Type 0} (oci : Oci Reference) where
  -- The signed text parses as a reference of this repository.
  abbrev OfRepository : Str → Str → Type 0
  OfRepository repository signed =
      (r : Reference) × (oci.parse signed ≡ some r)
      × (repository ≡ get_image_repository_full_name oci r)

  abbrev DigestOrExact : Reference → Str → Type 0
  DigestOrExact origin signed =
      (is_some (oci.tag origin) ≡ true → oci.whole origin ≡ signed)
      × (is_some (oci.digest origin) ≡ true
          → OfRepository (get_image_repository_full_name oci origin) signed)

  -- The text with the prefix replaced, or the text if it does not begin with the prefix.
  abbrev pub IsRemapped : Str → Str → Str → Str → Type 0
  IsRemapped prefix signed_prefix text name =
      ((rest : Str) × (text ≡ prefix ++ rest) × (name ≡ signed_prefix ++ rest))
      ⊎ ((¬ ((rest : Str) × (text ≡ prefix ++ rest))) × (name ≡ text))

  remapped-IsRemapped :
      (prefix signed_prefix text : Str)
      → IsRemapped prefix signed_prefix text (remapped oci prefix signed_prefix text)
  unfolding remapped
  remapped-IsRemapped prefix signed_prefix text = elim (Option-cases (strip_prefix prefix text)) [
    | inl other ↦
        inr (
          λ (rest, e). let found = strip_prefix-append prefix rest in cc,
          rw (other, remapped) refl,
        )
    | inr (rest, found) ↦
        inl (rest, strip_prefix-eq-some prefix text rest found, rw (found, remapped) refl)
  ]

  IsRemapped-unique :
      (prefix signed_prefix text name : Str)
      → IsRemapped prefix signed_prefix text name
      → name ≡ remapped oci prefix signed_prefix text
  unfolding remapped
  IsRemapped-unique prefix signed_prefix text name (inl (rest, e, same)) =
      let found : strip_prefix prefix text ≡ some rest =
        ap (strip_prefix prefix) e ∙ strip_prefix-append prefix rest in
      same ∙ sym (rw (found, remapped) refl)
  IsRemapped-unique prefix signed_prefix text name (inr (other, same)) =
      elim (Option-cases (strip_prefix prefix text)) [
        | inl missing ↦ same ∙ sym (rw (missing, remapped) refl)
        | inr (rest, found) ↦ absurd (other (rest, strip_prefix-eq-some prefix text rest found))
      ]

  -- What each rule asks of the image's reference and the signed one.
  abbrev pub Matches : PolicyReqMatchType → Reference → Str → Type 0
  Matches match_exact origin signed =
      (is_some (oci.digest origin) ≡ false) × (oci.whole origin ≡ signed)
  Matches match_repo_digest_or_exact origin signed = DigestOrExact origin signed
  Matches match_repository origin signed =
      OfRepository (get_image_repository_full_name oci origin) signed
  Matches (exact_reference docker_reference) origin signed = signed ≡ docker_reference
  Matches (exact_repository docker_repository) origin signed = OfRepository docker_repository signed
  Matches (remap_identity prefix signed_prefix) origin signed =
      (name : Str) × (r : Reference) × IsRemapped prefix signed_prefix (oci.whole origin) name
      × (oci.parse name ≡ some r)
      × DigestOrExact r signed

  pub parsed-eq-ok : (s : Str) (r : Reference) → parsed oci s ≡ ok r → oci.parse s ≡ some r
  parsed-eq-ok s r h = elim (Option-cases (oci.parse s)) [
    | inl missing ↦ ground arith
    | inr (q, found) ↦ ground arith
  ]

  pub parse-eq-some : (s : Str) (r : Reference) → oci.parse s ≡ some r → parsed oci s ≡ ok r
  parse-eq-some s r h = rw (h, parsed) refl

  other_repository_lem :
      (origin : Reference) (signed : Str)
      → (other_repository oci origin signed ≡ ok tt)
        ↔ OfRepository (get_image_repository_full_name oci origin) signed
  other_repository_lem origin signed = (
    λ h.
        let (r, found, same) = >>=-eq-ok (parsed oci signed) _ h in
        (r, parsed-eq-ok signed r found, (same_text _ _ match_reference).0 same),
    λ o.
        let (r, found, same) = o in
        bind-ok (parsed oci signed) _ (parse-eq-some signed r found)
          ((same_text _ _ match_reference).1 same),
  )

  digest_or_exact_lem :
      (origin : Reference) (signed : Str)
      → (digest_or_exact oci origin signed ≡ ok tt) ↔ DigestOrExact origin signed
  digest_or_exact_lem origin signed =
      let exact = guarded (is_some (oci.tag origin)) (oci.whole origin) signed match_reference in
      let digest = when (is_some (oci.digest origin)) _ (other_repository_lem origin signed) in
      (
        λ h.
            let (_, first, second) = >>=-eq-ok (bail_if _ match_reference) _ h in
            (exact.0 first, digest.0 second),
        λ both. bind-ok (bail_if _ match_reference) _ (exact.1 both.0) (digest.1 both.1),
      )

  -- A signed text is accepted by a rule exactly under these conditions. matchExact: the image's
  -- reference has no digest, and its whole text is the signed one. matchRepository: the signed text
  -- parses as a reference with the same full name. exactReference: the signed text is the rule's.
  -- exactRepository: the signed text parses as a reference whose full name is the rule's.
  -- matchRepoDigestOrExact: if the image's reference has a tag, its whole text is the signed one, and
  -- if it has a digest, the signed text parses as a reference with the same full name.
  -- remapIdentity: the last of these, of the reference that the image's whole text parses as after the
  -- prefix, where the text begins with it, was replaced.
  pub matches_docker_reference_lem :
      (rule : PolicyReqMatchType) (origin : Reference) (signed : Str)
      → (matches_docker_reference oci rule origin signed ≡ ok tt) ↔ Matches rule origin signed
  unfolding matches_docker_reference
  matches_docker_reference_lem match_exact origin signed = (
    λ h.
        let (_, first, second) = >>=-eq-ok (bail_if (is_some (oci.digest origin)) _) _ h in
        (allowed _ _ first, (same_text _ _ match_reference).0 second),
    λ both.
        bind-ok (bail_if (is_some (oci.digest origin)) _) _ (rw both.0 refl)
          ((same_text _ _ match_reference).1 both.1),
  )
  matches_docker_reference_lem match_repo_digest_or_exact origin signed =
      digest_or_exact_lem origin signed
  matches_docker_reference_lem match_repository origin signed = other_repository_lem origin signed
  matches_docker_reference_lem (exact_reference docker_reference) origin signed =
      same_text signed docker_reference match_reference
  matches_docker_reference_lem (exact_repository docker_repository) origin signed = (
    λ h.
        let (r, found, same) = >>=-eq-ok (parsed oci signed) _ h in
        (r, parsed-eq-ok signed r found, sym ((same_text _ _ match_reference).0 same)),
    λ o.
        let (r, found, same) = o in
        bind-ok (parsed oci signed) _ (parse-eq-some signed r found)
          ((same_text _ _ match_reference).1 (sym same)),
  )
  matches_docker_reference_lem (remap_identity prefix signed_prefix) origin signed =
      let name = remapped oci prefix signed_prefix (oci.whole origin) in
      (
        λ h.
            let (r, found, same) = >>=-eq-ok (parsed oci name) _ h in
            (
              name,
              r,
              remapped-IsRemapped prefix signed_prefix (oci.whole origin),
              parsed-eq-ok name r found,
              (digest_or_exact_lem r signed).0 same,
            ),
        λ o.
            let (given, r, mapped, found, same) = o in
            let one : given ≡ name =
              IsRemapped-unique prefix signed_prefix (oci.whole origin) given mapped in
            bind-ok (parsed oci name) _ (parse-eq-some name r (ap oci.parse (sym one) ∙ found))
              ((digest_or_exact_lem r signed).1 same),
      )
