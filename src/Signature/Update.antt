-- ===== src/Signature/Update.antt =====
-- What one configuration of signature stores becomes when another is merged into it.
use guest_components.Prelude.{
  ◌≡◌, ◌⊎◌, inl, inr, refl, sym, ap, ◌∙◌, Option, none, some, arith, Str, get, Bool-cases,
  Option-cases, ok, err, ◌>>=◌, >>=-eq-ok, Result-cases,
}
use mathlib.Core.Path.{subst}
use guest_components.Signature.Policy.{Reason, defined_repeatedly}
use guest_components.Signature.Sigstore.{
  SigstoreConfigEntry, SigstoreConfig, get_namespace, entry_eq, entries_of, update_default,
  update_namespaces, update_self,
}
use guest_components.Signature.Merge.{
  or_else, Agree, Step, ok-injective, entry_eq_iff, or_else-none, update_namespaces_lem,
  update_namespaces-default,
}

-- What `update_default` keeps and what it takes over.
record Defaulted (self : SigstoreConfig) (input : Option SigstoreConfigEntry)
    (merged : SigstoreConfig) : Type 0 where
  kept : merged.docker_namespace_config ≡ self.docker_namespace_config
  taken : merged.default_config ≡ or_else self.default_config input
  agreed : Agree self.default_config input

update_default_lem :
    (self : SigstoreConfig) (input : Option SigstoreConfigEntry) (merged : SigstoreConfig)
    → update_default self input ≡ ok merged
    → Defaulted self input merged
unfolding update_default
update_default_lem self none merged h =
    let same : self ≡ merged = ground arith in
    record {
      kept = ap (λ (c : SigstoreConfig). c.docker_namespace_config) (sym same);
      taken = ap (λ (c : SigstoreConfig). c.default_config) (sym same) ∙ sym (or_else-none _);
      agreed = λ x y there missing. cc;
    }
update_default_lem self (some e) merged h = elim (Option-cases self.default_config) [
  | inl missing ↦
      let run : update_default self (some e) ≡ ok (record self { default_config = some e }) =
        rw (missing, update_default) refl in
      let same : record self { default_config = some e } ≡ merged = ok-injective _ run h in
      record {
        kept = ap (λ (c : SigstoreConfig). c.docker_namespace_config) (sym same);
        taken =
            ap (λ (c : SigstoreConfig). c.default_config) (sym same)
            ∙ ap (λ o. or_else o (some e)) (sym missing);
        agreed = λ x y there is. cc;
      }
  | inr (d, found) ↦ elim (Bool-cases (entry_eq e d)) [
    | inl equal ↦
        let run : update_default self (some e) ≡ ok (record self { default_config = some e }) =
          rw (found, equal, update_default) refl in
        let same : record self { default_config = some e } ≡ merged = ok-injective _ run h in
        let one : e ≡ d = entry_eq_iff e d equal in
        record {
          kept = ap (λ (c : SigstoreConfig). c.docker_namespace_config) (sym same);
          taken =
              ap (λ (c : SigstoreConfig). c.default_config) (sym same)
              ∙ ap some one
              ∙ ap (λ o. or_else o (some e)) (sym found);
          agreed = λ x y there is. cc;
        }
    | inr other ↦
        let run : update_default self (some e) ≡ err defined_repeatedly =
          rw (found, other, update_default) refl in
        cc
  ]
]

-- Another configuration's entries and default, taken over where there are none.
pub record IsMerged (self input next : SigstoreConfig) : Type 0 where
  pub namespaces :
      (ns : Str)
      → (get_namespace next ns ≡ or_else (get_namespace self ns) (get_namespace input ns))
        × Agree (get_namespace self ns) (get_namespace input ns)
  pub default :
      (next.default_config ≡ or_else self.default_config input.default_config)
      × Agree self.default_config input.default_config

get_namespace-entries :
    (input : SigstoreConfig) (ns : Str)
    → get ns (entries_of input.docker_namespace_config) ≡ get_namespace input ns
unfolding get_namespace get
get_namespace-entries input ns = elim (Option-cases input.docker_namespace_config) [
  | inl missing ↦ rw (missing, get_namespace) refl
  | inr (docker, found) ↦ rw (found, get_namespace) refl
]

get_namespace-kept :
    (a b : SigstoreConfig) (ns : Str)
    → a.docker_namespace_config ≡ b.docker_namespace_config
    → get_namespace a ns ≡ get_namespace b ns
get_namespace-kept a b ns h =
    sym (get_namespace-entries a ns)
    ∙ ap (λ d. get ns (entries_of d)) h
    ∙ get_namespace-entries b ns

-- Merging a configuration into another either succeeds, and then each namespace's entry and the
-- default are those that were there or else the input's, and where both had one it is the same; or
-- it fails, and the configuration is as it was.
pub update_self_lem :
    (self input : SigstoreConfig)
    → (((update_self self input).1 ≡ ok tt) × IsMerged self input (update_self self input).0)
      ⊎ ((e : Reason) × ((update_self self input).1 ≡ err e) × ((update_self self input).0 ≡ self))
unfolding update_self
update_self_lem self input =
    elim (Result-cases (
      update_default self input.default_config >>= λ merged.
      update_namespaces merged (entries_of input.docker_namespace_config))) [
        | inr (e, failed) ↦ inr (e, rw (failed, update_self) refl, rw (failed, update_self) refl)
        | inl (next, done) ↦
            let (merged, first, second) =
              >>=-eq-ok (update_default self input.default_config) _ done in
            let d = update_default_lem self input.default_config merged first in
            inl (
              rw (done, update_self) refl,
              rw (done, update_self)
                  (record {
                    namespaces = λ ns.
                        subst (λ m. Step m (get_namespace input ns) (get_namespace next ns))
                          (get_namespace-kept merged self ns d.kept)
                          (subst (λ g. Step (get_namespace merged ns) g (get_namespace next ns))
                            (get_namespace-entries input ns)
                            (update_namespaces_lem merged (entries_of input.docker_namespace_config)
                              next second ns));
                    default = (update_namespaces-default merged _ next second ∙ d.taken, d.agreed);
                  }),
            )
      ]
