-- ===== src/Registries/Tidy.antt =====
-- What a handler's configuration is after the checks.
use guest_components.Prelude.{
  ◌≡◌, ◌↔◌, inl, inr, refl, sym, ap, ◌∙◌, false, ◌&&◌, List, [], ◌∷◌, codes, is_empty, starts_with,
  Bool-cases, All, Result, ok, >>=-eq-ok, bail_if, bail_if-eq-ok, ok_inj, arith,
}
use mathlib.Core.Path.{subst}
use guest_components.Registries.Config.{
  Mirror, Registry, Config, RegistryError, wildcard_without_location, tidy_prefix, check_mirrors,
  tidy_registry, tidy_registries, validate_and_tidy,
}
use guest_components.Registries.Handler.{RegistryHandler, new}

-- A rule has a prefix, a wildcard one a location, and its mirrors have locations.
pub record IsTidy (rule : Registry) : Type 0 where
  pub prefixed : is_empty rule.prefix ≡ false
  pub located : (starts_with (codes "*.") rule.prefix && is_empty rule.location) ≡ false
  pub mirrored : All (λ m. is_empty m.location ≡ false) rule.mirror

same_prefix :
    (a b : Registry)
    → ◌≡◌ {A = Result RegistryError Registry} (ok a) (ok b)
    → is_empty a.prefix ≡ false
    → is_empty b.prefix ≡ false
same_prefix a b same h = subst (λ r. is_empty r.prefix ≡ false) (ok_inj a b same) h

check_mirrors_iff :
    (mirrors : List Mirror)
    → (check_mirrors mirrors ≡ ok tt) ↔ All (λ m. is_empty m.location ≡ false) mirrors
unfolding check_mirrors
check_mirrors_iff [] = (λ h. tt, λ h. refl)
check_mirrors_iff (m ∷ mirrors) = ground (arith, check_mirrors_iff mirrors)

tidy_prefix-eq-ok :
    (given rule : Registry) → tidy_prefix given ≡ ok rule → is_empty rule.prefix ≡ false
unfolding tidy_prefix
tidy_prefix-eq-ok given rule h = elim (Bool-cases (is_empty given.prefix)) [
  | inl missing ↦ elim (Bool-cases (is_empty given.location)) [
    | inl nothing ↦ absurd (ground (arith, missing, nothing, h))
    | inr located ↦
        let same : ok (record given { prefix = given.location }) ≡ ok rule =
          sym (rw (missing, located) refl) ∙ h in
        same_prefix (record given { prefix = given.location }) rule same located
  ]
  | inr there ↦ same_prefix given rule (sym (rw there refl) ∙ h) there
]

tidy_registry-IsTidy : (given rule : Registry) → tidy_registry given ≡ ok rule → IsTidy rule
unfolding tidy_registry
tidy_registry-IsTidy given rule h =
    let (registry, prefixed, begun) = >>=-eq-ok (tidy_prefix given) _ h in
    let (_, located, more) =
      >>=-eq-ok
        (bail_if (starts_with (codes "*.") registry.prefix && is_empty registry.location)
          wildcard_without_location)
        _ begun in
    let (_, mirrors, last) = >>=-eq-ok (check_mirrors registry.mirror) _ more in
    subst IsTidy (ok_inj registry rule last) record {
      prefixed = tidy_prefix-eq-ok given registry prefixed;
      located = bail_if-eq-ok _ _ located;
      mirrored = (check_mirrors_iff registry.mirror).0 mirrors;
    }

tidy_registry_again : (rule : Registry) → IsTidy rule → tidy_registry rule ≡ ok rule
unfolding tidy_registry tidy_prefix
tidy_registry_again rule tidy =
    rw tidy.prefixed (rw tidy.located (rw ((check_mirrors_iff rule.mirror).1 tidy.mirrored) refl))

tidy_registries-IsTidy :
    (given rules : List Registry) → tidy_registries given ≡ ok rules → All IsTidy rules
unfolding tidy_registries
tidy_registries-IsTidy [] rules h = subst (All IsTidy) (ok_inj _ _ h) tt
tidy_registries-IsTidy (r ∷ given) rules h =
    let (rule, one, begun) = >>=-eq-ok (tidy_registry r) _ h in
    let (rest, others, last) = >>=-eq-ok (tidy_registries given) _ begun in
    subst (All IsTidy) (ok_inj _ _ last)
      (tidy_registry-IsTidy r rule one, tidy_registries-IsTidy given rest others)

tidy_registries_again :
    (rules : List Registry) → All IsTidy rules → tidy_registries rules ≡ ok rules
unfolding tidy_registries
tidy_registries_again [] h = refl
tidy_registries_again (r ∷ rules) h =
    rw (tidy_registry_again r h.0) (rw (tidy_registries_again rules h.1) refl)

-- A handler that is made holds only rules that have a prefix, a location if the prefix is a
-- wildcard, and a location for every mirror, and its configuration is accepted again as it is.
pub new-IsTidy :
    (config : Config) (handler : RegistryHandler)
    → new config ≡ ok handler
    → All IsTidy handler.config.registry × (new handler.config ≡ ok handler)
unfolding new validate_and_tidy
new-IsTidy config handler h =
    let (tidied, valid, last) = >>=-eq-ok (validate_and_tidy config) _ h in
    let (rules, each, made) = >>=-eq-ok (tidy_registries config.registry) _ valid in
    let tidy = tidy_registries-IsTidy config.registry rules each in
    subst (λ c. All IsTidy c.config.registry × (new c.config ≡ ok c))
      (ap (λ c. record { config = c }) (ok_inj _ _ made) ∙ ok_inj _ _ last)
      (tidy, rw (tidy_registries_again rules tidy) refl)
