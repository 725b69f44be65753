-- ===== src/Signature/Merge.antt =====
-- What merging the configurations of signature stores gives.
use guest_components.Prelude.{
  ◌≡◌, inl, inr, refl, sym, ap, ◌∙◌, Bool, true, false, Option, none, some, [], ◌∷◌, arith, Str,
  str_eq, str_eq_iff, get, insert, Bool-cases, Option-cases, if◌then◌else◌, Result, ok, err,
}
use guest_components.Prelude.Maps.{get-insert}
use guest_components.Signature.Policy.{defined_repeatedly}
use guest_components.Signature.Sigstore.{
  SigstoreConfigEntry, SigstoreConfig, Entries, get_namespace, insert_namespace, entry_eq,
  update_namespaces,
}

-- The entry that is there, or else the other.
abbrev pub or_else : {A : Type 0} → Option A → Option A → Option A
or_else (some a) b = some a
or_else none b = b

-- Two entries of one namespace are the same one.
abbrev pub Agree : {A : Type 0} → Option A → Option A → Type 0
Agree {A = A} a b = (x y : A) → a ≡ some x → b ≡ some y → x ≡ y

pub ok-injective : {E A : Type 0} {a b : A} (r : Result E A) → r ≡ ok a → r ≡ ok b → a ≡ b
ok-injective r h k = cc

pub entry_eq_iff : (a b : SigstoreConfigEntry) → entry_eq a b ≡ true → a ≡ b
unfolding entry_eq
entry_eq_iff a b h = ap (λ s. record { sigstore = s }) ((str_eq_iff a.sigstore b.sigstore).0 h)

get_namespace-insert :
    (self : SigstoreConfig) (ns j : Str) (e : SigstoreConfigEntry)
    → get_namespace (insert_namespace self ns e) j
      ≡ (if str_eq ns j then some e else get_namespace self j)
unfolding get_namespace insert_namespace get insert
get_namespace-insert self ns j e = elim (Option-cases self.docker_namespace_config) [
  | inl missing ↦ rw (missing, get_namespace, insert_namespace) refl
  | inr (docker, found) ↦ rw (found, get_namespace, insert_namespace) (get-insert j ns e docker)
]

-- One more entry of the input, of a namespace that is new or that has this entry.
abbrev pub Step :
    Option SigstoreConfigEntry → Option SigstoreConfigEntry → Option SigstoreConfigEntry → Type 0
Step m g r = (r ≡ or_else m g) × Agree m g

Step-new :
    (m i g r : Option SigstoreConfigEntry) (b : Bool) (e : SigstoreConfigEntry)
    → (b ≡ true → m ≡ none)
    → i ≡ (if b then some e else m)
    → Step i g r
    → Step m (if b then some e else g) r
Step-new m i g r true e new is (h, agree) = (
  h ∙ ap (λ o. or_else o g) is ∙ ap (λ o. or_else o (some e)) (sym (new refl)),
  λ x y there same. let gone = new refl in cc,
)
Step-new m i g r false e new is (h, agree) =
    (h ∙ ap (λ o. or_else o g) is, λ x y there same. agree x y (is ∙ there) same)

Step-old :
    (m g r : Option SigstoreConfigEntry) (b : Bool) (old e : SigstoreConfigEntry)
    → (b ≡ true → m ≡ some old)
    → old ≡ e
    → Step m g r
    → Step m (if b then some e else g) r
Step-old m g r true old e known same (h, agree) = (
  h ∙ ap (λ o. or_else o g) (known refl) ∙ ap (λ o. or_else o (some e)) (sym (known refl)),
  λ x y there is. let was = known refl in cc,
)
Step-old m g r false old e known same s = s

update_namespaces-new :
    (merged : SigstoreConfig) (name : Str) (e : SigstoreConfigEntry) (entries : Entries)
    → get_namespace merged name ≡ none
    → update_namespaces merged ((name, e) ∷ entries)
      ≡ update_namespaces (insert_namespace merged name e) entries
unfolding update_namespaces
update_namespaces-new merged name e entries h = rw (h, update_namespaces) refl

update_namespaces-old :
    (merged : SigstoreConfig) (name : Str) (e old : SigstoreConfigEntry) (entries : Entries)
    (result : SigstoreConfig)
    → get_namespace merged name ≡ some old
    → update_namespaces merged ((name, e) ∷ entries) ≡ ok result
    → (old ≡ e) × (update_namespaces merged entries ≡ ok result)
unfolding update_namespaces
update_namespaces-old merged name e old entries result found h =
    elim (Bool-cases (entry_eq old e)) [
      | inl same ↦ (entry_eq_iff old e same, sym (rw (found, same, update_namespaces) refl) ∙ h)
      | inr other ↦
          let refused : update_namespaces merged ((name, e) ∷ entries) ≡ err defined_repeatedly =
            rw (found, other, update_namespaces) refl in
          cc
    ]

pub or_else-none : {A : Type 0} (a : Option A) → or_else a none ≡ a
or_else-none none = refl
or_else-none (some a) = refl

pub update_namespaces_lem :
    (merged : SigstoreConfig) (entries : Entries) (result : SigstoreConfig)
    → update_namespaces merged entries ≡ ok result
    → (ns : Str) → Step (get_namespace merged ns) (get ns entries) (get_namespace result ns)
unfolding update_namespaces get
update_namespaces_lem merged [] result h ns =
    let same : merged ≡ result = ground arith in
    (ap (λ c. get_namespace c ns) (sym same) ∙ sym (or_else-none _), λ x y there missing. cc)
update_namespaces_lem merged ((name, e) ∷ entries) result h ns =
    elim (Option-cases (get_namespace merged name)) [
      | inl missing ↦
          Step-new _ _ _ _ (str_eq name ns) e
            (λ same. ap (get_namespace merged) (sym ((str_eq_iff name ns).0 same)) ∙ missing)
            (get_namespace-insert merged name ns e)
            (update_namespaces_lem (insert_namespace merged name e) entries result
              (sym (update_namespaces-new merged name e entries missing) ∙ h) ns)
      | inr (old, found) ↦
          let (same_entry, go) = update_namespaces-old merged name e old entries result found h in
          Step-old _ _ _ (str_eq name ns) old e
            (λ same. ap (get_namespace merged) (sym ((str_eq_iff name ns).0 same)) ∙ found)
            same_entry (update_namespaces_lem merged entries result go ns)
    ]

insert_namespace-default :
    (self : SigstoreConfig) (ns : Str) (e : SigstoreConfigEntry)
    → (insert_namespace self ns e).default_config ≡ self.default_config
unfolding insert_namespace
insert_namespace-default self ns e = elim (Option-cases self.docker_namespace_config) [
  | inl missing ↦ rw (missing, insert_namespace) refl
  | inr (docker, found) ↦ rw (found, insert_namespace) refl
]

pub update_namespaces-default :
    (merged : SigstoreConfig) (entries : Entries) (result : SigstoreConfig)
    → update_namespaces merged entries ≡ ok result
    → result.default_config ≡ merged.default_config
unfolding update_namespaces
update_namespaces-default merged [] result h =
    let same : merged ≡ result = ground arith in
    ap (λ (c : SigstoreConfig). c.default_config) (sym same)
update_namespaces-default merged ((name, e) ∷ entries) result h =
    elim (Option-cases (get_namespace merged name)) [
      | inl missing ↦
          update_namespaces-default (insert_namespace merged name e) entries result
            (sym (update_namespaces-new merged name e entries missing) ∙ h)
          ∙ insert_namespace-default merged name e
      | inr (old, found) ↦
          update_namespaces-default merged entries result
            (update_namespaces-old merged name e old entries result found h).1
    ]
