-- ===== src/Registries/Prefixes.antt =====
-- Which part of a reference a rule's prefix matches.
use guest_components.Prelude.{
  ℕ, ◌+◌, ◌≡◌, ◌↔◌, inl, inr, refl, sym, ap, ◌∙◌, Bool, true, false, ◌||◌, ◌&&◌, none, some, [],
  ◌∷◌, ◌++◌, Str, codes, contains, starts_with, find, length, take, drop, ◌==◌, ==_iff,
  if◌then◌else◌, Bool-cases, Option-cases, arith, append_assoc, length-append, drop-length_append,
  take-length_append,
}
use mathlib.Core.Path.{subst}
use guest_components.Prelude.Find.{IsFirst, find-eq-some, find-first}
use guest_components.Registries.Handler.{matched, unmatched, delimited, match_reference_prefix}

-- The text behind a match is empty or begins with a separator.
pub data Delimited : Str → Type 0 where
  at_end : Delimited []
  colon : {behind : Str} → Delimited (b':' ∷ behind)
  slash : {behind : Str} → Delimited (b'/' ∷ behind)
  at_sign : {behind : Str} → Delimited (b'@' ∷ behind)

abbrev IsWildcard : Str → Type 0
IsWildcard prefix = starts_with (codes "*.") prefix ≡ true

-- What has to occur in the reference: a wildcard's star stands for what is before.
abbrev pub needle : Str → Str
needle prefix = if starts_with (codes "*.") prefix then drop 1 prefix else prefix

-- So much of the reference ends with the first place where it has the prefix.
pub record IsMatch (reference prefix : Str) (n : ℕ) : Type 0 where
  pub front : Str
  pub behind : Str
  pub parts : reference ≡ front ++ (needle prefix ++ behind)
  pub first : IsFirst (needle prefix) front behind
  pub ends : n ≡ length front + length (needle prefix)
  pub separated : Delimited behind
  pub one_host : IsWildcard prefix → contains b'/' front ≡ false

separator : (c : ℕ) (s : Str) → (c == b':' || (c == b'/' || c == b'@')) ≡ true → Delimited (c ∷ s)
separator c s h = elim (Bool-cases (c == b':')) [
  | inl one ↦ subst (λ x. Delimited (x ∷ s)) (sym ((==_iff c b':').0 one)) colon
  | inr other ↦ elim (Bool-cases (c == b'/')) [
    | inl one ↦ subst (λ x. Delimited (x ∷ s)) (sym ((==_iff c b'/').0 one)) slash
    | inr next ↦
        let one : c ≡ b'@' = ground (arith, ==_iff c b'@') in
        subst (λ x. Delimited (x ∷ s)) (sym one) at_sign
  ]
]

separated_byte :
    (c : ℕ) (s : Str) → Delimited (c ∷ s) → (c == b':' || (c == b'/' || c == b'@')) ≡ true
separated_byte _ _ colon = refl
separated_byte _ _ slash = refl
separated_byte _ _ at_sign = refl

drop-past : (a p r : Str) → drop (length a + length p) (a ++ (p ++ r)) ≡ r
drop-past a p r =
    ap (λ n. drop n (a ++ (p ++ r))) (sym (length-append a p))
    ∙ ap (drop (length (a ++ p))) (sym (append_assoc a p r))
    ∙ drop-length_append (a ++ p) r

delimited_iff : (r : Str) (pos n : ℕ) → (delimited pos r ≡ matched n) ↔ ((n ≡ pos) × Delimited r)
unfolding delimited
delimited_iff [] pos n = (λ h. (ground (arith, h), at_end), λ h. ap matched (sym h.0))
delimited_iff (c ∷ r) pos n = (
  λ h. elim (Bool-cases (c == b':' || (c == b'/' || c == b'@'))) [
    | inl good ↦ (ground (arith, h, good), separator c r good)
    | inr bad ↦ absurd (ground (arith, h, bad))
  ],
  λ h. rw (separated_byte c r h.1) (ap matched (sym h.0)),
)

match-missing :
    (reference prefix : Str)
    → find (needle prefix) reference ≡ none
    → match_reference_prefix reference prefix ≡ unmatched
unfolding match_reference_prefix
match-missing reference prefix h = elim (Bool-cases (starts_with (codes "*.") prefix)) [
  | inl star ↦ ground (arith, star, h)
  | inr plain ↦ ground (arith, plain, h)
]

match-found :
    (reference prefix : Str) (pos : ℕ)
    → find (needle prefix) reference ≡ some pos
    → match_reference_prefix reference prefix ≡ (
        if starts_with (codes "*.") prefix && contains b'/' (take pos reference)
        then unmatched
        else delimited
            (pos + length (needle prefix))
            (drop (pos + length (needle prefix)) reference))
unfolding match_reference_prefix
match-found reference prefix pos h = elim (Bool-cases (starts_with (codes "*.") prefix)) [
  | inl star ↦ ground (arith, star, h)
  | inr plain ↦ ground (arith, plain, h)
]

-- On a reference in three parts, of which the second is found.
match-parts :
    (prefix a r : Str)
    → IsFirst (needle prefix) a r
    → match_reference_prefix (a ++ (needle prefix ++ r)) prefix ≡ (
        if starts_with (codes "*.") prefix && contains b'/' a
        then unmatched
        else delimited (length a + length (needle prefix)) r)
match-parts prefix a r first =
    match-found (a ++ (needle prefix ++ r)) prefix (length a) (find-first (needle prefix) a r first)
    ∙ ap
        (λ t.
          if starts_with (codes "*.") prefix && contains b'/' t
          then unmatched
          else delimited (length a + length (needle prefix))
              (drop (length a + length (needle prefix)) (a ++ (needle prefix ++ r))))
        (take-length_append a (needle prefix ++ r))
    ∙ ap
        (λ t.
          if starts_with (codes "*.") prefix && contains b'/' a
          then unmatched
          else delimited (length a + length (needle prefix)) t)
        (drop-past a (needle prefix) r)

guard_of :
    (g b : Bool) (n pos : ℕ) (r : Str)
    → ((if g && b then unmatched else delimited pos r) ≡ matched n)
      ↔ ((n ≡ pos) × Delimited r × ((g ≡ true) → b ≡ false))
guard_of true true n pos r = (λ h. cc, λ h. let other = h.2 refl in cc)
guard_of true false n pos r = (
  λ h. let (end, sep) = (delimited_iff r pos n).0 h in (end, sep, λ g. refl),
  λ h. (delimited_iff r pos n).1 (h.0, h.1),
)
guard_of false b n pos r = (
  λ h. let (end, sep) = (delimited_iff r pos n).0 h in (end, sep, λ g. cc),
  λ h. (delimited_iff r pos n).1 (h.0, h.1),
)

-- A prefix matches so much of a reference exactly if that much ends with the first place where the
-- prefix, or what is behind its star, occurs in it, a separator or nothing is next, and, for a
-- wildcard, no slash is before. The place need not be the reference's beginning.
pub match_reference_prefix_lem :
    (reference prefix : Str) (n : ℕ)
    → (match_reference_prefix reference prefix ≡ matched n) ↔ IsMatch reference prefix n
match_reference_prefix_lem reference prefix n = (
  λ h. elim (Option-cases (find (needle prefix) reference)) [
    | inl nowhere ↦ let other = match-missing reference prefix nowhere in absurd (cc)
    | inr (pos, found) ↦
        let (a, r, parts, long, first) = find-eq-some (needle prefix) reference pos found in
        let (end, sep, one) =
          (guard_of (starts_with (codes "*.") prefix) (contains b'/' a) n
              (length a + length (needle prefix)) r).0
            (sym (match-parts prefix a r first)
              ∙ ap (λ t. match_reference_prefix t prefix) (sym parts)
              ∙ h) in
        record {
          front = a;
          behind = r;
          parts = parts;
          first = first;
          ends = end;
          separated = sep;
          one_host = one;
        }
  ],
  λ m.
      ap (λ t. match_reference_prefix t prefix) m.parts
      ∙ match-parts prefix m.front m.behind m.first
      ∙ (guard_of (starts_with (codes "*.") prefix) (contains b'/' m.front) n
            (length m.front + length (needle prefix)) m.behind).1
          (m.ends, m.separated, m.one_host),
)
