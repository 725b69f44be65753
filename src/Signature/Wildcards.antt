-- ===== src/Signature/Wildcards.antt =====
-- The second loop of the lookup pushes the wildcards of a host.
use guest_components.Prelude.{
  ℕ, zero, suc, ◌<◌, ◌≡◌, refl, sym, ap, ◌∙◌, ◌⊎◌, inl, inr, false, none, some, [], ◌∷◌, ◌++◌,
  arith, Str, codes, contains, split_once, length, length-append, here, there, Option-cases,
}
use guest_components.Prelude.Split.{split_once-eq-some, split_once_exists, split_once-front}
use mathlib.Core.Path.{subst}
use guest_components.Signature.Namespaces.{wildcards}
use guest_components.Signature.Parents.{
  Listed, IsWildcard, append_cons_assoc, head, tail, Listed-cons,
}

wildcards_next :
    (fuel : ℕ) (name front domain : Str)
    → split_once b'.' name ≡ some (front, domain)
    → wildcards (suc fuel) name ≡ (codes "*." ++ domain) ∷ wildcards fuel domain
unfolding wildcards
wildcards_next fuel name front domain h = rw (h, wildcards) refl

wildcards_last :
    (fuel : ℕ) (name : Str) → split_once b'.' name ≡ none → wildcards (suc fuel) name ≡ []
unfolding wildcards
wildcards_last fuel name h = rw (h, wildcards) refl

pub wildcards-IsWildcard :
    (fuel : ℕ) (host s : Str) → Listed s (wildcards fuel host) → IsWildcard host s
unfolding wildcards
wildcards-IsWildcard zero host s h = elim h [ ]
wildcards-IsWildcard (suc fuel) host s h = elim (Option-cases (split_once b'.' host)) [
  | inl last ↦
      let h : Listed s [] = subst (Listed s) (wildcards_last fuel host last) h in elim h [ ]
  | inr ((front, domain), split) ↦
      let e = split_once-eq-some b'.' host front domain split in
      let h = subst (Listed s) (wildcards_next fuel host front domain split) h in
      elim (Listed-cons h) [
        | inl same ↦ (front, domain, e, sym same)
        | inr more ↦
            let (f, d, g, q) = wildcards-IsWildcard fuel domain s more in
            (
              front ++ (b'.' ∷ f),
              d,
              e ∙ ap (λ t. front ++ (b'.' ∷ t)) g ∙ sym (append_cons_assoc front f d b'.' b'.'),
              q,
            )
      ]
]

-- Of two ways to part a text at a `c`, the one with no `c` in front of it is at the first one.
first_c :
    (c : ℕ) (a b p r : Str)
    → a ++ (c ∷ b) ≡ p ++ (c ∷ r)
    → contains c a ≡ false
    → (r ≡ b) ⊎ ((s : Str) × (b ≡ s ++ (c ∷ r)))
unfolding contains
first_c c [] b [] r h first = inl (sym (tail h))
first_c c [] b (y ∷ p) r h first = inr (p, tail h)
first_c c (x ∷ a) b [] r h first = let same = head h in ground arith
first_c c (x ∷ a) b (y ∷ p) r h first = first_c c a b p r (tail h) (ground arith)

pub IsWildcard-wildcards :
    (fuel : ℕ) (host s : Str)
    → length host < fuel
    → IsWildcard host s
    → Listed s (wildcards fuel host)
IsWildcard-wildcards zero host s enough w = elim enough [ ]
IsWildcard-wildcards (suc fuel) host s enough (f, d, g, q) =
    elim (Option-cases (split_once b'.' host)) [
      | inl last ↦ let (found, e) = split_once_exists b'.' f d in cc
      | inr ((front, domain), split) ↦
          let e = split_once-eq-some b'.' host front domain split in
          let shorter : length domain < fuel =
            omega (arith, length-append front (b'.' ∷ domain), ap length e, enough) in
          rw (wildcards_next fuel host front domain split)
            (elim (first_c b'.' front domain f d (sym e ∙ g)
              (split_once-front b'.' host front domain split)) [
                | inl same ↦ here (ap (◌++◌ (codes "*.")) (sym same) ∙ sym q)
                | inr (r, f) ↦ there (IsWildcard-wildcards fuel domain s shorter (r, d, f, q))
              ])
    ]
