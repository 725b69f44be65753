-- ===== src/Registries/Longest.antt =====
-- The rule that is applied: the last of those that match the most.
use guest_components.Prelude.{
  ℕ, ◌≤◌, ◌<◌, ◌≡◌, ◌↔◌, ◌⊎◌, inl, inr, refl, ap, Option, none, some, List, [], ◌∷◌, ◌++◌, Str, ltb,
  ltb→lt, Bool-cases, Option-cases, All, All-map, All-append, arith,
}
use mathlib.Core.Path.{subst}
use guest_components.Registries.Config.{Registry}
use guest_components.Registries.Handler.{
  MatchResult, matched, unmatched, match_reference_prefix, matching, longest,
}

-- Whatever of the reference the rule matches is within the bound.
abbrev AtMost : Str → ℕ → Registry → Type 0
AtMost reference n rule = (m : ℕ) → match_reference_prefix reference rule.prefix ≡ matched m → m ≤ n

abbrev Below : Str → ℕ → Registry → Type 0
Below reference n rule = (m : ℕ) → match_reference_prefix reference rule.prefix ≡ matched m → m < n

abbrev pub Misses : Str → Registry → Type 0
Misses reference rule = match_reference_prefix reference rule.prefix ≡ unmatched

-- The rule matches so much; none before it matches more, and each behind it less.
pub record IsChosen (reference : Str) (rules : List Registry) (n : ℕ) (rule : Registry)
    : Type 0 where
  pub before : List Registry
  pub after : List Registry
  pub parts : rules ≡ before ++ (rule ∷ after)
  pub matches : match_reference_prefix reference rule.prefix ≡ matched n
  pub most : All (AtMost reference n) before
  pub last : All (Below reference n) after

pub MatchResult-cases : (m : MatchResult) → (m ≡ unmatched) ⊎ ((n : ℕ) × (m ≡ matched n))
MatchResult-cases unmatched = inl refl
MatchResult-cases (matched n) = inr (n, refl)

module _ (reference : Str) where
  pub longest-eq-none :
      (rules : List Registry)
      → longest (matching reference rules) ≡ none
      → All (Misses reference) rules
  unfolding matching longest
  longest-eq-none [] h = tt
  longest-eq-none (rule ∷ rules) h =
      elim (MatchResult-cases (match_reference_prefix reference rule.prefix)) [
        | inl misses ↦ (misses, longest-eq-none rules (ground (arith, misses)))
        | inr (n, matches) ↦ elim (Option-cases (longest (matching reference rules))) [
          | inl e ↦ absurd (ground (arith, h, matches, e))
          | inr ((m, best), e) ↦ absurd (ground (arith, h, matches, e))
        ]
      ]

  IsChosen-front :
      (rule : Registry) (rules : List Registry) (n : ℕ) (best : Registry)
      → IsChosen reference rules n best
      → AtMost reference n rule
      → IsChosen reference (rule ∷ rules) n best
  IsChosen-front rule rules n best c most = record {
    before = rule ∷ c.before;
    after = c.after;
    parts = ap (◌∷◌ rule) c.parts;
    matches = c.matches;
    most = (most, c.most);
    last = c.last;
  }

  IsChosen-first :
      (rule : Registry) (rules : List Registry) (n : ℕ)
      → match_reference_prefix reference rule.prefix ≡ matched n
      → All (Below reference n) rules
      → IsChosen reference (rule ∷ rules) n rule
  IsChosen-first rule rules n matches last = record {
    before = [];
    after = rules;
    parts = refl;
    matches = matches;
    most = tt;
    last = last;
  }

  -- What is said of the pair that is found is said of its parts.
  renamed :
      (rules : List Registry) (n m : ℕ) (best rule : Registry)
      → ◌≡◌ {A = Option (ℕ × Registry)} (some (m, rule)) (some (n, best))
      → IsChosen reference rules m rule
      → IsChosen reference rules n best
  renamed rules n m best rule same c =
      let pair : ◌≡◌ {A = ℕ × Registry} (m, rule) (n, best) = cc in
      subst (λ p. IsChosen reference rules p.0 p.1) pair c

  -- No rule matches more than the chosen one.
  pub chosen_most :
      (rules : List Registry) (n : ℕ) (best : Registry)
      → IsChosen reference rules n best
      → All (AtMost reference n) rules
  chosen_most rules n best c = rw (c.parts) (
      All-append (AtMost reference n) c.before (best ∷ c.after) c.most (
        λ m h. let same = c.matches in ground (arith, h, same),
        All-map (Below reference n) (AtMost reference n) (λ r below m h. omega (arith, below m h))
            c.after c.last,
      ))

  longest-eq-some :
      (rules : List Registry) (n : ℕ) (best : Registry)
      → longest (matching reference rules) ≡ some (n, best)
      → IsChosen reference rules n best
  unfolding matching longest
  longest-eq-some [] n best h = absurd (ground (arith, h))
  longest-eq-some (rule ∷ rules) n best h =
      elim (MatchResult-cases (match_reference_prefix reference rule.prefix)) [
        | inl misses ↦
            IsChosen-front rule rules n best
              (longest-eq-some rules n best (ground (arith, misses, h)))
              (λ m hit. absurd (ground (arith, misses, hit)))
        | inr (m, matches) ↦ elim (Option-cases (longest (matching reference rules))) [
          | inl nothing ↦
              renamed (rule ∷ rules) n m best rule (ground (arith, h, matches, nothing)) (
                IsChosen-first rule rules m matches (
                  All-map (Misses reference) (Below reference m)
                    (λ r misses i hit. absurd (ground (arith, misses, hit))) rules
                    (longest-eq-none rules nothing)))
          | inr ((k, other), found) ↦ elim (Bool-cases (ltb k m)) [
            | inl more ↦
                renamed (rule ∷ rules) n m best rule (ground (arith, h, matches, found, more)) (
                  IsChosen-first rule rules m matches (
                    All-map (AtMost reference k) (Below reference m)
                      (λ r most i hit. omega (arith, most i hit, ltb→lt k m more)) rules
                      (chosen_most rules k other (longest-eq-some rules k other found))))
            | inr less ↦
                renamed (rule ∷ rules) n k best other (ground (arith, h, matches, found, less)) (
                  IsChosen-front rule rules k other (longest-eq-some rules k other found)
                    (λ i hit. ground (arith, hit, matches, less)))
          ]
        ]
      ]

  All_split :
      (P : Registry → Type 0) (a : List Registry) (r : Registry) (b : List Registry)
      → All P (a ++ (r ∷ b))
      → P r
  All_split P [] r b h = h.0
  All_split P (x ∷ a) r b h = All_split P a r b h.1

  -- The rule that is found among some has one of their bounds.
  found_bound :
      (P : Registry → Type 0) (rules : List Registry) (n : ℕ) (best : Registry)
      → longest (matching reference rules) ≡ some (n, best)
      → All P rules
      → P best × (match_reference_prefix reference best.prefix ≡ matched n)
  found_bound P rules n best h all =
      let c = longest-eq-some rules n best h in
      (All_split P c.before best c.after (rw (← c.parts) all), c.matches)

  longest_first :
      (rule : Registry) (after : List Registry) (n : ℕ)
      → match_reference_prefix reference rule.prefix ≡ matched n
      → All (Below reference n) after
      → longest (matching reference (rule ∷ after)) ≡ some (n, rule)
  unfolding matching longest
  longest_first rule after n matches last =
      elim (Option-cases (longest (matching reference after))) [
        | inl nothing ↦ ground (arith, matches, nothing)
        | inr ((k, other), found) ↦
            let (bound, hit) = found_bound (Below reference n) after k other found last in
            let less = bound k hit in ground (arith, matches, found, less)
      ]

  longest_behind :
      (before : List Registry) (rule : Registry) (after : List Registry) (n : ℕ)
      → match_reference_prefix reference rule.prefix ≡ matched n
      → All (AtMost reference n) before
      → All (Below reference n) after
      → longest (matching reference (before ++ (rule ∷ after))) ≡ some (n, rule)
  unfolding matching longest
  longest_behind [] rule after n matches most last = longest_first rule after n matches last
  longest_behind (r ∷ before) rule after n matches most last =
      let rest = longest_behind before rule after n matches most.1 last in
      elim (MatchResult-cases (match_reference_prefix reference r.prefix)) [
        | inl misses ↦ ground (arith, misses, rest)
        | inr (m, hit) ↦ let less = most.0 m hit in ground (arith, hit, rest, less)
      ]

  -- The rule that is found is the last of those that match the most.
  pub longest_iff :
      (rules : List Registry) (n : ℕ) (best : Registry)
      → (longest (matching reference rules) ≡ some (n, best)) ↔ IsChosen reference rules n best
  longest_iff rules n best = (
    longest-eq-some rules n best,
    λ c. rw c.parts (longest_behind c.before best c.after n c.matches c.most c.last),
  )
