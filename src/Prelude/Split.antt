-- ===== src/Prelude/Split.antt =====
-- Laws of searching, splitting and joining text.
use Prim.Native.Nat.{ℕ}
use mathlib.Core.Path.{◌≡◌, refl, ap, ◌∙◌}
use mathlib.Core.Logic.{inl, inr}
use mathlib.Core.Bool.{true, false, ◌||◌}
use mathlib.Core.Option.{none, some}
use mathlib.Core.List.{List, [], ◌∷◌, ◌++◌}
use native.Mathlib.Omega.{arith}
use guest_components.Prelude.Tests.{◌==◌, ==_iff, Bool-cases, Option-cases}
use guest_components.Prelude.Lists.{All}
use guest_components.Prelude.Text.{
  Str, contains, split_once, rsplit_once, split, join, cons_head, strip_prefix,
}

pub contains-append : (c : ℕ) (a b : Str) → contains c (a ++ b) ≡ (contains c a || contains c b)
unfolding contains
contains-append c [] b = refl
contains-append c (x ∷ a) b = ground (arith, contains-append c a b)

pub split_once-eq-some : (c : ℕ) (s a b : Str) → split_once c s ≡ some (a, b) → s ≡ a ++ (c ∷ b)
unfolding split_once
split_once-eq-some c [] a b h = cc
split_once-eq-some c (x ∷ s) a b h = elim (Option-cases (split_once c s)) [
  | inl e ↦ ground (arith, ==_iff x c)
  | inr ((a', b'), e) ↦ ground (arith, ==_iff x c, split_once-eq-some c s a' b' e)
]

pub split_once-append :
    (c : ℕ) (a b : Str) → contains c a ≡ false → split_once c (a ++ (c ∷ b)) ≡ some (a, b)
unfolding split_once contains
split_once-append c [] b h = ground arith
split_once-append c (x ∷ a) b h = ground (arith, split_once-append c a b)

-- The first occurrence lies in the part before a given one, or is that one.
pub split_once_exists :
    (c : ℕ) (a b : Str) → (p : Str × Str) × (split_once c (a ++ (c ∷ b)) ≡ some p)
unfolding split_once
split_once_exists c [] b = (([], b), ground arith)
split_once_exists c (x ∷ a) b =
    let (p, e) = split_once_exists c a b in
    elim (Bool-cases (x == c)) [
      | inl same ↦ (([], a ++ (c ∷ b)), rw same)
      | inr other ↦ ((x ∷ p.0, p.1), rw (other, e))
    ]

pub rsplit_once-eq-none : (c : ℕ) (s : Str) → rsplit_once c s ≡ none → contains c s ≡ false
unfolding rsplit_once contains
rsplit_once-eq-none c [] h = refl
rsplit_once-eq-none c (x ∷ s) h = elim (Option-cases (rsplit_once c s)) [
  | inl e ↦ ground (arith, rsplit_once-eq-none c s e)
  | inr ((a, b), e) ↦ ground arith
]

pub rsplit_once-eq-some :
    (c : ℕ) (s a b : Str)
    → rsplit_once c s ≡ some (a, b)
    → (s ≡ a ++ (c ∷ b)) × (contains c b ≡ false)
unfolding rsplit_once
rsplit_once-eq-some c [] a b h = cc
rsplit_once-eq-some c (x ∷ s) a b h = elim (Option-cases (rsplit_once c s)) [
  | inl e ↦ ground (arith, ==_iff x c, rsplit_once-eq-none c s e)
  | inr ((a', b'), e) ↦ ground (arith, rsplit_once-eq-some c s a' b' e)
]

-- A split has a first part.
split_uncons : (c : ℕ) (s : Str) → (p : Str) × (ps : List Str) × (split c s ≡ p ∷ ps)
unfolding split
split_uncons c [] = ([], [], refl)
split_uncons c (x ∷ s) =
    let (p, ps, e) = split_uncons c s in
    elim (Bool-cases (x == c)) [
      | inl same ↦ ([], p ∷ ps, rw (same, e))
      | inr other ↦ (x ∷ p, ps, rw (other, e))
    ]

join-cons_head :
    (c x : ℕ) (p : Str) (ps : List Str) → join c (cons_head x (p ∷ ps)) ≡ x ∷ join c (p ∷ ps)
unfolding join
join-cons_head c x p [] = refl
join-cons_head c x p (q ∷ ps) = refl

pub join-split : (c : ℕ) (s : Str) → join c (split c s) ≡ s
unfolding split join
join-split c [] = refl
join-split c (x ∷ s) =
    let (p, ps, e) = split_uncons c s in
    let ih : join c (p ∷ ps) ≡ s = rw (← e) (join-split c s) in
    elim (Bool-cases (x == c)) [
      | inl same ↦ rw (same, e) (ground (arith, ih, ==_iff x c))
      | inr other ↦ rw (other, e) (join-cons_head c x p ps ∙ ap (◌∷◌ x) ih)
    ]

split_of_contains : (c : ℕ) (p : Str) → contains c p ≡ false → split c p ≡ p ∷ []
unfolding split contains
split_of_contains c [] h = refl
split_of_contains c (x ∷ p) h = ground (arith, split_of_contains c p)

split-append : (c : ℕ) (p s : Str) → contains c p ≡ false → split c (p ++ (c ∷ s)) ≡ p ∷ split c s
unfolding split contains
split-append c [] s h = ground arith
split-append c (x ∷ p) s h = ground (arith, split-append c p s)

pub split-join :
    (c : ℕ) (p : Str) (ps : List Str)
    → All (λ q. contains c q ≡ false) (p ∷ ps)
    → split c (join c (p ∷ ps)) ≡ p ∷ ps
unfolding join
split-join c p [] h = split_of_contains c p h.0
split-join c p (q ∷ ps) h =
    split-append c p (join c (q ∷ ps)) h.0 ∙ ap (◌∷◌ p) (split-join c q ps h.1)

pub strip_prefix-append : (p s : Str) → strip_prefix p (p ++ s) ≡ some s
unfolding strip_prefix
strip_prefix-append [] s = refl
strip_prefix-append (x ∷ p) s = ground (arith, strip_prefix-append p s)

contains-append_self : (c : ℕ) (a b : Str) → contains c (a ++ (c ∷ b)) ≡ true
unfolding contains
contains-append_self c [] b = ground arith
contains-append_self c (x ∷ a) b = ground (arith, contains-append_self c a b)

pub split_once_of_contains :
    (c : ℕ) (s : Str) → contains c s ≡ true → (p : Str × Str) × (split_once c s ≡ some p)
unfolding contains split_once
split_once_of_contains c [] h = cc
split_once_of_contains c (x ∷ s) h = elim (Bool-cases (x == c)) [
  | inl same ↦ (([], s), rw same)
  | inr other ↦
      let (p, e) = split_once_of_contains c s (ground arith) in ((x ∷ p.0, p.1), rw (other, e))
]

-- Behind the first of two occurrences there is another.
pub contains-split_once :
    (c : ℕ) (a m b : Str) (p q : Str)
    → split_once c (a ++ (c ∷ (m ++ (c ∷ b)))) ≡ some (p, q)
    → contains c q ≡ true
unfolding split_once
contains-split_once c [] m b p q h = ground (arith, contains-append_self c m b)
contains-split_once c (x ∷ a) m b p q h = elim (Bool-cases (x == c)) [
  | inl same ↦ ground (arith, contains-append_self c a (m ++ (c ∷ b)))
  | inr other ↦
      let (r, e) = split_once_exists c a (m ++ (c ∷ b)) in
      ground (arith, contains-split_once c a m b r.0 r.1 e)
]

pub split_once-front : (c : ℕ) (s a b : Str) → split_once c s ≡ some (a, b) → contains c a ≡ false
unfolding split_once contains
split_once-front c [] a b h = cc
split_once-front c (x ∷ s) [] b h = refl
split_once-front c (x ∷ s) (y ∷ a) b h = elim (Option-cases (split_once c s)) [
  | inl missing ↦ ground arith
  | inr ((p, q), found) ↦ ground (arith, split_once-front c s p q found)
]
