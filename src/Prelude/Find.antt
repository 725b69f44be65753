-- ===== src/Prelude/Find.antt =====
-- Laws of looking for text in text.
use Prim.Native.Nat.{ℕ, suc, ◌≤◌}
use mathlib.Core.Path.{◌≡◌, refl, sym, ap, ◌∙◌}
use mathlib.Core.Logic.{inl, inr}
use mathlib.Core.Option.{Option, none, some}
use mathlib.Core.List.{[], ◌∷◌, ◌++◌}
use native.Mathlib.Omega.{arith}
use guest_components.Prelude.Tests.{==_iff, Option-cases}
use guest_components.Prelude.Lists.{length}
use guest_components.Prelude.Text.{Str, strip_prefix, find, is_empty}
use guest_components.Prelude.Split.{strip_prefix-append}

pub strip_prefix-eq-some : (p s r : Str) → strip_prefix p s ≡ some r → s ≡ p ++ r
unfolding strip_prefix
strip_prefix-eq-some [] s r h = cc
strip_prefix-eq-some (y ∷ p) [] r h = cc
strip_prefix-eq-some (y ∷ p) (x ∷ s) r h = ground (arith, ==_iff y x, strip_prefix-eq-some p s r)

-- No occurrence begins before this one.
abbrev pub IsFirst : Str → Str → Str → Type 0
IsFirst p a r = (b c : Str) → b ++ (p ++ c) ≡ a ++ (p ++ r) → length a ≤ length b

-- Where the text begins with what is looked for, it is found there.
find-prefix : (p s r : Str) → strip_prefix p s ≡ some r → find p s ≡ some 0
unfolding find is_empty
find-prefix [] [] r h = refl
find-prefix (x ∷ p) [] r h = let mismatch = strip_prefix-eq-some (x ∷ p) [] r h in cc
find-prefix p (x ∷ s) r h = ground (arith, h)

-- Elsewhere it is found where the rest of the text has it.
find-later :
    (p : Str) (x : ℕ) (s : Str) (m : Option ℕ)
    → strip_prefix p (x ∷ s) ≡ none
    → find p s ≡ m
    → find p (x ∷ s) ≡ elim m [ none ↦ none | some n ↦ some (suc n) ]
unfolding find
find-later p x s m elsewhere found = ground (arith, elsewhere, found, Option-cases m)

pub find_occurs : (p b c : Str) → (n : ℕ) × (find p (b ++ (p ++ c)) ≡ some n) × (n ≤ length b)
find_occurs p [] c = (0, find-prefix p (p ++ c) c (strip_prefix-append p c), omega arith)
find_occurs p (x ∷ b) c = elim (Option-cases (strip_prefix p (x ∷ (b ++ (p ++ c))))) [
  | inr (r, begins) ↦ (0, find-prefix p (x ∷ (b ++ (p ++ c))) r begins, omega arith)
  | inl elsewhere ↦
      let (n, found, before) = find_occurs p b c in
      (suc n, find-later p x (b ++ (p ++ c)) (some n) elsewhere found, omega (arith, before))
]

-- One byte further on, an occurrence is still the first if none begins at the byte.
IsFirst-cons :
    (p : Str) (x : ℕ) (a r : Str)
    → strip_prefix p (x ∷ (a ++ (p ++ r))) ≡ none
    → IsFirst p a r
    → IsFirst p (x ∷ a) r
IsFirst-cons p x a r elsewhere first [] c same =
    let begins = ap (strip_prefix p) (sym same) ∙ strip_prefix-append p c in cc
IsFirst-cons p x a r elsewhere first (y ∷ b) c same =
    let before = first b c (let whole = same in cc) in omega (arith, before)

pub find-eq-some :
    (p s : Str) (n : ℕ)
    → find p s ≡ some n
    → (a r : Str) × (s ≡ a ++ (p ++ r)) × (length a ≡ n) × IsFirst p a r
unfolding find is_empty
find-eq-some [] [] n h = ([], [], refl, ground arith, λ b c same. omega arith)
find-eq-some (y ∷ p) [] n h = cc
find-eq-some p (x ∷ s) n h = elim (Option-cases (strip_prefix p (x ∷ s))) [
  | inr (r, begins) ↦
      let zero_n : some 0 ≡ some n = sym (find-prefix p (x ∷ s) r begins) ∙ h in
      ([], r, strip_prefix-eq-some p (x ∷ s) r begins, ground arith, λ b c same. omega arith)
  | inl elsewhere ↦ elim (Option-cases (find p s)) [
    | inl nowhere ↦ let none_n = find-later p x s none elsewhere nowhere in cc
    | inr (m, found) ↦
        let (a, r, parts, long, first) = find-eq-some p s m found in
        let next = find-later p x s (some m) elsewhere found in
        (
          x ∷ a,
          r,
          ap (◌∷◌ x) parts,
          ground (arith, sym next ∙ h),
          IsFirst-cons p x a r (rw (← parts) elsewhere) first,
        )
  ]
]

-- The first occurrence is found.
pub find-first : (p a r : Str) → IsFirst p a r → find p (a ++ (p ++ r)) ≡ some (length a)
find-first p a r first =
    let (n, found, before) = find_occurs p a r in
    let (a', r', parts, long, _) = find-eq-some p (a ++ (p ++ r)) n found in
    let least = first a' r' (sym parts) in found ∙ ap some (omega (arith, before, long, least))

-- What is found is the first occurrence.
pub found-IsFirst : (p a r : Str) → find p (a ++ (p ++ r)) ≡ some (length a) → IsFirst p a r
found-IsFirst p a r found b c same =
    let (n, earlier, before) = find_occurs p b c in
    let one = sym found ∙ ap (find p) (sym same) ∙ earlier in
    let there : length a ≡ n = cc in omega (arith, before, there)
