-- ===== src/Prelude/Text.antt =====
-- Rust's `str` as the list of its bytes, with the methods of the standard library that the sources
-- use, and maps from text as association lists.
use Prim.Native.Nat.{ℕ, suc}
use Prim.Native.Char.{code}
use Prim.Native.String.{String}
use mathlib.Core.Path.{◌≡◌, refl}
use mathlib.Core.Logic.{◌↔◌, ◌≢◌, inl, inr}
use mathlib.Core.Bool.{Bool, true, false, ◌&&◌}
use mathlib.Core.Option.{Option, none, some}
use mathlib.Core.List.{List, [], ◌∷◌, ◌++◌}
use native.Mathlib.Omega.{arith}
use guest_components.Prelude.Tests.{◌==◌, if◌then◌else◌, Bool-cases}

abbrev pub Bytes : Type 0
Bytes = List ℕ

abbrev pub Str : Type 0
Str = List ℕ

-- The bytes of an ASCII literal.
abbrev pub codes : String → Str
codes String.[] = []
codes (String.◌∷◌ c s) = code c ∷ codes s

unfoldable pub str_eq : Str → Str → Bool
str_eq [] [] = true
str_eq (x ∷ xs) (y ∷ ys) = x == y && str_eq xs ys
str_eq _ _ = false

pub str_eq_iff : (a b : Str) → (str_eq a b ≡ true) ↔ (a ≡ b)
unfolding str_eq
str_eq_iff (x ∷ a) (y ∷ b) = ground (arith, str_eq_iff a b)
str_eq_iff _ _ = ground arith

pub str_eq_refl : (a : Str) → str_eq a a ≡ true
str_eq_refl a = (str_eq_iff a a).1 refl

pub str_eq_of_ne : (a b : Str) → a ≢ b → str_eq a b ≡ false
str_eq_of_ne a b h = elim (Bool-cases (str_eq a b)) [
  | inl same ↦ absurd (h ((str_eq_iff a b).0 same))
  | inr other ↦ other
]

unfoldable pub is_empty {ℓ} : {A : Type ℓ} → List A → Bool
is_empty [] = true
is_empty _ = false

-- `s.contains(c)`
unfoldable pub contains : ℕ → Str → Bool
contains c [] = false
contains c (x ∷ xs) = if x == c then true else contains c xs

-- `s.split_once(c)`: at the first `c`
unfoldable pub split_once : ℕ → Str → Option (Str × Str)
split_once c [] = none
split_once c (x ∷ xs) =
    let rest = split_once c xs in
    if x == c then some ([], xs) else elim rest [ none ↦ none | some (a, b) ↦ some (x ∷ a, b) ]

-- `s.rsplit_once(c)`: at the last `c`
unfoldable pub rsplit_once : ℕ → Str → Option (Str × Str)
rsplit_once c [] = none
rsplit_once c (x ∷ xs) = elim (rsplit_once c xs) [
  | some (a, b) ↦ some (x ∷ a, b)
  | none ↦ if x == c then some ([], xs) else none
]

-- A byte joins the first part of a split.
abbrev pub cons_head : ℕ → List Str → List Str
cons_head x [] = (x ∷ []) ∷ []
cons_head x (p ∷ ps) = (x ∷ p) ∷ ps

-- `s.split(c)`: one part more than there are `c`
unfoldable pub split : ℕ → Str → List Str
split c [] = [] ∷ []
split c (x ∷ xs) = let rest = split c xs in if x == c then [] ∷ rest else cons_head x rest

-- `parts.join(c)`
unfoldable pub join : ℕ → List Str → Str
join c [] = []
join c (p ∷ []) = p
join c (p ∷ q ∷ ps) = p ++ (c ∷ join c (q ∷ ps))

-- `s.strip_prefix(p)`
unfoldable pub strip_prefix : Str → Str → Option Str
strip_prefix [] s = some s
strip_prefix (p ∷ ps) [] = none
strip_prefix (p ∷ ps) (x ∷ xs) = if p == x then strip_prefix ps xs else none

-- `s.starts_with(p)`
abbrev pub starts_with : Str → Str → Bool
starts_with p s = elim (strip_prefix p s) [ none ↦ false | some rest ↦ true ]

-- `s.find(p)`: where `p` first occurs
unfoldable pub find : Str → Str → Option ℕ
find p [] = if is_empty p then some 0 else none
find p (x ∷ s) =
    let later = find p s in
    if starts_with p (x ∷ s) then some 0 else elim later [ none ↦ none | some n ↦ some (suc n) ]

-- The value of a key in a map kept as an association list, in the order of its iteration.
unfoldable pub get {ℓ} : {V : Type ℓ} → Str → List (Str × V) → Option V
get k [] = none
get k ((j, v) ∷ m) = if str_eq j k then some v else get k m

-- `map.insert(k, v)`
unfoldable pub insert {ℓ} : {V : Type ℓ} → Str → V → List (Str × V) → List (Str × V)
insert k v [] = (k, v) ∷ []
insert k v ((j, w) ∷ m) = if str_eq j k then (k, v) ∷ m else (j, w) ∷ insert k v m
