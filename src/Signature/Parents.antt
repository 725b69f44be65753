-- ===== src/Signature/Parents.antt =====
-- The first loop of the lookup pushes the parents of a name.
use guest_components.Prelude.{
  ℕ, zero, suc, ◌<◌, ◌≡◌, refl, sym, ap, ◌∙◌, ◌⊎◌, inl, inr, true, false, none, some, List, [], ◌∷◌,
  ◌++◌, arith, Str, codes, contains, rsplit_once, length, length-append, Any, here, there,
  Option-cases,
}
use guest_components.Prelude.Split.{rsplit_once-eq-some, rsplit_once-eq-none}
use mathlib.Core.Path.{subst}
use guest_components.Signature.Namespaces.{parents}

-- `s` is one of the names.
abbrev pub Listed : Str → List Str → Type 0
Listed s names = Any (λ m. m ≡ s) names

-- The name itself, or what stands in front of one of its slashes.
abbrev pub IsParent : Str → Str → Type 0
IsParent name s = (s ≡ name) ⊎ ((rest : Str) × (name ≡ s ++ (b'/' ∷ rest)))

-- `*.` and what stands behind one of the host's dots.
abbrev pub IsWildcard : Str → Str → Type 0
IsWildcard host s =
    (front : Str) × (domain : Str) × (host ≡ front ++ (b'.' ∷ domain)) × (s ≡ codes "*." ++ domain)

pub append_cons_assoc :
    (a b r : Str) (c d : ℕ) → (a ++ (c ∷ b)) ++ (d ∷ r) ≡ a ++ (c ∷ (b ++ (d ∷ r)))
append_cons_assoc [] b r c d = refl
append_cons_assoc (x ∷ a) b r c d = ap (◌∷◌ x) (append_cons_assoc a b r c d)

pub head : {x y : ℕ} {xs ys : Str} → x ∷ xs ≡ y ∷ ys → x ≡ y
head h = cc

pub tail : {x y : ℕ} {xs ys : Str} → x ∷ xs ≡ y ∷ ys → xs ≡ ys
tail h = cc

false_true : {P : Type 0} → false ≡ true → P
false_true h = cc

contains-middle : (c : ℕ) (a b : Str) → contains c (a ++ (c ∷ b)) ≡ true
unfolding contains
contains-middle c [] b = ground arith
contains-middle c (x ∷ a) b = ground (arith, contains-middle c a b)

-- Of two ways to part a text at a `c`, the one with no `c` behind it is at the last one.
last_c :
    (c : ℕ) (a b p r : Str)
    → a ++ (c ∷ b) ≡ p ++ (c ∷ r)
    → contains c b ≡ false
    → (p ≡ a) ⊎ ((s : Str) × (a ≡ p ++ (c ∷ s)))
unfolding contains
last_c c [] b [] r h last = inl refl
last_c c [] b (y ∷ p) r h last =
    false_true (sym last ∙ ap (contains c) (tail h) ∙ contains-middle c p r)
last_c c (x ∷ a) b [] r h last = inr (a, ap (λ d. d ∷ a) (head h))
last_c c (x ∷ a) b (y ∷ p) r h last = elim (last_c c a b p r (tail h) last) [
  | inl same ↦ inl (ap (λ d. d ∷ p) (sym (head h)) ∙ ap (◌∷◌ x) same)
  | inr (s, e) ↦ inr (s, ap (λ d. d ∷ a) (head h) ∙ ap (◌∷◌ y) e)
]

parents_last :
    (fuel : ℕ) (name : Str)
    → rsplit_once b'/' name ≡ none
    → parents (suc fuel) name ≡ (name ∷ [], name)
unfolding parents
parents_last fuel name h = rw (h, parents) refl

parents_next :
    (fuel : ℕ) (name parent rest : Str)
    → rsplit_once b'/' name ≡ some (parent, rest)
    → parents (suc fuel) name ≡ (name ∷ (parents fuel parent).0, (parents fuel parent).1)
unfolding parents
parents_next fuel name parent rest h = rw (h, parents) refl

pub Listed-cons : {s m : Str} {ms : List Str} → Listed s (m ∷ ms) → (m ≡ s) ⊎ Listed s ms
Listed-cons (here e) = inl e
Listed-cons (there h) = inr h

-- A parent's parent is a parent.
IsParent-up :
    (name parent rest s : Str)
    → name ≡ parent ++ (b'/' ∷ rest)
    → IsParent parent s
    → IsParent name s
IsParent-up name parent rest s e (inl same) =
    inr (rest, e ∙ ap (λ t. t ++ (b'/' ∷ rest)) (sym same))
IsParent-up name parent rest s e (inr (r, f)) =
    inr (
      r ++ (b'/' ∷ rest),
      e ∙ ap (λ t. t ++ (b'/' ∷ rest)) f ∙ append_cons_assoc s r rest b'/' b'/',
    )

pub parents-IsParent : (fuel : ℕ) (name s : Str) → Listed s (parents fuel name).0 → IsParent name s
unfolding parents
parents-IsParent zero name s h = elim h [ ]
parents-IsParent (suc fuel) name s h = elim (Option-cases (rsplit_once b'/' name)) [
  | inl last ↦
      let h : Listed s (name ∷ []) = subst (λ ps. Listed s ps.0) (parents_last fuel name last) h in
      elim (Listed-cons h) [ inl e ↦ inl (sym e) | inr more ↦ elim more [ ] ]
  | inr ((parent, rest), split) ↦
      let h : Listed s (name ∷ (parents fuel parent).0) =
        subst (λ ps. Listed s ps.0) (parents_next fuel name parent rest split) h in
      elim (Listed-cons h) [
        | inl e ↦ inl (sym e)
        | inr more ↦
            IsParent-up name parent rest s (rsplit_once-eq-some b'/' name parent rest split).0
              (parents-IsParent fuel parent s more)
      ]
]

-- One step more than there are bytes is enough to push every parent.
pub IsParent-parents :
    (fuel : ℕ) (name s : Str)
    → length name < fuel
    → IsParent name s
    → Listed s (parents fuel name).0
IsParent-parents zero name s enough p = elim enough [ ]
IsParent-parents (suc fuel) name s enough p = elim (Option-cases (rsplit_once b'/' name)) [
  | inl last ↦ rw (parents_last fuel name last) (elim p [
    | inl same ↦ here (sym same)
    | inr (r, f) ↦
        false_true (
          sym (rsplit_once-eq-none b'/' name last)
          ∙ ap (contains b'/') f
          ∙ contains-middle b'/' s r)
  ])
  | inr ((parent, rest), split) ↦ rw (parents_next fuel name parent rest split) (elim p [
    | inl same ↦ here (sym same)
    | inr (r, f) ↦
        let (e, behind) = rsplit_once-eq-some b'/' name parent rest split in
        let shorter : length parent < fuel =
          omega (arith, length-append parent (b'/' ∷ rest), ap length e, enough) in
        there
          (IsParent-parents fuel parent s shorter (last_c b'/' parent rest s r (sym e ∙ f) behind))
  ])
]

-- What is left has no slash: the host.
pub parents-host :
    (fuel : ℕ) (name : Str) → length name < fuel → contains b'/' (parents fuel name).1 ≡ false
parents-host zero name enough = elim enough [ ]
parents-host (suc fuel) name enough = elim (Option-cases (rsplit_once b'/' name)) [
  | inl last ↦ rw (parents_last fuel name last) (rsplit_once-eq-none b'/' name last)
  | inr ((parent, rest), split) ↦
      let (e, behind) = rsplit_once-eq-some b'/' name parent rest split in
      let shorter : length parent < fuel =
        omega (arith, length-append parent (b'/' ∷ rest), ap length e, enough) in
      rw (parents_next fuel name parent rest split) (parents-host fuel parent shorter)
]

-- And it begins the name.
pub parents-front :
    (fuel : ℕ) (name : Str) → length name < fuel → IsParent name (parents fuel name).1
parents-front zero name enough = elim enough [ ]
parents-front (suc fuel) name enough = elim (Option-cases (rsplit_once b'/' name)) [
  | inl last ↦ rw (parents_last fuel name last) (inl refl)
  | inr ((parent, rest), split) ↦
      let (e, behind) = rsplit_once-eq-some b'/' name parent rest split in
      let shorter : length parent < fuel =
        omega (arith, length-append parent (b'/' ∷ rest), ap length e, enough) in
      rw (parents_next fuel name parent rest split)
        (IsParent-up name parent rest _ e (parents-front fuel parent shorter))
]
