-- ===== src/Prelude/Perms.antt =====
-- Lists related member by member, and reordered.
use Prim.Native.Nat.{suc}
use mathlib.Core.Path.{◌≡◌, refl, ap, subst}
use mathlib.Core.List.{List, [], ◌∷◌, Permᴰ}
use guest_components.Prelude.Lists.{All, length}

module _ {A B : Type 0} (Q : A → B → Type 0) where
  -- The members at each place are related.
  abbrev pub All2 : List A → List B → Type 0
  All2 [] [] = Unit
  All2 [] (y ∷ ys) = ⊥
  All2 (x ∷ xs) [] = ⊥
  All2 (x ∷ xs) (y ∷ ys) = Q x y × All2 xs ys

  -- A list that is related to another is still related when both are reordered.
  pub All2-perm :
      (xs ys : List A)
      → Permᴰ xs ys
      → (zs : List B) → All2 xs zs
      → (ws : List B) × All2 ys ws × Permᴰ zs ws
  All2-perm _ _ Permᴰ.nil [] h = ([], tt, Permᴰ.nil)
  All2-perm _ _ (Permᴰ.cons {a = a} {b = b} e d) (z ∷ zs) h =
      let (ws, related, moved) = All2-perm _ _ d zs h.1 in
      (z ∷ ws, (subst (λ x. Q x z) e h.0, related), Permᴰ.cons refl moved)
  All2-perm _ _ (Permᴰ.swap e f) (z ∷ w ∷ zs) h = (
    w ∷ z ∷ zs,
    (subst (λ x. Q x w) f h.1.0, (subst (λ x. Q x z) e h.0, h.1.1)),
    Permᴰ.swap refl refl,
  )
  All2-perm _ _ (Permᴰ.trans d e) zs h =
      let (ws, one, first) = All2-perm _ _ d zs h in
      let (vs, two, second) = All2-perm _ _ e ws one in (vs, two, Permᴰ.trans first second)
  All2-perm _ _ Permᴰ.nil (z ∷ zs) h = absurd h
  All2-perm _ _ (Permᴰ.cons e d) [] h = absurd h
  All2-perm _ _ (Permᴰ.swap e f) [] h = absurd h
  All2-perm _ _ (Permᴰ.swap e f) (z ∷ []) h = absurd h.1

  pub All2-length : (xs : List A) (ys : List B) → All2 xs ys → length xs ≡ length ys
  All2-length [] [] h = refl
  All2-length (x ∷ xs) (y ∷ ys) h = ap suc (All2-length xs ys h.1)
  All2-length [] (y ∷ ys) h = absurd h
  All2-length (x ∷ xs) [] h = absurd h

pub All2-map :
    {A B : Type 0} (Q T : A → B → Type 0) (f : (x : A) (y : B) → Q x y → T x y) (xs : List A)
    (ys : List B)
    → All2 Q xs ys
    → All2 T xs ys
All2-map Q T f [] [] h = tt
All2-map Q T f (x ∷ xs) (y ∷ ys) h = (f x y h.0, All2-map Q T f xs ys h.1)
All2-map Q T f [] (y ∷ ys) h = absurd h
All2-map Q T f (x ∷ xs) [] h = absurd h

pub All2-trans :
    {A B C : Type 0} (Q : A → B → Type 0) (T : B → C → Type 0) (xs : List A) (ys : List B)
    (zs : List C)
    → All2 Q xs ys
    → All2 T ys zs
    → All2 (λ x z. (y : B) × Q x y × T y z) xs zs
All2-trans Q T [] [] [] h k = tt
All2-trans Q T (x ∷ xs) (y ∷ ys) (z ∷ zs) h k = ((y, h.0, k.0), All2-trans Q T xs ys zs h.1 k.1)
All2-trans Q T [] [] (z ∷ zs) h k = absurd k
All2-trans Q T [] (y ∷ ys) zs h k = absurd h
All2-trans Q T (x ∷ xs) [] zs h k = absurd h
All2-trans Q T (x ∷ xs) (y ∷ ys) [] h k = absurd k

pub All-perm : {A : Type 0} (P : A → Type 0) (xs ys : List A) → Permᴰ xs ys → All P xs → All P ys
All-perm P _ _ Permᴰ.nil h = tt
All-perm P _ _ (Permᴰ.cons e d) h = (subst P e h.0, All-perm P _ _ d h.1)
All-perm P _ _ (Permᴰ.swap e f) h = (subst P f h.1.0, (subst P e h.0, h.1.1))
All-perm P _ _ (Permᴰ.trans d e) h = All-perm P _ _ e (All-perm P _ _ d h)
