-- ===== src/EventLog/Files.antt =====
-- Writing and rewriting the tail of a file.
use guest_components.Prelude.{
  ℕ, zero, suc, ◌+◌, ◌-◌, ◌<◌, ◌≡◌, refl, sym, ap, ◌∙◌, [], ◌∷◌, ◌++◌, some, none, ltb, Bool-cases,
  inl, inr, ◌⊎◌, ltb→lt, drop-length_append, append-nil, append_assoc, arith, Bytes, length, take,
  drop, length-append, take-length_append,
}
use guest_components.EventLog.Machine.{write_at, zeros, read_exact}

drop-nil : (n : ℕ) → drop {A = ℕ} n [] ≡ []
drop-nil zero = refl
drop-nil (suc n) = refl

drop-add_append : (xs ys : Bytes) (n : ℕ) → drop (length xs + n) (xs ++ ys) ≡ drop n ys
drop-add_append [] ys n = let e : 0 + n ≡ n = omega arith in rw e
drop-add_append (x ∷ xs) ys n =
    let e : suc (length xs) + n ≡ suc (length xs + n) = omega arith in
    rw e (drop-add_append xs ys n)

-- A write at the end of `base` keeps `base`, and what lies behind the written bytes.
pub write_at-append :
    (base x y : Bytes) → write_at (length base) x (base ++ y) ≡ base ++ (x ++ drop (length x) y)
unfolding write_at
write_at-append base x y =
    let none_left : length base - length (base ++ y) ≡ 0 = omega (arith, length-append base y) in
    rw (none_left, zeros, append_assoc base y [], take-length_append base (y ++ []))
      (rw (drop-add_append base y (length x)))

-- At the end of the file a write appends.
pub write_at_end : (base x : Bytes) → write_at (length base) x base ≡ base ++ x
write_at_end base x =
    ap (write_at (length base) x) (sym (append-nil base))
    ∙ write_at-append base x []
    ∙ ap (λ t. base ++ (x ++ t)) (drop-nil (length x))
    ∙ ap (◌++◌ base) (append-nil x)

-- Rewriting the first part of a text over a first part of it leaves a first part.
pub take-overwrite :
    (j i : ℕ) (t : Bytes) → (k : ℕ) × (take j t ++ drop (length (take j t)) (take i t) ≡ take k t)
take-overwrite zero i t = (i, refl)
take-overwrite (suc j) zero [] = (0, refl)
take-overwrite (suc j) (suc i) [] = (0, refl)
take-overwrite (suc j) zero (x ∷ t) = (suc j, append-nil (x ∷ take j t))
take-overwrite (suc j) (suc i) (x ∷ t) = let (k, e) = take-overwrite j i t in (suc k, ap (◌∷◌ x) e)

-- Rewriting the whole text over a first part of it leaves the text.
pub overwrite_whole : (i : ℕ) (t : Bytes) → t ++ drop (length t) (take i t) ≡ t
overwrite_whole zero t = ap (◌++◌ t) (drop-nil (length t)) ∙ append-nil t
overwrite_whole (suc i) [] = refl
overwrite_whole (suc i) (x ∷ t) = ap (◌∷◌ x) (overwrite_whole i t)

pub read_exact-append :
    (n : ℕ) (xs ys : Bytes) → length xs ≡ n → read_exact n (xs ++ ys) ≡ some (xs, ys)
unfolding read_exact
read_exact-append n xs ys h = elim (Bool-cases (ltb (length (xs ++ ys)) n)) [
  | inl short ↦ absurd (omega (arith, ltb→lt _ _ short, length-append xs ys))
  | inr enough ↦ rw enough (rw (← h) (rw (take-length_append xs ys, drop-length_append xs ys)))
]

pub read_exact_short : (n : ℕ) (xs : Bytes) → length xs < n → read_exact n xs ≡ none
unfolding read_exact
read_exact_short n xs h = ground arith

pub read_exact_enough :
    (n : ℕ) (xs : Bytes) → ¬ (length xs < n) → read_exact n xs ≡ some (take n xs, drop n xs)
unfolding read_exact
read_exact_enough n xs h = ground arith

-- A first part of `xs ++ ys` is shorter than `xs`, or goes on into `ys`.
pub prefix-append :
    (written missing xs ys : Bytes)
    → written ++ missing ≡ xs ++ ys
    → (length written < length xs) ⊎ ((zs : Bytes) × (written ≡ xs ++ zs) × (zs ++ missing ≡ ys))
prefix-append written missing [] ys h = inr (written, refl, h)
prefix-append [] missing (x ∷ xs) ys h = inl (omega arith)
prefix-append (w ∷ written) missing (x ∷ xs) ys h =
    elim (prefix-append written missing xs ys (ground arith)) [
      | inl short ↦ inl (omega arith)
      | inr (zs, same, rest) ↦ inr (zs, ground arith, rest)
    ]
