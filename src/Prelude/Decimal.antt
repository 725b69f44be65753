-- ===== src/Prelude/Decimal.antt =====
-- Decimal numbers as text.
use Prim.Native.Nat.{ℕ, zero, suc, ◌+◌, ◌-◌, ◌*◌, ◌/◌, ◌%◌, ◌<◌, ◌≤◌}
use mathlib.Core.Path.{◌≡◌, refl, sym, ap, ◌∙◌}
use mathlib.Core.Logic.{inl, inr}
use mathlib.Core.Option.{Option, none, some}
use mathlib.Core.List.{[], ◌∷◌}
use native.Mathlib.Omega.{arith}
use guest_components.Prelude.Tests.{ltb, ltb→lt, if◌then◌else◌, Bool-cases}
use guest_components.Prelude.Text.{Str}

-- The digits of a number before others, on fuel that is more than the number.
unfoldable pub digits : ℕ → ℕ → Str → Str
digits zero n behind = behind
digits (suc fuel) n behind =
    let more = digits fuel (n / 10) ((n % 10 + b'0') ∷ behind) in
    if ltb n 10 then (n + b'0') ∷ behind else more

-- `n.to_string()`
unfoldable pub decimal : ℕ → Str
decimal n = digits (suc n) n []

-- The value of digits behind a value, if they are digits.
unfoldable pub value_of : ℕ → Str → Option ℕ
value_of n [] = some n
value_of n (c ∷ s) =
    let rest = value_of (n * 10 + (c - b'0')) s in
    if ltb c b'0' then none else if ltb b'9' c then none else rest

value_of-digit :
    (n d : ℕ) (s : Str) → d < 10 → value_of n ((d + b'0') ∷ s) ≡ value_of (n * 10 + d) s
unfolding value_of
value_of-digit n d s small =
    let same : n * 10 + (d + b'0' - b'0') ≡ n * 10 + d = omega arith in ground (arith, small, same)

value_of-digits :
    (fuel n : ℕ) (behind : Str) → n < fuel → value_of 0 (digits fuel n behind) ≡ value_of n behind
unfolding digits
value_of-digits zero n behind h = absurd (omega (arith, h))
value_of-digits (suc fuel) n behind h = elim (Bool-cases (ltb n 10)) [
  | inl one ↦
      rw one
        (value_of-digit 0 n behind (ltb→lt n 10 one) ∙ ap (λ m. value_of m behind) (omega arith))
  | inr more ↦
      let whole : n / 10 * 10 + n % 10 ≡ n = omega arith in
      let less : n / 10 < fuel = ground (arith, h, more) in
      let last : n % 10 < 10 = omega arith in
      rw more (
        value_of-digits fuel (n / 10) ((n % 10 + b'0') ∷ behind) less
        ∙ value_of-digit (n / 10) (n % 10) behind last
        ∙ ap (λ m. value_of m behind) whole)
]

-- A number is read back from its text.
pub value_of-decimal : (n : ℕ) → value_of 0 (decimal n) ≡ some n
unfolding decimal value_of
value_of-decimal n = value_of-digits (suc n) n [] (omega arith)

pub decimal_inj : (m n : ℕ) → decimal m ≡ decimal n → m ≡ n
decimal_inj m n h =
    let same = sym (value_of-decimal m) ∙ ap (value_of 0) h ∙ value_of-decimal n in cc

digits-head :
    (fuel n : ℕ) (behind : Str)
    → n < fuel
    → (c : ℕ) × (s : Str) × (digits fuel n behind ≡ c ∷ s) × (b'0' ≤ c)
unfolding digits
digits-head zero n behind h = absurd (omega (arith, h))
digits-head (suc fuel) n behind h = elim (Bool-cases (ltb n 10)) [
  | inl one ↦ (n + b'0', behind, rw one refl, omega arith)
  | inr more ↦
      let (c, s, whole, digit) =
        digits-head fuel (n / 10) ((n % 10 + b'0') ∷ behind) (ground (arith, h, more)) in
      (c, s, rw more whole, digit)
]

-- It begins with a digit.
pub decimal-head : (n : ℕ) → (c : ℕ) × (s : Str) × (decimal n ≡ c ∷ s) × (b'0' ≤ c)
unfolding decimal
decimal-head n = digits-head (suc n) n [] (omega arith)
