-- ===== src/Prelude/Results.antt =====
-- `Result<T, E>`: errors as values, and the `?` operator as bind.
use mathlib.Core.Path.{◌≡◌, refl}
use mathlib.Core.Bool.{Bool, true, false}
use mathlib.Core.Logic.{◌⊎◌, inl, inr}
use mathlib.Core.Option.{Option, none, some}

pub data Result {ℓ} (E : Type 0) (A : Type ℓ) : Type ℓ where
  ok : A → Result E A
  err : E → Result E A

infixl 5 ◌>>=◌ ◌>>◌
-- `if bad { bail!(e) }`
abbrev pub bail_if : {E : Type 0} → Bool → E → Result E (Unit {0})
bail_if false reason = ok tt
bail_if true reason = err reason

-- `r?` with the rest of the function behind it.
abbrev pub ◌>>=◌ {ℓ κ} :
    {E : Type 0} {A : Type ℓ} {B : Type κ} → Result E A → (A → Result E B) → Result E B
err reason >>= rest = err reason
ok value >>= rest = rest value

-- `r?;`
abbrev pub ◌>>◌ {κ} : {E : Type 0} {B : Type κ} → Result E (Unit {0}) → Result E B → Result E B
first >> rest = first >>= λ done. rest

-- `opt.ok_or(e)`
abbrev pub ok_or {ℓ} : {E : Type 0} {A : Type ℓ} → Option A → E → Result E A
ok_or none e = err e
ok_or (some a) e = ok a

-- `res.map_err(|_| e)`
abbrev pub map_err {ℓ} : {E F : Type 0} {A : Type ℓ} → Result E A → F → Result F A
map_err (ok a) e = ok a
map_err (err _) e = err e

-- A chain succeeds only if its first part does, and the rest on what that gives.
pub >>=-eq-ok {ℓ κ} :
    {E : Type 0} {A : Type ℓ} {B : Type κ} (first : Result E A) (rest : A → Result E B) {out : B}
    → (first >>= rest) ≡ ok out
    → (value : A) × (first ≡ ok value) × (rest value ≡ ok out)
>>=-eq-ok (err reason) rest failed = cc
>>=-eq-ok (ok value) rest done = (value, refl, done)

pub Result-cases {ℓ} :
    {E : Type 0} {A : Type ℓ} (m : Result E A) → ((a : A) × (m ≡ ok a)) ⊎ ((e : E) × (m ≡ err e))
Result-cases (ok a) = inl (a, refl)
Result-cases (err e) = inr (e, refl)

pub ok_inj {ℓ} : {E : Type 0} {A : Type ℓ} (a b : A) → ◌≡◌ {A = Result E A} (ok a) (ok b) → a ≡ b
ok_inj a b h = cc

pub ok_or-eq-ok {ℓ} :
    {E : Type 0} {A : Type ℓ} (o : Option A) (e : E) (a : A) → ok_or o e ≡ ok a → o ≡ some a
ok_or-eq-ok none e a h = cc
ok_or-eq-ok (some b) e a h = cc

pub bail_if-eq-ok :
    {E : Type 0} (bad : Bool) (e : E) {out : Unit {0}} → bail_if bad e ≡ ok out → bad ≡ false
bail_if-eq-ok true e h = cc
bail_if-eq-ok false e h = refl

-- A chain fails where its first part does, or the rest on what that gives.
pub >>=-eq-err {ℓ κ} :
    {E : Type 0} {A : Type ℓ} {B : Type κ} (first : Result E A) (rest : A → Result E B) {reason : E}
    → (first >>= rest) ≡ err reason
    → (first ≡ err reason) ⊎ ((value : A) × (first ≡ ok value) × (rest value ≡ err reason))
>>=-eq-err (err other) rest failed = inl cc
>>=-eq-err (ok value) rest failed = inr (value, refl, failed)
