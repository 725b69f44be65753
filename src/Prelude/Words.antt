-- ===== src/Prelude/Words.antt =====
-- Machine words as byte lists: `to_be_bytes`, `from_be_bytes`, `to_le_bytes`.
use Prim.Native.Nat.{ℕ, zero, suc, ◌+◌, ◌*◌, ◌/◌, ◌%◌, ◌^◌, ◌<◌}
use mathlib.Core.Path.{◌≡◌, refl}
use mathlib.Core.List.{[], ◌∷◌, ◌++◌}
use native.Mathlib.Omega.{arith}
use native.Mathlib.Numerals.{towards_suc}
use guest_components.Prelude.Lists.{length, length-append}
use guest_components.Prelude.Text.{Bytes}

abbrev pub u32_mod : ℕ
u32_mod = 2 ^ 32

abbrev pub u64_mod : ℕ
u64_mod = 2 ^ 64

-- The `k` low bytes, least significant first.
unfoldable pub le_bytes : ℕ → ℕ → Bytes
le_bytes zero n = []
le_bytes (suc k) n = (n % 256) ∷ le_bytes k (n / 256)

-- The `k` low bytes, most significant first.
unfoldable pub be_bytes : ℕ → ℕ → Bytes
be_bytes zero n = []
be_bytes (suc k) n = be_bytes k (n / 256) ++ ((n % 256) ∷ [])

-- The number that bytes stand for, most significant first, behind the digits read so far.
unfoldable pub from_be_bytes : ℕ → Bytes → ℕ
from_be_bytes acc [] = acc
from_be_bytes acc (b ∷ bs) = from_be_bytes (256 * acc + b) bs

pub length-be_bytes : (k n : ℕ) → length (be_bytes k n) ≡ k
unfolding be_bytes
length-be_bytes zero n = refl
length-be_bytes (suc k) n =
    omega
      (arith, length-append (be_bytes k (n / 256)) ((n % 256) ∷ []), length-be_bytes k (n / 256))

from_be_bytes-append :
    (acc : ℕ) (xs : Bytes) (b : ℕ)
    → from_be_bytes acc (xs ++ b ∷ []) ≡ 256 * from_be_bytes acc xs + b
unfolding from_be_bytes
from_be_bytes-append acc [] b = refl
from_be_bytes-append acc (x ∷ xs) b = from_be_bytes-append (256 * acc + x) xs b

pow_256 : (k : ℕ) → 2 ^ (8 * suc k) ≡ 256 * 2 ^ (8 * k)
pow_256 k = let e : 8 * suc k ≡ 8 * k + 8 = omega arith in rw e (simp towards_suc (omega arith))

pub from_be_bytes-be_bytes : (k n : ℕ) → n < 2 ^ (8 * k) → from_be_bytes 0 (be_bytes k n) ≡ n
unfolding be_bytes from_be_bytes
from_be_bytes-be_bytes zero n h = omega arith
from_be_bytes-be_bytes (suc k) n h =
    let ih = from_be_bytes-be_bytes k (n / 256) (omega (arith, pow_256 k)) in
    omega (arith, from_be_bytes-append 0 (be_bytes k (n / 256)) (n % 256), ih)
