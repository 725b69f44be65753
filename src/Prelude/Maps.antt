-- ===== src/Prelude/Maps.antt =====
-- Lookups in association lists.
use mathlib.Core.Path.{◌≡◌, refl}
use mathlib.Core.Option.{some}
use mathlib.Core.List.{List, [], ◌∷◌}
use native.Mathlib.Omega.{arith}
use guest_components.Prelude.Tests.{if◌then◌else◌}
use guest_components.Prelude.Text.{Str, str_eq, str_eq_iff, get, insert}

-- An inserted key is found, and every other key is looked up as before.
pub get-insert {ℓ} :
    {V : Type ℓ} (j k : Str) (v : V) (m : List (Str × V))
    → get j (insert k v m) ≡ (if str_eq k j then some v else get j m)
unfolding get insert
get-insert j k v [] = refl
get-insert j k v ((i, w) ∷ m) =
    ground (arith, get-insert j k v m, str_eq_iff i k, str_eq_iff i j, str_eq_iff k j)
