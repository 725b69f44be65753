-- ===== src/Pull/Paths.antt =====
-- The paths that a layer store gives are new.
use guest_components.Prelude.{
  ℕ, zero, suc, ◌+◌, ◌%◌, ◌^◌, ◌-◌, ◌<◌, ◌≤◌, ◌≡◌, ◌≢◌, inl, inr, refl, sym, ap, ◌∙◌, Option, some,
  List, [], ◌∷◌, ◌++◌, Str, ltb, ltb→lt, is_empty, if◌then◌else◌, Bool-cases, All, Any, here, there,
  arith, ok, >>=-eq-ok, ok_inj, ok_or, ok_or-eq-ok,
}
use mathlib.Core.Path.{subst}
use guest_components.Prelude.Decimal.{
  decimal, decimal_inj, decimal-head, value_of, value_of-decimal,
}
use guest_components.Pull.Store.{
  LayerStore, Directory, absent, unreadable, holding, ends_with, path_join, in_range, unsigned,
  parse_usize, next_index, get_layer_index, new, new_layer_store_path,
}

append_inj : (a b c : Str) → a ++ b ≡ a ++ c → b ≡ c
append_inj [] b c h = h
append_inj (x ∷ a) b c h = append_inj a b c cc

path_join_inj : (path a b : Str) → path_join path a ≡ path_join path b → a ≡ b
unfolding path_join
path_join_inj path a b h = elim (Bool-cases (is_empty path)) [
  | inl empty ↦ sym (rw empty refl) ∙ h ∙ rw empty refl
  | inr set ↦ elim (Bool-cases (ends_with b'/' path)) [
    | inl slash ↦ append_inj path a b (sym (rw (set, slash) refl) ∙ h ∙ rw (set, slash) refl)
    | inr bare ↦
        let whole : path ++ (b'/' ∷ a) ≡ path ++ (b'/' ∷ b) =
          sym (rw (set, bare) refl) ∙ h ∙ rw (set, bare) refl in
        let rest = append_inj path (b'/' ∷ a) (b'/' ∷ b) whole in cc
  ]
]

plain_number :
    (text : Str) (n c : ℕ) (s : Str)
    → text ≡ c ∷ s
    → b'0' ≤ c
    → value_of 0 text ≡ some n
    → n < 2 ^ 64
    → parse_usize text ≡ some n
unfolding parse_usize unsigned in_range
plain_number [] n c s whole digit read small = cc
plain_number (x ∷ text) n c s whole digit read small =
    let same : x ≡ c = cc in ground (arith, same, digit, read, small)

parse_usize-decimal : (n : ℕ) → n < 2 ^ 64 → parse_usize (decimal n) ≡ some n
parse_usize-decimal n small =
    let (c, s, whole, digit) = decimal-head n in
    plain_number (decimal n) n c s whole digit (value_of-decimal n) small

-- The name is a number below the bound, if it is a number at all.
abbrev Below : ℕ → Option Str → Type 0
Below m entry = (name : Str) (n : ℕ) → entry ≡ some name → parse_usize name ≡ some n → n < m

-- No entry's name is the largest number.
abbrev pub HasRoom : Option Str → Type 0
HasRoom entry = Below (2 ^ 64 - 1) entry

mod_small : (n : ℕ) → n < 2 ^ 64 → n % 2 ^ 64 ≡ n
mod_small n h = omega (arith, h)

step_grows :
    (next n : ℕ)
    → n < 2 ^ 64 - 1
    → (next ≤ (if ltb n next then next else (n + 1) % 2 ^ 64))
      × (n < (if ltb n next then next else (n + 1) % 2 ^ 64))
step_grows next n room =
    let whole = mod_small (n + 1) (omega (arith, room)) in
    elim (Bool-cases (ltb n next)) [
      | inl less ↦ rw less (omega arith, ltb→lt n next less)
      | inr past ↦ rw (past, whole) (ground (arith, past), omega arith)
    ]

next_index-Below :
    (next last : ℕ) (paths : List (Option Str))
    → All HasRoom paths
    → next_index next paths ≡ ok last
    → (next ≤ last) × All (Below last) paths
unfolding next_index
next_index-Below next last [] room h = (omega (arith, ok_inj next last h), tt)
next_index-Below next last (entry ∷ paths) room h =
    let (name, named, begun) = >>=-eq-ok (ok_or entry _) _ h in
    let (n, read, more) = >>=-eq-ok (ok_or (parse_usize name) _) _ begun in
    let free =
      room.0 name n (ok_or-eq-ok entry _ name named) (ok_or-eq-ok (parse_usize name) _ n read) in
    let step = if ltb n next then next else (n + 1) % 2 ^ 64 in
    let (up, below) = next_index-Below step last paths room.1 more in
    let (grows, past) : (next ≤ step) × (n < step) = step_grows next n free in
    (
      omega (arith, up, grows),
      (
        λ other m same parsed.
            let one : some name ≡ some other = sym (ok_or-eq-ok entry _ name named) ∙ same in
            let name_other : name ≡ other = cc in
            let two : some n ≡ some m =
              sym (ok_or-eq-ok (parse_usize name) _ n read) ∙ ap parse_usize name_other ∙ parsed in
            let n_m : n ≡ m = cc in omega (arith, n_m, past, up),
        below,
      ),
    )

-- The path that a store gives when it has given so many before.
pub path_after : ℕ → LayerStore → Str
path_after zero store = (new_layer_store_path store).1
path_after (suc n) store = path_after n (new_layer_store_path store).0

path_after_lem :
    (k : ℕ) (store : LayerStore)
    → store.layers_index + k < 2 ^ 64
    → path_after k store ≡ path_join store.data_dir (decimal (store.layers_index + k))
unfolding path_after new_layer_store_path
path_after_lem zero store h = ap (λ n. path_join store.data_dir (decimal n)) (omega arith)
path_after_lem (suc k) store h =
    let next : (store.layers_index + 1) % 2 ^ 64 ≡ store.layers_index + 1 =
      mod_small (store.layers_index + 1) (omega (arith, h)) in
    path_after_lem k (new_layer_store_path store).0 (rw next (omega (arith, h)))
    ∙ ap (λ n. path_join store.data_dir (decimal n)) (ap (λ n. n + k) next ∙ omega arith)

All_in : {A : Type 0} (P : A → Type 0) (xs : List A) {x : A} → All P xs → Any (λ y. y ≡ x) xs → P x
All_in P [] h place = elim place [ ]
All_in P (y ∷ xs) h (here same) = subst P same h.0
All_in P (y ∷ xs) h (there place) = All_in P xs h.1 place

index_Below :
    (listing : Directory) (index : ℕ)
    → get_layer_index listing ≡ ok index
    → (paths : List (Option Str)) → listing ≡ holding paths
    → All HasRoom paths
    → All (Below index) paths
unfolding get_layer_index
index_Below absent index h paths same room = cc
index_Below unreadable index h paths same room = cc
index_Below (holding others) index h paths same room =
    let one : others ≡ paths = cc in
    (next_index-Below 0 index paths room (ap (next_index 0) (sym one) ∙ h)).1

-- A store that is made where directory entries do not have the largest number as a name gives, for
-- as long as it does not run out of numbers, paths that are no entry's and differ from each other.
pub new_layer_store_path-new :
    (work_dir : Str) (paths : List (Option Str)) (store : LayerStore)
    → new work_dir (holding paths) ≡ ok store
    → All HasRoom paths
    → (k : ℕ) → store.layers_index + k < 2 ^ 64
    → ((name : Str)
        → Any (λ entry. entry ≡ some name) paths
        → path_after k store ≢ path_join store.data_dir name)
      × ((j : ℕ) → j < k → path_after j store ≢ path_after k store)
unfolding new
new_layer_store_path-new work_dir paths store h room k free =
    let (index, counted, made) = >>=-eq-ok (get_layer_index (holding paths)) _ h in
    let same : index ≡ store.layers_index = ap (λ s. s.layers_index) (ok_inj _ store made) in
    let below = index_Below (holding paths) index counted paths refl room in
    let last = path_after_lem k store free in
    (
      λ name listed clash.
          let named = path_join_inj store.data_dir _ name (sym last ∙ clash) in
          let parsed =
            ap parse_usize (sym named) ∙ parse_usize-decimal (store.layers_index + k) free in
          let less = All_in (Below index) paths below listed name _ refl parsed in
          absurd (omega (arith, same, less)),
      λ j less clash.
          let first = path_after_lem j store (omega (arith, free, less)) in
          let numbers = path_join_inj store.data_dir _ _ (sym first ∙ clash ∙ last) in
          let equal = decimal_inj (store.layers_index + j) (store.layers_index + k) numbers in
          absurd (omega (arith, equal, less)),
    )
