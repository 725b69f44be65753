-- ===== src/Pull/Store.antt =====
-- Where layers are kept: image-rs/src/layer_store.rs. Numbers of layers are a `usize` of 64 bits.
use guest_components.Prelude.{
  ℕ, ◌+◌, ◌%◌, ◌^◌, Bool, false, Option, none, some, List, [], ◌∷◌, ◌++◌, Str, codes, ltb, ◌==◌,
  is_empty, if◌then◌else◌, Result, ok, err, ◌>>=◌, ok_or,
}
use guest_components.Prelude.Decimal.{decimal, value_of}

pub record LayerStore : Type 0 where
  pub data_dir : Str
  pub layers_index : ℕ

pub data StoreError : Type 0 where
  cannot_read : StoreError
  not_utf8 : StoreError
  not_index : StoreError

-- What a directory holds: it may not exist, it may not be readable, and so may each entry.
pub data Directory : Type 0 where
  absent : Directory
  unreadable : Directory
  holding : List (Option Str) → Directory

abbrev pub ends_with : ℕ → Str → Bool
ends_with c [] = false
ends_with c (x ∷ []) = x == c
ends_with c (x ∷ y ∷ s) = ends_with c (y ∷ s)

-- `path.join(name)` of a relative name
unfoldable pub path_join : Str → Str → Str
path_join path name =
    if is_empty path
    then name
    else if ends_with b'/' path
    then path ++ name
    else path ++ (b'/' ∷ name)

abbrev pub in_range : Option ℕ → Option ℕ
in_range none = none
in_range (some n) = if ltb n (2 ^ 64) then some n else none

abbrev pub unsigned : Str → Option ℕ
unsigned [] = none
unsigned s = in_range (value_of 0 s)

-- `s.parse::<usize>()`
unfoldable pub parse_usize : Str → Option ℕ
parse_usize [] = none
parse_usize (c ∷ s) = if c == b'+' then unsigned s else unsigned (c ∷ s)

-- The loop over the directory.
unfoldable pub next_index : ℕ → List (Option Str) → Result StoreError ℕ
next_index next [] = ok next
next_index next (entry ∷ paths) = do
  name ← ok_or entry not_utf8
  n ← ok_or (parse_usize name) not_index
  next_index (if ltb n next then next else (n + 1) % 2 ^ 64) paths

unfoldable pub get_layer_index : Directory → Result StoreError ℕ
get_layer_index absent = ok 0
get_layer_index unreadable = err cannot_read
get_layer_index (holding paths) = next_index 0 paths

unfoldable pub new : Str → Directory → Result StoreError LayerStore
new work_dir listing = do
  index ← get_layer_index listing
  ok record { data_dir = path_join work_dir (codes "layers"); layers_index = index }

-- The path of the next layer, with the store that has counted it.
unfoldable pub new_layer_store_path : LayerStore → LayerStore × Str
new_layer_store_path self = (
  record self { layers_index = (self.layers_index + 1) % 2 ^ 64 },
  path_join self.data_dir (decimal self.layers_index),
)
