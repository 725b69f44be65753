-- ===== src/Pull/Ordered.antt =====
-- The layers come out in the order of the image, in whatever order they were handled.
use mathlib.Core.Path.{subst}
use mathlib.Core.List.{Permᴰ}
use mathlib.Core.List.Permᴰ
use guest_components.Prelude.{
  ℕ, suc, ◌<◌, ◌≡◌, ◌≢◌, inl, inr, refl, sym, ap, ◌∙◌, Option, none, some, List, [], ◌∷◌, ◌++◌, Str,
  get, Option-cases, All, ok, >>=-eq-ok, ok_inj, arith, append_assoc, append-nil,
}
use guest_components.Prelude.Perms.{All2, All2-map, All2-perm, All2-trans, All-perm}
use guest_components.Pull.Media.{Codecs, OciDescriptor}
use guest_components.Pull.Store.{LayerStore, new_layer_store_path}
use guest_components.Pull.Metas.{LayerMeta}
use guest_components.Pull.Layers.{
  Outcome, insert_by, values, try_collect, collect_map, enumerate, Turns, handle_new_layer,
  handle_layer, handle_layers, async_pull_layers,
}

module _ {A : Type 0} where
  -- Different numbers.
  Apart : List (ℕ × A) → Type 0
  Apart [] = Unit
  Apart (x ∷ xs) = All (λ y. y.0 ≢ x.0) xs × Apart xs

  Apart-perm : (xs ys : List (ℕ × A)) → Permᴰ xs ys → Apart xs → Apart ys
  unfolding Apart
  Apart-perm _ _ Permᴰ.nil h = tt
  Apart-perm _ _ (Permᴰ.cons {b = b} {l₂ = l} e d) h =
      (subst (λ x. All (λ y. y.0 ≢ x.0) l) e (All-perm _ _ _ d h.0), Apart-perm _ _ d h.1)
  Apart-perm _ _ (Permᴰ.swap {a' = a'} {b' = b'} {l = l} e f) h =
      let (other, one) = h.0 in
      (
        (
          λ same. other (ap (λ x. x.0) f ∙ sym same ∙ ap (λ x. x.0) (sym e)),
          subst (λ x. All (λ y. y.0 ≢ x.0) l) f h.1.0,
        ),
        (subst (λ x. All (λ y. y.0 ≢ x.0) l) e one, h.1.1),
      )
  Apart-perm _ _ (Permᴰ.trans d e) h = Apart-perm _ _ e (Apart-perm _ _ d h)

  -- Values at different numbers can be put in either order.
  insert_by_comm :
      (i j : ℕ) (a b : A) (m : List (ℕ × A))
      → i ≢ j
      → insert_by i a (insert_by j b m) ≡ insert_by j b (insert_by i a m)
  unfolding insert_by
  insert_by_comm i j a b [] apart = ground (arith, apart)
  insert_by_comm i j a b ((k, c) ∷ m) apart = ground (arith, apart, insert_by_comm i j a b m apart)

  collect_map_perm :
      (xs ys : List (ℕ × A))
      → Permᴰ xs ys
      → Apart xs
      → (m : List (ℕ × A)) → collect_map m xs ≡ collect_map m ys
  unfolding collect_map Apart
  collect_map_perm _ _ Permᴰ.nil h m = refl
  collect_map_perm _ _ (Permᴰ.cons {a = a} {b = b} {l₂ = l} e d) h m =
      collect_map_perm _ _ d h.1 (insert_by a.0 a.1 m)
      ∙ ap (λ x. collect_map (insert_by x.0 x.1 m) l) e
  collect_map_perm _ _ (Permᴰ.swap {a = a} {b = b} {b' = b'} {l = l} e f) h m =
      ap (λ r. collect_map r l) (sym (insert_by_comm a.0 b.0 a.1 b.1 m (λ same. h.0.0 (sym same))))
      ∙ ap (λ x. collect_map (insert_by x.0 x.1 (insert_by b.0 b.1 m)) l) e
      ∙ ap (λ y. collect_map (insert_by b'.0 b'.1 (insert_by y.0 y.1 m)) l) f
  collect_map_perm xs zs (Permᴰ.trans {l₂ = ys} d e) h m =
      collect_map_perm xs ys d h m ∙ collect_map_perm ys zs e (Apart-perm xs ys d h) m

  insert_by_last :
      (i : ℕ) (a : A) (m : List (ℕ × A))
      → All (λ y. y.0 < i) m
      → insert_by i a m ≡ m ++ ((i, a) ∷ [])
  unfolding insert_by
  insert_by_last i a [] h = refl
  insert_by_last i a ((j, b) ∷ m) h =
      let less = h.0 in ground (arith, less, insert_by_last i a m h.1)

  All-snoc :
      (k : ℕ) (m : List (ℕ × A)) (a : A)
      → All (λ y. y.0 < k) m
      → All (λ y. y.0 < suc k) (m ++ ((k, a) ∷ []))
  All-snoc k [] a h = (omega arith, tt)
  All-snoc k (x ∷ m) a h = (omega (arith, h.0), All-snoc k m a h.1)

  collect_map-enumerate :
      (k : ℕ) (xs : List A) (m : List (ℕ × A))
      → All (λ y. y.0 < k) m
      → collect_map m (enumerate k xs) ≡ m ++ enumerate k xs
  unfolding collect_map enumerate
  collect_map-enumerate k [] m h = sym (append-nil m)
  collect_map-enumerate k (a ∷ xs) m h =
      ap (λ r. collect_map r (enumerate (suc k) xs)) (insert_by_last k a m h)
      ∙ collect_map-enumerate (suc k) xs (m ++ ((k, a) ∷ [])) (All-snoc k m a h)
      ∙ append_assoc m ((k, a) ∷ []) (enumerate (suc k) xs)

  values-enumerate : (k : ℕ) (xs : List A) → values (enumerate k xs) ≡ xs
  unfolding values enumerate
  values-enumerate k [] = refl
  values-enumerate k (a ∷ xs) = ap (◌∷◌ a) (values-enumerate (suc k) xs)

  enumerate-above : (j k : ℕ) (xs : List A) → j < k → All (λ y. y.0 ≢ j) (enumerate k xs)
  unfolding enumerate
  enumerate-above j k [] h = tt
  enumerate-above j k (a ∷ xs) h =
      (λ same. omega (arith, same, h), enumerate-above j (suc k) xs (omega (arith, h)))

  enumerate-Apart : (k : ℕ) (xs : List A) → Apart (enumerate k xs)
  unfolding enumerate Apart
  enumerate-Apart k [] = tt
  enumerate-Apart k (a ∷ xs) =
      (enumerate-above k (suc k) xs (omega arith), enumerate-Apart (suc k) xs)

module _ {A B : Type 0} (R : A → B → Type 0) where
  -- What is related to a numbered list, number by number, is numbered itself.
  numbered :
      (k : ℕ) (xs : List A) (ys : List (ℕ × B))
      → All2 (λ x y. (x.0 ≡ y.0) × R x.1 y.1) (enumerate k xs) ys
      → (zs : List B) × (ys ≡ enumerate k zs) × All2 R xs zs
  unfolding enumerate
  numbered k [] [] h = ([], refl, tt)
  numbered k [] (y ∷ ys) h = absurd h
  numbered k (x ∷ xs) [] h = absurd h
  numbered k (x ∷ xs) ((j, b) ∷ ys) h =
      let (zs, same, related) = numbered (suc k) xs ys h.1 in
      (b ∷ zs, ap (λ i. (i, b) ∷ ys) (sym h.0.0) ∙ ap (◌∷◌ (k, b)) same, (h.0.1, related))

-- The layers that turns take come in some order, and so do their outcomes.
pub record IsTurns (turns : Turns) : Type 0 where
  pub started : (xs : List (ℕ × (OciDescriptor × Str))) → Permᴰ xs (turns.starts xs)
  pub ended : (xs : List Outcome) → Permᴰ (turns.ends xs) xs

CameOut : Outcome → ℕ × LayerMeta → Type 0
CameOut o m = (o.0 ≡ m.0) × (o.1 ≡ ok m.1)

try_collect-CameOut :
    (outcomes : List Outcome) (metas : List (ℕ × LayerMeta))
    → try_collect outcomes ≡ ok metas
    → All2 CameOut outcomes metas
unfolding try_collect CameOut
try_collect-CameOut [] metas h = subst (All2 CameOut []) (ok_inj _ metas h) tt
try_collect-CameOut ((i, outcome) ∷ more) metas h =
    let (meta, came, begun) = >>=-eq-ok outcome _ h in
    let (rest, others, last) = >>=-eq-ok (try_collect more) _ begun in
    subst (All2 CameOut ((i, outcome) ∷ more)) (ok_inj _ metas last)
      ((refl, came), try_collect-CameOut more rest others)

module _ {Reader : Type 0} (crate : Codecs Reader)
    (pull_blob_stream : OciDescriptor → Option Reader) (decrypt_config : Option Str)
    (layer_db : List (Str × LayerMeta)) where
  -- What a layer's metadata says: what the store had, or what came of handling the layer.
  pub data IsHandled (p : OciDescriptor × Str) (meta : LayerMeta) : Type 0 where
    stored : get p.0.digest layer_db ≡ some meta → IsHandled p meta
    made :
        (layer_reader : Reader) (destination : Str)
        → get p.0.digest layer_db ≡ none
        → pull_blob_stream p.0 ≡ some layer_reader
        → handle_new_layer crate p.0 p.1 decrypt_config layer_reader destination ≡ ok meta
        → IsHandled p meta

  handle_layer-IsHandled :
      (store : LayerStore) (p : OciDescriptor × Str) (meta : LayerMeta)
      → (handle_layer crate pull_blob_stream decrypt_config layer_db store p.0 p.1).1 ≡ ok meta
      → IsHandled p meta
  unfolding handle_layer
  handle_layer-IsHandled store p meta h = elim (Option-cases (pull_blob_stream p.0)) [
    | inl broken ↦ absurd (ground (arith, broken, h))
    | inr (layer_reader, opened) ↦ elim (Option-cases (get p.0.digest layer_db)) [
      | inl missing ↦
          made layer_reader (new_layer_store_path store).1 missing opened
            (ground (arith, opened, missing, h))
      | inr (layer_meta, found) ↦ stored (ground (arith, opened, found, h))
    ]
  ]

  Handled : ℕ × (OciDescriptor × Str) → Outcome → Type 0
  Handled x o = (x.0 ≡ o.0) × ((meta : LayerMeta) → o.1 ≡ ok meta → IsHandled x.1 meta)

  handle_layers-Handled :
      (store : LayerStore) (xs : List (ℕ × (OciDescriptor × Str)))
      → All2 Handled xs (handle_layers crate pull_blob_stream decrypt_config layer_db store xs).1
  unfolding handle_layers Handled
  handle_layers-Handled store [] = tt
  handle_layers-Handled store ((i, p) ∷ xs) = (
    (refl, λ meta h. handle_layer-IsHandled store p meta h),
    handle_layers-Handled
        (handle_layer crate pull_blob_stream decrypt_config layer_db store p.0 p.1).0 xs,
  )

  one_layer :
      (x : ℕ × (OciDescriptor × Str)) (m : ℕ × LayerMeta)
      → ((o : Outcome) × Handled x o × CameOut o m)
      → (x.0 ≡ m.0) × IsHandled x.1 m.1
  unfolding Handled CameOut
  one_layer x m (o, (place, handled), (number, came)) = (place ∙ number, handled m.1 came)

  -- In whatever order the layers are handled and done: when they are pulled, there is one result
  -- for each of them, in their order, and it is what the store had of that layer or what handling
  -- the layer gave.
  pub async_pull_layers-IsHandled :
      (turns : Turns) (store : LayerStore) (layers : List (OciDescriptor × Str))
      (metas : List LayerMeta)
      → IsTurns turns
      → (async_pull_layers crate pull_blob_stream decrypt_config layer_db turns store layers).1
        ≡ ok metas
      → All2 IsHandled layers metas
  unfolding async_pull_layers
  async_pull_layers-IsHandled turns store layers metas fair h =
      let xs = turns.starts (enumerate 0 layers) in
      let outcomes = (handle_layers crate pull_blob_stream decrypt_config layer_db store xs).1 in
      let (came, collected, last) = >>=-eq-ok (try_collect (turns.ends outcomes)) _ h in
      let (ms, out, moved) =
        All2-perm CameOut (turns.ends outcomes) outcomes (fair.ended outcomes) came
          (try_collect-CameOut (turns.ends outcomes) came collected) in
      let both = All2-trans Handled CameOut xs outcomes ms (handle_layers-Handled store xs) out in
      let (ns, related, sorted) =
        All2-perm (λ x m. (o : Outcome) × Handled x o × CameOut o m) xs (enumerate 0 layers)
          (Permᴰ.symm (fair.started (enumerate 0 layers))) ms both in
      let (zs, numbers, each) = numbered IsHandled 0 layers ns (
        All2-map (λ x m. (o : Outcome) × Handled x o × CameOut o m)
          (λ x m. (x.0 ≡ m.0) × IsHandled x.1 m.1) one_layer (enumerate 0 layers) ns related) in
      let same_order : Permᴰ (enumerate 0 zs) came =
        Permᴰ.symm (subst (Permᴰ came) numbers (Permᴰ.trans moved sorted)) in
      let in_order : zs ≡ metas =
        sym (values-enumerate 0 zs)
        ∙ ap values (
            sym (collect_map-enumerate 0 zs [] tt)
            ∙ collect_map_perm (enumerate 0 zs) came same_order (enumerate-Apart 0 zs) [])
        ∙ ok_inj _ metas last in
      subst (All2 IsHandled layers) in_order each
