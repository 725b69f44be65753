-- ===== src/Pull/Layers.antt =====
-- Pulling the layers of an image: `PullClient` of image-rs/src/pull.rs.
use guest_components.Prelude.{
  ℕ, suc, not, Option, none, some, List, [], ◌∷◌, Str, str_eq, get, ltb, if◌then◌else◌, Result, ok,
  err, ◌>>=◌, ◌>>◌, bail_if,
}
use guest_components.Pull.Media.{
  Codecs, OciDescriptor, PullLayerError, pull_blob_stream_failed, unequal_uncompressed_digest, gzip,
  Decryptor, from_media_type, get_decrypt_key, async_get_plaintext_layer,
  async_decompress_unpack_layer,
}
use guest_components.Pull.Store.{LayerStore, new_layer_store_path}
use guest_components.Pull.Metas.{LayerMeta}

-- What became of a layer, with its place in the image.
abbrev pub Outcome : Type 0
Outcome = ℕ × Result PullLayerError LayerMeta

-- `BTreeMap::insert`, by the number
unfoldable pub insert_by : {A : Type 0} → ℕ → A → List (ℕ × A) → List (ℕ × A)
insert_by i a [] = (i, a) ∷ []
insert_by i a ((j, b) ∷ m) =
    let rest = insert_by i a m in
    if ltb i j then (i, a) ∷ (j, b) ∷ m else if ltb j i then (j, b) ∷ rest else (i, a) ∷ m

-- `into_values`
unfoldable pub values : {A : Type 0} → List (ℕ × A) → List A
values [] = []
values ((i, a) ∷ m) = a ∷ values m

-- `try_collect`: the first error that comes, or all that comes
unfoldable pub try_collect : List Outcome → Result PullLayerError (List (ℕ × LayerMeta))
try_collect [] = ok []
try_collect ((i, outcome) ∷ more) = do
  layer_meta ← outcome
  rest ← try_collect more
  ok ((i, layer_meta) ∷ rest)

-- `into_iter().collect()`, into the map by number
unfoldable pub collect_map : {A : Type 0} → List (ℕ × A) → List (ℕ × A) → List (ℕ × A)
collect_map m [] = m
collect_map m ((i, a) ∷ more) = collect_map (insert_by i a m) more

-- `.enumerate()`
unfoldable pub enumerate : {A : Type 0} → ℕ → List A → List (ℕ × A)
enumerate i [] = []
enumerate i (a ∷ more) = (i, a) ∷ enumerate (suc i) more

-- How the handlers of the layers take turns: the order in which they start, where each takes its
-- path, and the order in which they end. One that an error of another cancels counts as started.
pub record Turns : Type 0 where
  pub starts : List (ℕ × (OciDescriptor × Str)) → List (ℕ × (OciDescriptor × Str))
  pub ends : List Outcome → List Outcome

module _ {Reader : Type 0} (crate : Codecs Reader) where
  -- The branch of an encrypted layer.
  unfoldable pub decrypted_digest :
      Decryptor → OciDescriptor → Str → Option Str → Reader → Str → Result PullLayerError Str
  decrypted_digest decryptor layer diff_id decrypt_config layer_reader destination = do
    decrypt_key ← get_decrypt_key crate decryptor layer decrypt_config
    plaintext_layer ← async_get_plaintext_layer crate layer_reader layer decrypt_key
    async_decompress_unpack_layer crate plaintext_layer diff_id decryptor.media_type destination

  -- The digest of the layer's text, decrypted if it has to be, which goes to its directory.
  unfoldable pub plaintext_digest :
      Decryptor → OciDescriptor → Str → Option Str → Reader → Str → Result PullLayerError Str
  plaintext_digest decryptor layer diff_id decrypt_config layer_reader destination =
      if decryptor.encrypted
      then decrypted_digest decryptor layer diff_id decrypt_config layer_reader destination
      else async_decompress_unpack_layer crate layer_reader diff_id layer.media_type destination

  -- `async_handle_layer` of a layer that is not in the store
  unfoldable pub handle_new_layer :
      OciDescriptor → Str → Option Str → Reader → Str → Result PullLayerError LayerMeta
  handle_new_layer layer diff_id decrypt_config layer_reader destination =
      let decryptor = from_media_type crate layer.media_type in
      do
        digest ← plaintext_digest decryptor layer diff_id decrypt_config layer_reader destination
        bail_if (not (str_eq digest diff_id)) (unequal_uncompressed_digest digest diff_id)
        ok record {
          decoder = gzip;
          encrypted = decryptor.encrypted;
          compressed_digest = layer.digest;
          uncompressed_digest = digest;
          store_path = destination;
        }

  module _ (pull_blob_stream : OciDescriptor → Option Reader) (decrypt_config : Option Str)
      (layer_db : List (Str × LayerMeta)) where
    -- Pulling one layer: its stream is asked for, and what the store has is taken from there.
    unfoldable pub handle_layer :
        LayerStore → OciDescriptor → Str → LayerStore × Result PullLayerError LayerMeta
    handle_layer store layer diff_id = elim (pull_blob_stream layer) [
      | none ↦ (store, err pull_blob_stream_failed)
      | some layer_reader ↦ elim (get layer.digest layer_db) [
        | some layer_meta ↦ (store, ok layer_meta)
        | none ↦
            let (counted, destination) = new_layer_store_path store in
            (counted, handle_new_layer layer diff_id decrypt_config layer_reader destination)
      ]
    ]

    -- The handlers, in the order in which they take their paths.
    unfoldable pub handle_layers :
        LayerStore → List (ℕ × (OciDescriptor × Str)) → LayerStore × List Outcome
    handle_layers store [] = (store, [])
    handle_layers store ((i, (layer, diff_id)) ∷ more) =
        let (counted, outcome) = handle_layer store layer diff_id in
        let (last, rest) = handle_layers counted more in (last, (i, outcome) ∷ rest)

    unfoldable pub async_pull_layers :
        Turns
        → LayerStore
        → List (OciDescriptor × Str)
        → LayerStore × Result PullLayerError (List LayerMeta)
    async_pull_layers turns store layers =
        let (last, outcomes) = handle_layers store (turns.starts (enumerate 0 layers)) in
        (
          last,
          do
            layer_metas ← try_collect (turns.ends outcomes)
            ok (values (collect_map [] layer_metas)),
        )
