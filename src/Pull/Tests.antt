-- ===== src/Pull/Tests.antt =====
-- A client at work: one image of two layers, allowed by its policy.
use mathlib.Core.List.{Permᴰ}
use mathlib.Core.List.Permᴰ
use guest_components.Prelude.{
  ℕ, ◌^◌, ◌<◌, ◌≡◌, ◌≢◌, ◌⊎◌, refl, sym, ap, ◌∙◌, ◌-◌, true, false, Option, none, some, List, [],
  ◌∷◌, ◌++◌, Str, Bytes, codes, All, Any, arith, ok, err, str_eq, get, insert, split, is_empty,
  strip_prefix,
}
use guest_components.Prelude.Decimal.{decimal, digits, value_of}
use guest_components.Prelude.Perms.{All2}
use guest_components.Registries.Config.{References, ImagePullTask}
use guest_components.Signature.Reference.{Oci}
use guest_components.Signature.Policy.{accept, bad_signature, requirements_for_image, first_scope}
use guest_components.Signature.Digest.{try_from, of_parts, from_str}
use guest_components.Signature.Validator.{
  World, SignatureValidator, check_image_signature, image_of, check_requirements,
  check_image_requirement,
}
use guest_components.Pull.Media.{
  Codecs, gzip, image_layer, OciDescriptor, compression_try_from, from_media_type, hasher_of,
  async_processing, stream_processing, async_decompress_unpack_layer,
}
use guest_components.Pull.Store.{
  LayerStore, holding, path_join, parse_usize, next_index, get_layer_index, new,
  new_layer_store_path,
}
use guest_components.Pull.Paths.{HasRoom, path_after, new_layer_store_path-new}
use guest_components.Pull.Layers.{
  Turns, insert_by, values, try_collect, collect_map, enumerate, plaintext_digest, handle_new_layer,
  handle_layer, handle_layers, async_pull_layers,
}
use guest_components.Pull.Metas.{
  LayerMeta, ImageMeta, OciImageManifest, Configurations, illegal_image_reference,
  illegal_registry_configuration_format, all_tasks_tried, has_digest, unique_layers_of, by_digest,
  extend, create_image_meta,
}
use guest_components.Pull.Client.{
  Net, ImageClient, rev, client_config_of, auth_of, create_bundle, info_of, check_signature,
  keep_image, finish, pull_new_image, find_manifest, pull_task, pull_tasks, tasks_of, pull_image,
}
use guest_components.Pull.Unique.{Distinct, Paired, create_image_meta_lem}
use guest_components.Pull.Ordered.{IsTurns, IsHandled, async_pull_layers-IsHandled}
use guest_components.Pull.Verified.{IsPlain, handle_new_layer-IsPlain}
use guest_components.Pull.Validated.{IsPulled}
use guest_components.Pull.Failures.{urls, EachFails, IsRefused, pull_image-eq-err}

listing : List (Option Str)
listing = some (codes "0") ∷ some (codes "6") ∷ []

abbrev store : LayerStore
store = record { data_dir = codes "/run/image-rs/layers"; layers_index = 7 }

listed : new (codes "/run/image-rs") (holding listing) ≡ ok store
unfolding listing new path_join get_layer_index next_index parse_usize value_of is_empty
listed = refl

named-HasRoom :
    (name : Str) (m : ℕ) → parse_usize name ≡ some m → m < 2 ^ 64 - 1 → HasRoom (some name)
named-HasRoom name m read less other n same parsed =
    let one : name ≡ other = cc in
    let two : some m ≡ some n = sym read ∙ ap parse_usize one ∙ parsed in
    let equal : m ≡ n = cc in omega (arith, less, equal)

listing-HasRoom : All HasRoom listing
unfolding listing parse_usize value_of
listing-HasRoom = (
  named-HasRoom (codes "0") 0 refl (omega arith),
  (named-HasRoom (codes "6") 6 refl (omega arith), tt),
)

new_layer_store_path-new_example :
    ((name : Str)
      → Any (λ entry. entry ≡ some name) listing
      → path_after 2 store ≢ path_join store.data_dir name)
    × ((j : ℕ) → j < 2 → path_after j store ≢ path_after 2 store)
new_layer_store_path-new_example =
    new_layer_store_path-new (codes "/run/image-rs") listing store listed listing-HasRoom 2
      (omega arith)

-- Layers are their own text, and a text is its own hash.
abbrev codecs : Codecs Bytes
codecs = record {
  image_docker_layer_gzip_media_type = codes "docker";
  image_layer_media_type = codes "tar";
  image_layer_gzip_media_type = codes "gzip";
  media_type_from = λ s. image_layer;
  decompress = λ c r. r;
  sha256 = λ b. b;
  sha512 = λ b. b;
  unpack = λ r d. some r;
  remove_dir_all = λ d. true;
  decrypt_layer_key_opts_data = λ c a. some [];
  async_decrypt_layer = λ r a k. some r;
}

abbrev layer : Str → OciDescriptor
layer d = record { digest = d; media_type = codes "tar"; annotations = [] }

-- The second layer starts and ends first, and the others follow.
swap_two : {A : Type 0} → List A → List A
swap_two (a ∷ b ∷ l) = b ∷ a ∷ l
swap_two l = l

swap_two_perm : {A : Type 0} (l : List A) → Permᴰ l (swap_two l)
unfolding swap_two
swap_two_perm [] = Permᴰ.nil
swap_two_perm (a ∷ []) = Permᴰ.refl (a ∷ [])
swap_two_perm (a ∷ b ∷ l) = Permᴰ.swap refl refl

abbrev turns : Turns
turns = record { starts = λ l. swap_two l; ends = λ l. swap_two l }

turns-IsTurns : IsTurns turns
turns-IsTurns = record { started = λ l. swap_two_perm l; ended = λ l. Permᴰ.symm (swap_two_perm l) }

abbrev meta : Str → Str → Str → LayerMeta
meta digest diff_id path = record {
  decoder = gzip;
  encrypted = false;
  compressed_digest = digest;
  uncompressed_digest = diff_id;
  store_path = path;
}

abbrev stream : OciDescriptor → Option Bytes
stream l = some l.digest

abbrev layers : List (OciDescriptor × Str)
layers = (layer (codes "a"), codes "sha256:a") ∷ (layer (codes "b"), codes "sha256:b") ∷ []

abbrev metas : List LayerMeta
metas =
    meta (codes "a") (codes "sha256:a") (codes "/run/image-rs/layers/8")
    ∷ meta (codes "b") (codes "sha256:b") (codes "/run/image-rs/layers/7")
    ∷ []

pulled_run : (async_pull_layers codecs stream none [] turns store layers).1 ≡ ok metas
unfolding async_pull_layers handle_layers handle_layer handle_new_layer plaintext_digest
    from_media_type async_decompress_unpack_layer compression_try_from stream_processing hasher_of
    async_processing new_layer_store_path path_join decimal digits enumerate try_collect collect_map
    insert_by values swap_two get str_eq strip_prefix is_empty
pulled_run = refl

async_pull_layers-IsHandled_example : All2 (IsHandled codecs stream none []) layers metas
async_pull_layers-IsHandled_example =
    async_pull_layers-IsHandled codecs stream none [] turns store layers metas turns-IsTurns
      pulled_run

handled_run :
    handle_new_layer codecs (layer (codes "a")) (codes "sha256:a") none (codes "a") (codes "/run/7")
    ≡ ok (meta (codes "a") (codes "sha256:a") (codes "/run/7"))
unfolding handle_new_layer plaintext_digest from_media_type async_decompress_unpack_layer
    compression_try_from stream_processing hasher_of async_processing str_eq strip_prefix
handled_run = refl

handle_new_layer-IsPlain_example :
    (codes "a" ≡ codes "a")
    × (codes "sha256:a" ≡ codes "sha256:a")
    × (codes "/run/7" ≡ codes "/run/7")
    × IsPlain codecs
        (layer (codes "a"))
        none
        (codes "a")
        (meta (codes "a") (codes "sha256:a") (codes "/run/7"))
        (codes "sha256:a")
handle_new_layer-IsPlain_example =
    handle_new_layer-IsPlain codecs (layer (codes "a")) (codes "sha256:a") none (codes "a")
      (codes "/run/7") (meta (codes "a") (codes "sha256:a") (codes "/run/7")) handled_run

abbrev configurations : Configurations (List Str)
configurations = record {
  from_reader = λ s. some (codes "sha256:a" ∷ codes "sha256:b" ∷ codes "sha256:a" ∷ []);
  diff_ids = λ c. c;
  is_linux = λ c. true;
}

-- A manifest that has its first layer twice.
abbrev manifest : OciImageManifest
manifest = record {
  config_digest = codes "config";
  layers = layer (codes "a") ∷ layer (codes "b") ∷ layer (codes "a") ∷ [];
}

abbrev value : Str
value = codes "7173b809ca12ec5dee4506cd86be934c4596dd234ee82c0662eac04a8c2c71dc"

abbrev fresh_meta : ImageMeta (List Str)
fresh_meta = record {
  id = codes "config";
  digest = codes "sha256:" ++ value;
  reference = codes "opensuse/leap";
  image_config = codes "sha256:a" ∷ codes "sha256:b" ∷ codes "sha256:a" ∷ [];
  signed = false;
  layer_metas = [];
}

meta_run :
    create_image_meta configurations
      (codes "config")
      (codes "opensuse/leap")
      manifest
      (codes "sha256:" ++ value)
      []
    ≡ ok (fresh_meta, layers)
unfolding create_image_meta unique_layers_of has_digest str_eq
meta_run = refl

create_image_meta_lem_example :
    Distinct layers
    × All (λ p. Paired p manifest.layers (configurations.diff_ids fresh_meta.image_config)) layers
    × All (λ l. Any (λ p. p.0.digest ≡ l.digest) layers) manifest.layers
create_image_meta_lem_example =
    create_image_meta_lem configurations (codes "config") (codes "opensuse/leap")
      (codes "sha256:" ++ value) [] manifest fresh_meta layers meta_run

abbrev hub : Oci Str
hub = record {
  registry = λ r. codes "docker.io";
  repository = λ r. r;
  tag = λ r. some (codes "latest");
  digest = λ r. none;
  whole = λ r. codes "docker.io/" ++ (r ++ codes ":latest");
  parse = λ s. some s;
}

abbrev world : World Str
world = record {
  oci = hub;
  decode_hex = λ s. some s;
  decode_base64 = λ s. some s;
  get_resource = λ s. none;
  verify_sig_and_extract_payload = λ ring sig. err bad_signature;
  trusted_signature_layers = λ image. err bad_signature;
  is_public_key = λ key. true;
  verify_constraints = λ layers key. true;
  parse_url = λ s. none;
  read_dir = λ s. none;
}

abbrev validator : SignatureValidator
validator = record {
  policy = record { default = accept ∷ []; transports = [] };
  simple_signing_sigstore_config = none;
}

abbrev net : Net Str Bytes (List Str)
net = record {
  codecs = codecs;
  configurations = configurations;
  signatures = world;
  turns = turns;
  to_string = λ r. r;
  credential_for_reference = λ r. none;
  client_try_from = λ c. true;
  pull_manifest = λ c r a. some record {
    manifest = manifest;
    digest = codes "sha256:" ++ value;
    config = [];
    list_digest = none;
  };
  pull_blob_stream = λ c r a l. some l.digest;
  mount = λ layers rootfs. true;
  create_runtime_config = λ c d. true;
  write_to_file = λ m. true;
}

abbrev nets : ℕ → Net Str Bytes (List Str)
nets n = net

abbrev client : ImageClient (List Str)
client = record {
  has_registry_auth = false;
  signature_validator = some validator;
  registry_handler = none;
  meta_store = record { image_db = []; layer_db = []; snapshot_db = [] };
  config = record { image_pull_proxy = none; extra_root_certificates = [] };
  layer_store = store;
  mounted = [];
}

abbrev references : References Str
references = record {
  registry = λ r. [];
  repository = λ r. r;
  tag = λ r. none;
  digest = λ r. [];
  to_string = λ r. r;
  with_tag = λ a b c. b;
  with_digest = λ a b c. b;
  from_str = λ s. some s;
}

-- The policy allowed it.
abbrev Judged : ImageMeta (List Str) → Type 0
Judged image = (try : ℕ) × IsPulled validator (nets try) image

-- The image is pulled, and its two layers are mounted, the second on top.
pull_run :
    (pull_image nets none
      (codes "/run/bundle")
      none
      references
      client
      (codes "opensuse/leap")).0.mounted
    ≡ (
      codes "/run/image-rs/layers/7" ∷ codes "/run/image-rs/layers/8" ∷ [],
      codes "/run/bundle/rootfs",
    )
      ∷ []
unfolding pull_image tasks_of pull_tasks pull_task find_manifest auth_of client_config_of
    pull_new_image check_signature check_image_signature image_of try_from split of_parts is_empty
    from_str str_eq check_requirements check_image_requirement requirements_for_image get
    first_scope create_image_meta unique_layers_of has_digest async_pull_layers handle_layers
    handle_layer handle_new_layer plaintext_digest from_media_type async_decompress_unpack_layer
    compression_try_from stream_processing hasher_of async_processing new_layer_store_path path_join
    decimal digits enumerate try_collect collect_map insert_by values swap_two strip_prefix finish
    by_digest extend insert create_bundle rev keep_image info_of
pull_run = refl

-- The registry cannot be reached.
abbrev offline : ℕ → Net Str Bytes (List Str)
offline n = record net { pull_manifest = λ c r a. none }

failed_run :
    (pull_image offline none (codes "/run") none references client (codes "a")).1
    ≡ err (all_tasks_tried (codes "a" ∷ []))
unfolding pull_image tasks_of pull_tasks pull_task find_manifest auth_of client_config_of
failed_run = refl

pull_image-eq-err_example :
    ((all_tasks_tried (codes "a" ∷ []) ≡ illegal_image_reference)
      × (references.from_str (codes "a") ≡ none))
    ⊎ ((all_tasks_tried (codes "a" ∷ []) ≡ illegal_registry_configuration_format)
        × IsRefused offline none (codes "/run") none references client (codes "a"))
    ⊎ ((tasks : List (ImagePullTask Str)) × (tasks_of references client (codes "a") ≡ ok tasks)
        × (all_tasks_tried (codes "a" ∷ [])
            ≡ all_tasks_tried (urls offline none (codes "/run") none 0 tasks))
        × EachFails offline none (codes "/run") none 0 tasks client)
pull_image-eq-err_example =
    pull_image-eq-err offline none (codes "/run") none references client (codes "a")
      (all_tasks_tried (codes "a" ∷ [])) failed_run
