-- ===== src/Pull/Client.antt =====
-- The image client: `ImageClient` of image-rs/src/image.rs.
use guest_components.Prelude.{
  ℕ, suc, ◌-◌, ◌==◌, Bool, false, not, Option, none, some, List, [], ◌∷◌, ◌++◌, Str, codes, length,
  get, insert, split_once, map, if◌then◌else◌, Result, ok, err, ◌>>=◌, ◌>>◌, bail_if, ok_or,
  map_err,
}
use guest_components.Registries.Config.{References, ImagePullTask, origininal}
use guest_components.Registries.Handler.{RegistryHandler, process}
use guest_components.Signature.Validator.{World, SignatureValidator, check_image_signature}
use guest_components.Pull.Media.{Codecs, OciDescriptor, pull_manifest_error}
use guest_components.Pull.Store.{LayerStore, path_join}
use guest_components.Pull.Layers.{Turns, async_pull_layers}
use guest_components.Pull.Metas.{
  ImageMeta, MetaStore, OciImageManifest, Configurations, PullImageError, illegal_registry_auth,
  failed_to_create_bundle, signature_validation_failed, not_all_unique_layers_pulled,
  pull_layers_failed, internal, illegal_image_reference, illegal_registry_configuration_format,
  all_tasks_tried, by_digest, extend, create_image_meta,
}

pub data RegistryAuth : Type 0 where
  anonymous : RegistryAuth
  basic : Str → Str → RegistryAuth

pub record ProxyConfig : Type 0 where
  pub https_proxy : Option Str
  pub http_proxy : Option Str
  pub no_proxy : Option Str

-- oci_client's settings, as far as they are set.
pub record ClientConfig : Type 0 where
  pub http : Bool
  pub proxies : ProxyConfig
  pub extra_root_certificates : List Str

pub record ImageConfig : Type 0 where
  pub image_pull_proxy : Option ProxyConfig
  pub extra_root_certificates : List Str

pub record ImageInfo : Type 0 where
  pub config_digest : Str
  pub manifest_digest : Str

-- What a registry answers to the request for a manifest.
pub record Pulled : Type 0 where
  pub manifest : OciImageManifest
  pub digest : Str
  pub config : Str
  pub list_digest : Option Str

-- The surroundings during one try: the registry, the crates, the file system and the machine.
pub record Net (Reference Reader Configuration : Type 0) : Type 0 where
  pub codecs : Codecs Reader
  pub configurations : Configurations Configuration
  pub signatures : World Reference
  pub turns : Turns
  pub to_string : Reference → Str
  -- the credentials that are kept for the image's registry, or that they are broken
  pub credential_for_reference : Reference → Option RegistryAuth
  pub client_try_from : ClientConfig → Bool
  pub pull_manifest : ClientConfig → Reference → RegistryAuth → Option Pulled
  pub pull_blob_stream : ClientConfig → Reference → RegistryAuth → OciDescriptor → Option Reader
  pub mount : List Str → Str → Bool
  pub create_runtime_config : Configuration → Str → Bool
  pub write_to_file : MetaStore Configuration → Bool

-- The client, with the root file systems it has mounted, the last first: the paths of layers, the
-- topmost first, and the directory.
pub record ImageClient (Configuration : Type 0) : Type 0 where
  pub has_registry_auth : Bool
  pub signature_validator : Option SignatureValidator
  pub registry_handler : Option RegistryHandler
  pub meta_store : MetaStore Configuration
  pub config : ImageConfig
  pub layer_store : LayerStore
  pub mounted : List (List Str × Str)

-- `.rev()`
unfoldable pub rev : {A : Type 0} → List A → List A
rev [] = []
rev (x ∷ xs) = rev xs ++ (x ∷ [])

-- `no_proxy`, `https_proxy` and `http_proxy` of the configuration, where they are given
unfoldable pub client_config_of : ImageConfig → Bool → ClientConfig
client_config_of config use_http = record {
  http = use_http;
  proxies = elim config.image_pull_proxy [
    | none ↦ record { https_proxy = none; http_proxy = none; no_proxy = none }
    | some proxy_config ↦ proxy_config
  ];
  extra_root_certificates = config.extra_root_certificates;
}

module _ {Reference Reader Configuration : Type 0} (net : Net Reference Reader Configuration) where
  -- The credentials: given with the request, kept, or none.
  unfoldable pub auth_of :
      ImageClient Configuration → Option Str → Reference → Result PullImageError RegistryAuth
  auth_of self (some input_auth) image_reference = elim (split_once b':' input_auth) [
    | some (username, password) ↦ ok (basic username password)
    | none ↦ err illegal_registry_auth
  ]
  auth_of self none image_reference =
      if self.has_registry_auth
      then ok_or (net.credential_for_reference image_reference) illegal_registry_auth
      else ok anonymous

  -- The bundle: the layers are mounted before the image's system is looked at.
  unfoldable pub create_bundle :
      ImageMeta Configuration
      → Str
      → ImageClient Configuration
      → ImageClient Configuration × Result PullImageError Str
  create_bundle image_data bundle_dir self =
      let layer_path = rev (map (λ l. l.store_path) image_data.layer_metas) in
      let rootfs = path_join bundle_dir (codes "rootfs") in
      if net.mount layer_path rootfs
      then (
        record self { mounted = (layer_path, rootfs) ∷ self.mounted },
        do
          bail_if (not (net.configurations.is_linux image_data.image_config))
              failed_to_create_bundle
          bail_if (not (net.create_runtime_config image_data.image_config bundle_dir))
              failed_to_create_bundle
          ok image_data.id,
      )
      else (self, err failed_to_create_bundle)

  -- What is told of an image whose bundle was made.
  unfoldable pub info_of : Str → Result PullImageError Str → Result PullImageError ImageInfo
  info_of image_digest bundle = do
    image_id ← bundle
    ok (record { config_digest = image_id; manifest_digest = image_digest })

  -- The policy's judgement, where there is one.
  unfoldable pub check_signature :
      ImageClient Configuration → Str → Str → Option Str → Result PullImageError (Unit {0})
  check_signature self image_url image_digest manifest_list_digest = elim self.signature_validator [
    | none ↦ ok tt
    | some validator ↦
        map_err
          (check_image_signature net.signatures validator image_url image_digest
            manifest_list_digest)
          signature_validation_failed
  ]

  -- The image is kept, and the store written.
  unfoldable pub keep_image :
      ImageMeta Configuration
      → Str
      → Str
      → ImageClient Configuration
      → ImageClient Configuration × Result PullImageError ImageInfo
  keep_image image_data image_digest image_id self =
      let kept = record self {
        meta_store = record self.meta_store {
          image_db = insert image_data.id image_data self.meta_store.image_db;
        };
      } in
      if net.write_to_file kept.meta_store
      then (kept, ok (record { config_digest = image_id; manifest_digest = image_digest }))
      else (kept, err internal)

  -- After the layers: they are noted, counted, mounted, and the image is kept.
  unfoldable pub finish :
      ImageMeta Configuration
      → ℕ
      → Str
      → Str
      → ImageClient Configuration
      → ImageClient Configuration × Result PullImageError ImageInfo
  finish image_data unique_layers_len image_digest bundle_dir given =
      let self = record given {
        meta_store = record given.meta_store {
          layer_db = extend given.meta_store.layer_db (by_digest image_data.layer_metas);
        };
      } in
      let (bundled, bundle) = create_bundle image_data bundle_dir self in
      if unique_layers_len == length image_data.layer_metas
      then elim bundle [
        | err e ↦ (bundled, err e)
        | ok image_id ↦ keep_image image_data image_digest image_id bundled
      ]
      else (
        self,
        err (not_all_unique_layers_pulled (unique_layers_len - length image_data.layer_metas)),
      )

  -- An image that is not kept yet: its signatures are checked, and its layers pulled.
  unfoldable pub pull_new_image :
      ImageClient Configuration
      → ClientConfig
      → ImagePullTask Reference
      → RegistryAuth
      → Pulled
      → Str
      → Option Str
      → Str
      → ImageClient Configuration × Result PullImageError ImageInfo
  pull_new_image self client_config task auth pulled bundle_dir decrypt_config image_url =
      elim (check_signature self image_url pulled.digest pulled.list_digest
        >> create_image_meta net.configurations pulled.manifest.config_digest image_url
            pulled.manifest pulled.digest pulled.config) [
              | err e ↦ (self, err e)
              | ok (image_data, layers) ↦
                  let (layer_store, layer_metas) =
                    async_pull_layers net.codecs
                      (net.pull_blob_stream client_config task.image_reference auth) decrypt_config
                      self.meta_store.layer_db net.turns self.layer_store layers in
                  let counted = record self { layer_store = layer_store } in
                  elim layer_metas [
                    | err e ↦ (counted, err (pull_layers_failed e))
                    | ok metas ↦
                        finish (record image_data { layer_metas = metas }) (length layers)
                          pulled.digest bundle_dir counted
                  ]
            ]

  -- The credentials and the manifest.
  unfoldable pub find_manifest :
      ImageClient Configuration
      → ImagePullTask Reference
      → Option Str
      → Result PullImageError (RegistryAuth × Pulled)
  find_manifest self task auth_info = do
    auth ← auth_of self auth_info task.image_reference
    bail_if (not (net.client_try_from (client_config_of self.config task.use_http))) internal
    pulled ←
        ok_or
          (net.pull_manifest (client_config_of self.config task.use_http) task.image_reference auth)
          (pull_layers_failed pull_manifest_error)
    ok (auth, pulled)

  unfoldable pub pull_task :
      ImageClient Configuration
      → ImagePullTask Reference
      → Option Str
      → Str
      → Option Str
      → Str
      → ImageClient Configuration × Result PullImageError ImageInfo
  pull_task self task auth_info bundle_dir decrypt_config image_url =
      elim (find_manifest self task auth_info) [
        | err e ↦ (self, err e)
        | ok (auth, pulled) ↦ elim (get pulled.manifest.config_digest self.meta_store.image_db) [
          | some image_data ↦
              let (bundled, bundle) = create_bundle image_data bundle_dir self in
              (bundled, info_of pulled.digest bundle)
          | none ↦
              pull_new_image self (client_config_of self.config task.use_http) task auth pulled
                bundle_dir decrypt_config image_url
        ]
      ]

module _ {Reference Configuration : Type 0} where
  -- The tasks of an image: by the rules of the registries, or the image as it is.
  unfoldable pub tasks_of :
      References Reference
      → ImageClient Configuration
      → Str
      → Result PullImageError (List (ImagePullTask Reference))
  tasks_of oci self image_url = do
    reference ← ok_or (oci.from_str image_url) illegal_image_reference
    elim self.registry_handler [
      | some handler ↦ map_err (process oci handler reference) illegal_registry_configuration_format
      | none ↦
          ok (record { image_reference = reference; use_http = false; task_type = origininal } ∷ [])
    ]

module _ {Reference Reader Configuration : Type 0} (nets : ℕ → Net Reference Reader Configuration)
    (auth_info : Option Str) (bundle_dir : Str) (decrypt_config : Option Str) where
  -- The loop over the tasks: each try has its own surroundings, and its image is noted if it fails.
  unfoldable pub pull_tasks :
      ℕ
      → List (ImagePullTask Reference)
      → List Str
      → ImageClient Configuration
      → ImageClient Configuration × Result PullImageError ImageInfo
  pull_tasks try [] tried self = (self, err (all_tasks_tried tried))
  pull_tasks try (task ∷ tasks) tried self =
      let image_url = (nets try).to_string task.image_reference in
      let (after, outcome) =
        pull_task (nets try) self task auth_info bundle_dir decrypt_config image_url in
      let next = pull_tasks (suc try) tasks (tried ++ (image_url ∷ [])) after in
      elim outcome [ ok image_id ↦ (after, ok image_id) | err e ↦ next ]

  unfoldable pub pull_image :
      References Reference
      → ImageClient Configuration
      → Str
      → ImageClient Configuration × Result PullImageError ImageInfo
  pull_image oci self image_url = elim (tasks_of oci self image_url) [
    | err e ↦ (self, err e)
    | ok tasks ↦ pull_tasks 0 tasks [] self
  ]
