-- ===== src/Registries/Handler.antt =====
-- Rules and tasks: the `RegistryHandler` of image-rs/src/registry/mod.rs. References are ASCII text,
-- as the crate's parser has them, so that their characters are their bytes.
use guest_components.Prelude.{
  ℕ, ◌+◌, false, ◌||◌, Option, none, some, List, [], ◌∷◌, ◌++◌, Str, codes, is_empty, contains,
  starts_with, find, str_eq, length, take, drop, ◌==◌, ltb, if◌then◌else◌, Result, ok, err, ◌>>=◌,
  ok_or,
}
use guest_components.Registries.Config.{
  TaskType, origininal, remapped, mirrored, unqualified_search, ImagePullTask, References, Mirror,
  Registry, Config, RegistryError, illegal_reference, blocked_by_rule, validate_and_tidy,
}

pub record RegistryHandler : Type 0 where
  pub config : Config

unfoldable pub new : Config → Result RegistryError RegistryHandler
new config = do tidied ← validate_and_tidy config; ok (record { config = tidied })

pub data MatchResult : Type 0 where
  matched : ℕ → MatchResult
  unmatched : MatchResult

-- The text behind a prefix that ends at the place: empty, or a separator is its first byte.
unfoldable pub delimited : ℕ → Str → MatchResult
delimited pos [] = matched pos
delimited pos (c ∷ behind) =
    if c == b':' || (c == b'/' || c == b'@') then matched pos else unmatched

unfoldable pub match_reference_prefix : Str → Str → MatchResult
match_reference_prefix reference prefix =
    if starts_with (codes "*.") prefix
    then elim (find (drop 1 prefix) reference) [
      | none ↦ unmatched
      | some pos ↦
          if contains b'/' (take pos reference)
          then unmatched
          else let past = pos + length (drop 1 prefix) in delimited past (drop past reference)
    ]
    else elim (find prefix reference) [
      | none ↦ unmatched
      | some pos ↦ let past = pos + length prefix in delimited past (drop past reference)
    ]

-- The rules that match, with how much of the reference they do.
unfoldable pub matching : Str → List Registry → List (ℕ × Registry)
matching reference [] = []
matching reference (rule ∷ rules) =
    let others = matching reference rules in
    elim (match_reference_prefix reference rule.prefix) [
      | matched n ↦ (n, rule) ∷ others
      | unmatched ↦ others
    ]

-- `max_by_key`: of several that are largest, the last
unfoldable pub longest : List (ℕ × Registry) → Option (ℕ × Registry)
longest [] = none
longest (m ∷ ms) = elim (longest ms) [
  | none ↦ some m
  | some best ↦ if ltb best.0 m.0 then some m else some best
]

-- The image's name without the directory of Docker's own images.
unfoldable pub searched_repository : Str → Str
searched_repository repository =
    if starts_with (codes "library/") repository
    then drop (length (codes "library/")) repository
    else repository

unfoldable pub remapped_type : Str → TaskType → TaskType
remapped_type location kind = if str_eq location (codes "docker.io") then kind else remapped

module _ {Reference : Type 0} (oci : References Reference) where
  unfoldable pub search_task : Reference → Str → ImagePullTask Reference
  search_task reference registry =
      let repository = searched_repository (oci.repository reference) in
      if str_eq registry (codes "docker.io")
      then record { image_reference = reference; use_http = false; task_type = unqualified_search }
      else record {
        image_reference = elim (oci.tag reference) [
          | some tag ↦ oci.with_tag registry repository tag
          | none ↦ oci.with_digest registry repository (oci.digest reference)
        ];
        use_http = false;
        task_type = unqualified_search;
      }

  unfoldable pub generate_unqualified_search_tasks :
      List Str → Reference → List (ImagePullTask Reference)
  generate_unqualified_search_tasks [] reference = []
  generate_unqualified_search_tasks (registry ∷ registries) reference =
      search_task reference registry ∷ generate_unqualified_search_tasks registries reference

  -- A task for every mirror of a rule.
  unfoldable pub mirror_tasks :
      Str → List Mirror → Result RegistryError (List (ImagePullTask Reference))
  mirror_tasks behind [] = ok []
  mirror_tasks behind (m ∷ ms) = do
    image_reference ← ok_or (oci.from_str (m.location ++ behind)) illegal_reference
    rest ← mirror_tasks behind ms
    ok (
        record { image_reference = image_reference; use_http = m.insecure; task_type = mirrored }
        ∷ rest)

  -- The task at the rule's location, or the task as it is.
  unfoldable pub remapping_task :
      Str → Registry → ImagePullTask Reference → Result RegistryError (ImagePullTask Reference)
  remapping_task behind rule task = if is_empty rule.location then ok task else do
    image_reference ← ok_or (oci.from_str (rule.location ++ behind)) illegal_reference
    ok record {
      image_reference = image_reference;
      use_http = rule.insecure;
      task_type = remapped_type rule.location task.task_type;
    }

  -- The body of the loop over the tasks.
  unfoldable pub registry_tasks :
      RegistryHandler
      → ImagePullTask Reference
      → Result RegistryError (List (ImagePullTask Reference))
  registry_tasks self task =
      let reference_string = oci.to_string task.image_reference in
      elim (longest (matching reference_string self.config.registry)) [
        | none ↦ ok (task ∷ [])
        | some (matched_len, rule) ↦ if rule.blocked then ok [] else do
          mirrors ← mirror_tasks (drop matched_len reference_string) rule.mirror
          last ← remapping_task (drop matched_len reference_string) rule task
          ok (mirrors ++ (last ∷ []))
      ]

  unfoldable pub handle_registry_tasks :
      RegistryHandler
      → List (ImagePullTask Reference)
      → Result RegistryError (List (ImagePullTask Reference))
  handle_registry_tasks self [] = ok []
  handle_registry_tasks self (task ∷ original_tasks) = do
    tasks ← registry_tasks self task
    rest ← handle_registry_tasks self original_tasks
    ok (tasks ++ rest)

  -- The tasks before the rules are applied.
  unfoldable pub first_tasks : RegistryHandler → Reference → List (ImagePullTask Reference)
  first_tasks self image_reference =
      if str_eq (oci.registry image_reference) (codes "docker.io")
      then generate_unqualified_search_tasks self.config.unqualified_search_registries
          image_reference
      else record { image_reference = image_reference; use_http = false; task_type = origininal }
        ∷ []

  unfoldable pub process :
      RegistryHandler → Reference → Result RegistryError (List (ImagePullTask Reference))
  process self image_reference = do
    final_tasks ← handle_registry_tasks self (first_tasks self image_reference)
    if is_empty final_tasks then err blocked_by_rule else ok final_tasks
