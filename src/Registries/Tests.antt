-- ===== src/Registries/Tests.antt =====
-- A handler at work on concrete rules and references.
use guest_components.Prelude.{
  ◌≡◌, ◌↔◌, refl, true, false, none, some, List, [], ◌∷◌, ◌++◌, Str, codes, is_empty, strip_prefix,
  find, split_once, rsplit_once, contains, str_eq, All, Any, ok, err,
}
use guest_components.Prelude.Find.{IsFirst, found-IsFirst}
use guest_components.Registries.Config.{
  References, ImagePullTask, mirrored, unqualified_search, Registry, Config, blocked_by_rule,
  tidy_registry, tidy_registries, tidy_prefix, check_mirrors, validate_and_tidy,
}
use guest_components.Registries.Handler.{
  RegistryHandler, new, matched, match_reference_prefix, delimited, matching, longest, search_task,
  searched_repository, generate_unqualified_search_tasks, mirror_tasks, remapped_type,
  remapping_task, registry_tasks, handle_registry_tasks, first_tasks, process,
}
use guest_components.Registries.Prefixes.{IsMatch, match_reference_prefix_lem}
use guest_components.Registries.Tidy.{IsTidy, new-IsTidy}
use guest_components.Registries.Origins.{IsFrom, process-IsFrom}
use guest_components.Registries.Blocked.{IsBlocked, process-IsBlocked}

-- References as their text: a registry, a repository and a tag.
abbrev before_slash : Str → Str
before_slash s = elim (split_once b'/' s) [ none ↦ [] | some (a, b) ↦ a ]

abbrev repository_of : Str → Str
repository_of s = elim (split_once b'/' s) [
  | none ↦ s
  | some (a, b) ↦ elim (rsplit_once b':' b) [ none ↦ b | some (r, t) ↦ r ]
]

abbrev texts : References Str
texts = record {
  registry = before_slash;
  repository = repository_of;
  tag = λ s. elim (rsplit_once b':' s) [ none ↦ none | some (a, b) ↦ some b ];
  digest = λ s. [];
  to_string = λ s. s;
  with_tag = λ registry repository tag. registry ++ (b'/' ∷ (repository ++ (b':' ∷ tag)));
  with_digest = λ registry repository digest. registry ++ (b'/' ∷ (repository ++ (b'@' ∷ digest)));
  from_str = λ s. some s;
}

abbrev banned : Registry
banned = record {
  prefix = codes "example.com/banned";
  insecure = false;
  blocked = true;
  location = [];
  mirror = [];
}

abbrev dockers : Registry
dockers = record {
  prefix = codes "docker.io";
  insecure = false;
  blocked = false;
  location = codes "docker.io";
  mirror = record { location = codes "123456.mirror.aliyuncs.com"; insecure = false } ∷ [];
}

abbrev given : Config
given = record {
  unqualified_search_registries = codes "docker.io" ∷ codes "example1.com" ∷ [];
  registry = banned ∷ record dockers { prefix = [] } ∷ [];
}

abbrev handler : RegistryHandler
handler = record { config = record given { registry = banned ∷ dockers ∷ [] } }

new_run : new given ≡ ok handler
unfolding new validate_and_tidy tidy_registries tidy_registry tidy_prefix check_mirrors is_empty
    strip_prefix
new_run = refl

new-IsTidy_example : All IsTidy handler.config.registry × (new handler.config ≡ ok handler)
new-IsTidy_example = new-IsTidy given handler new_run

-- What the source's own test of the unqualified search expects.
abbrev found : List (ImagePullTask Str)
found =
    record {
      image_reference = codes "123456.mirror.aliyuncs.com/library/bar:tag";
      use_http = false;
      task_type = mirrored;
    }
    ∷ record {
      image_reference = codes "docker.io/library/bar:tag";
      use_http = false;
      task_type = unqualified_search;
    }
    ∷ record {
      image_reference = codes "example1.com/bar:tag";
      use_http = false;
      task_type = unqualified_search;
    }
    ∷ []

process_run : process texts handler (codes "docker.io/library/bar:tag") ≡ ok found
unfolding process first_tasks handle_registry_tasks registry_tasks remapping_task remapped_type
    mirror_tasks generate_unqualified_search_tasks search_task searched_repository matching longest
    match_reference_prefix delimited is_empty strip_prefix find split_once rsplit_once contains
    str_eq
process_run = refl

process-IsFrom_example :
    (is_empty found ≡ false)
    × All
        (λ t.
          Any
            (λ task. IsFrom texts handler task t)
            (first_tasks texts handler (codes "docker.io/library/bar:tag")))
        found
process-IsFrom_example =
    process-IsFrom texts handler (codes "docker.io/library/bar:tag") found process_run

process-IsBlocked_example :
    (process texts handler (codes "example.com/banned/image:tag") ≡ err blocked_by_rule)
    ↔ All
        (IsBlocked texts handler)
        (first_tasks texts handler (codes "example.com/banned/image:tag"))
process-IsBlocked_example = process-IsBlocked texts handler (codes "example.com/banned/image:tag")

match_reference_prefix_lem_example :
    (match_reference_prefix (codes "quay.example.com/a:b") (codes "*.example.com") ≡ matched 16)
    ↔ IsMatch (codes "quay.example.com/a:b") (codes "*.example.com") 16
match_reference_prefix_lem_example =
    match_reference_prefix_lem (codes "quay.example.com/a:b") (codes "*.example.com") 16

-- The registry is the other host, and the prefix is a part of its repository's name.
other-IsFirst : IsFirst (codes "docker.io") (codes "evil.org/") (codes "/library/bar:tag")
unfolding find strip_prefix is_empty
other-IsFirst =
    found-IsFirst (codes "docker.io") (codes "evil.org/") (codes "/library/bar:tag") refl
