-- ===== src/Pull/Failures.antt =====
-- The errors of pulling an image.
use guest_components.Prelude.{
  ℕ, suc, ◌≡◌, ◌⊎◌, inl, inr, refl, sym, ap, ◌∙◌, Option, none, List, [], ◌∷◌, ◌++◌, Str, some,
  Option-cases, Result, Result-cases, ok, err, arith, append_assoc, append-nil,
}
use guest_components.Registries.Config.{ImagePullTask, References}
use guest_components.Registries.Config.{RegistryError}
use guest_components.Registries.Handler.{RegistryHandler, process}
use guest_components.Pull.Metas.{
  PullImageError, all_tasks_tried, illegal_image_reference, illegal_registry_configuration_format,
}
use guest_components.Pull.Client.{
  Net, ImageInfo, ImageClient, pull_task, pull_tasks, tasks_of, pull_image,
}

module _ {Reference Reader Configuration : Type 0} (nets : ℕ → Net Reference Reader Configuration)
    (auth_info : Option Str) (bundle_dir : Str) (decrypt_config : Option Str) where
  -- The text of each task's reference, in order.
  pub urls : ℕ → List (ImagePullTask Reference) → List Str
  urls try [] = []
  urls try (task ∷ tasks) = (nets try).to_string task.image_reference ∷ urls (suc try) tasks

  -- Each of these tries fails, the next one in the state that it leaves.
  pub data EachFails : ℕ → List (ImagePullTask Reference) → ImageClient Configuration → Type 0 where
    none_left : {try : ℕ} {self : ImageClient Configuration} → EachFails try [] self
    fails :
        {try : ℕ} {task : ImagePullTask Reference} {tasks : List (ImagePullTask Reference)}
        {self : ImageClient Configuration} (next : ImageClient Configuration)
        (failure : PullImageError)
        → pull_task
            (nets try)
            self
            task
            auth_info
            bundle_dir
            decrypt_config
            ((nets try).to_string task.image_reference)
          ≡ (next, err failure)
        → EachFails (suc try) tasks next
        → EachFails try (task ∷ tasks) self

  EachFails-first :
      (try : ℕ) (task : ImagePullTask Reference) (tasks : List (ImagePullTask Reference))
      (self : ImageClient Configuration) (failure : PullImageError)
      (r : ImageClient Configuration × Result PullImageError ImageInfo)
      → pull_task
          (nets try)
          self
          task
          auth_info
          bundle_dir
          decrypt_config
          ((nets try).to_string task.image_reference)
        ≡ r
      → r.1 ≡ err failure
      → EachFails (suc try) tasks r.0
      → EachFails try (task ∷ tasks) self
  EachFails-first try task tasks self failure (next, err e) same h rest = fails next e same rest
  EachFails-first try task tasks self failure (next, ok a) same h rest = cc

  pull_tasks_later :
      (try : ℕ) (task : ImagePullTask Reference) (tasks : List (ImagePullTask Reference))
      (tried : List Str) (self : ImageClient Configuration) (failure : PullImageError)
      → (pull_task
          (nets try)
          self
          task
          auth_info
          bundle_dir
          decrypt_config
          ((nets try).to_string task.image_reference)).1
        ≡ err failure
      → (pull_tasks nets auth_info bundle_dir decrypt_config try (task ∷ tasks) tried self).1
        ≡ (pull_tasks nets auth_info bundle_dir decrypt_config
            (suc try)
            tasks
            (tried ++ ((nets try).to_string task.image_reference ∷ []))
            (pull_task
              (nets try)
              self
              task
              auth_info
              bundle_dir
              decrypt_config
              ((nets try).to_string task.image_reference)).0).1
  unfolding pull_tasks
  pull_tasks_later try task tasks tried self failure failed = rw (failed, pull_tasks) refl

  pull_tasks-eq-err :
      (try : ℕ) (tasks : List (ImagePullTask Reference)) (tried : List Str)
      (self : ImageClient Configuration) (e : PullImageError)
      → (pull_tasks nets auth_info bundle_dir decrypt_config try tasks tried self).1 ≡ err e
      → (e ≡ all_tasks_tried (tried ++ urls try tasks)) × EachFails try tasks self
  unfolding pull_tasks urls
  pull_tasks-eq-err try [] tried self e h =
      let same : all_tasks_tried tried ≡ e = cc in
      (sym same ∙ ap all_tasks_tried (sym (append-nil tried)), none_left)
  pull_tasks-eq-err try (task ∷ tasks) tried self e h =
      let image_url = (nets try).to_string task.image_reference in
      let after = pull_task (nets try) self task auth_info bundle_dir decrypt_config image_url in
      elim (Result-cases after.1) [
        | inl (image_id, done) ↦ absurd (ground (arith, done, h))
        | inr (failure, failed) ↦
            let (listed, rest) =
              pull_tasks-eq-err (suc try) tasks (tried ++ (image_url ∷ [])) after.0 e
                (sym (pull_tasks_later try task tasks tried self failure failed) ∙ h) in
            (
              listed
                  ∙ ap all_tasks_tried (append_assoc tried (image_url ∷ []) (urls (suc try) tasks)),
              EachFails-first try task tasks self failure after refl failed rest,
            )
      ]

  module _ (oci : References Reference) (self : ImageClient Configuration) (image_url : Str) where
    pull_image_tried :
        (tasks : List (ImagePullTask Reference))
        → tasks_of oci self image_url ≡ ok tasks
        → (pull_image nets auth_info bundle_dir decrypt_config oci self image_url).1
          ≡ (pull_tasks nets auth_info bundle_dir decrypt_config 0 tasks [] self).1
    unfolding pull_image
    pull_image_tried tasks made = rw (made, pull_image) refl

    pull_image_refused :
        (failure : PullImageError) {e : PullImageError}
        → tasks_of oci self image_url ≡ err failure
        → (pull_image nets auth_info bundle_dir decrypt_config oci self image_url).1 ≡ err e
        → failure ≡ e
    unfolding pull_image
    pull_image_refused failure failed h = ground (arith, failed, h)

    -- The client has rules of registries, and they refuse the reference.
    abbrev pub IsRefused : Type 0
    IsRefused =
        (reference : Reference) × (handler : RegistryHandler) × (reason : RegistryError)
        × (oci.from_str image_url ≡ some reference)
        × (self.registry_handler ≡ some handler)
        × (process oci handler reference ≡ err reason)

    tasks_of-eq-err :
        (failure : PullImageError)
        → tasks_of oci self image_url ≡ err failure
        → ((failure ≡ illegal_image_reference) × (oci.from_str image_url ≡ none))
          ⊎ ((failure ≡ illegal_registry_configuration_format) × IsRefused)
    unfolding tasks_of
    tasks_of-eq-err failure h = elim (Option-cases (oci.from_str image_url)) [
      | inl unread ↦ inl (ground (arith, unread, h), unread)
      | inr (reference, read) ↦ elim (Option-cases self.registry_handler) [
        | inl nothing ↦ absurd (ground (arith, read, nothing, h))
        | inr (handler, rules) ↦ inr (elim (Result-cases (process oci handler reference)) [
          | inl (tasks, made) ↦ absurd (ground (arith, read, rules, made, h))
          | inr (reason, refused) ↦ (
            ground (arith, read, rules, refused, h),
            (reference, handler, reason, read, rules, refused),
          )
        ])
      ]
    ]

  -- Pulling an image fails in one of three ways: its reference cannot be read; the client has rules of
  -- registries and they refuse the reference; or each of its tasks failed, in their order and each in
  -- the state that the one before left, and the error lists their references' texts.
  pub pull_image-eq-err :
      (oci : References Reference) (self : ImageClient Configuration) (image_url : Str)
      (e : PullImageError)
      → (pull_image nets auth_info bundle_dir decrypt_config oci self image_url).1 ≡ err e
      → ((e ≡ illegal_image_reference) × (oci.from_str image_url ≡ none))
        ⊎ ((e ≡ illegal_registry_configuration_format) × IsRefused oci self image_url)
        ⊎ ((tasks : List (ImagePullTask Reference)) × (tasks_of oci self image_url ≡ ok tasks)
            × (e ≡ all_tasks_tried (urls 0 tasks))
            × EachFails 0 tasks self)
  unfolding pull_image
  pull_image-eq-err oci self image_url e h = elim (Result-cases (tasks_of oci self image_url)) [
    | inl (tasks, made) ↦
        let (listed, failed) =
          pull_tasks-eq-err 0 tasks [] self e
            (sym (pull_image_tried oci self image_url tasks made) ∙ h) in
        inr (inr (tasks, made, listed, failed))
    | inr (failure, failed) ↦
        let same : failure ≡ e = pull_image_refused oci self image_url failure failed h in
        elim (tasks_of-eq-err oci self image_url failure failed) [
          | inl (kind, unread) ↦ inl (sym same ∙ kind, unread)
          | inr (kind, refused) ↦ inr (inl (sym same ∙ kind, refused))
        ]
  ]
