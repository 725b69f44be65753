-- ===== src/Registries/Steps.antt =====
-- What a handler makes of one task, branch by branch.
use guest_components.Prelude.{
  ℕ, ◌≡◌, refl, true, false, none, some, [], ◌∷◌, ◌++◌, Str, is_empty, drop, ok, ◌>>=◌, ok_or,
}
use guest_components.Registries.Config.{ImagePullTask, References, Registry, illegal_reference}
use guest_components.Registries.Handler.{
  RegistryHandler, matching, longest, mirror_tasks, remapped_type, remapping_task, registry_tasks,
}

module _ {Reference : Type 0} (oci : References Reference) (self : RegistryHandler) where
  pub remapping_task_set :
      (behind : Str) (rule : Registry) (task : ImagePullTask Reference)
      → is_empty rule.location ≡ false
      → remapping_task oci behind rule task ≡ (
          ok_or (oci.from_str (rule.location ++ behind)) illegal_reference >>= λ image. ok record {
            image_reference = image;
            use_http = rule.insecure;
            task_type = remapped_type rule.location task.task_type;
          })
  unfolding remapping_task
  remapping_task_set behind rule task set = rw (set, remapping_task) refl

  pub unmatched_tasks :
      (task : ImagePullTask Reference)
      → longest (matching (oci.to_string task.image_reference) self.config.registry) ≡ none
      → registry_tasks oci self task ≡ ok (task ∷ [])
  unfolding registry_tasks
  unmatched_tasks task nothing = rw (nothing, registry_tasks) refl

  module _ (task : ImagePullTask Reference) (n : ℕ) (rule : Registry)
      (found : longest (matching (oci.to_string task.image_reference) self.config.registry)
        ≡ some (n, rule)) where
    pub blocked_tasks : rule.blocked ≡ true → registry_tasks oci self task ≡ ok []
    unfolding registry_tasks
    blocked_tasks blocked = rw (found, registry_tasks) (rw blocked refl)

    pub free_tasks :
        rule.blocked ≡ false
        → registry_tasks oci self task ≡ (
            mirror_tasks oci (drop n (oci.to_string task.image_reference)) rule.mirror
            >>= λ mirrors.
                remapping_task oci (drop n (oci.to_string task.image_reference)) rule task
                >>= λ last. ok (mirrors ++ (last ∷ [])))
    unfolding registry_tasks
    free_tasks free = rw (found, registry_tasks) (rw free refl)
