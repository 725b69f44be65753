-- ===== src/Registries/Origins.antt =====
-- Where each task that a handler gives comes from.
use mathlib.Core.Path.{subst}
use guest_components.Prelude.{
  ℕ, ◌≡◌, inl, inr, refl, sym, ◌∙◌, true, false, some, List, [], ◌∷◌, ◌++◌, Str, is_empty, drop,
  Bool-cases, Option-cases, All, All-map, Any, here, there, ok_inj, ok_or-eq-ok, All-append, ok,
  >>=-eq-ok, ok_or, arith,
}
use guest_components.Registries.Config.{
  mirrored, ImagePullTask, References, Mirror, Registry, illegal_reference,
}
use guest_components.Registries.Handler.{
  RegistryHandler, matching, longest, first_tasks, mirror_tasks, remapped_type, remapping_task,
  registry_tasks, handle_registry_tasks, process,
}
use guest_components.Registries.Longest.{IsChosen, Misses, longest_iff, longest-eq-none}
use guest_components.Registries.Steps.{
  remapping_task_set, unmatched_tasks, blocked_tasks, free_tasks,
}

module _ {Reference : Type 0} (oci : References Reference) (self : RegistryHandler) where
  -- A try at the mirror, with what is behind the matched part of the reference.
  abbrev IsMirrored : Str → Mirror → ImagePullTask Reference → Type 0
  IsMirrored behind m t =
      (oci.from_str (m.location ++ behind) ≡ some t.image_reference)
      × (t.use_http ≡ m.insecure)
      × (t.task_type ≡ mirrored)

  -- The last try that a rule gives: at its location, or the task as it was.
  pub data IsLast (behind : Str) (rule : Registry) (task t : ImagePullTask Reference) : Type 0 where
    kept : is_empty rule.location ≡ true → t ≡ task → IsLast behind rule task t
    moved :
        is_empty rule.location ≡ false
        → oci.from_str (rule.location ++ behind) ≡ some t.image_reference
        → t.use_http ≡ rule.insecure
        → t.task_type ≡ remapped_type rule.location task.task_type
        → IsLast behind rule task t

  -- Why a task is tried for one of the first tasks.
  pub data IsFrom (task t : ImagePullTask Reference) : Type 0 where
    original :
        All (Misses (oci.to_string task.image_reference)) self.config.registry
        → t ≡ task
        → IsFrom task t
    mirror_of :
        (n : ℕ) (rule : Registry)
        → IsChosen (oci.to_string task.image_reference) self.config.registry n rule
        → rule.blocked ≡ false
        → Any (λ m. IsMirrored (drop n (oci.to_string task.image_reference)) m t) rule.mirror
        → IsFrom task t
    last_of :
        (n : ℕ) (rule : Registry)
        → IsChosen (oci.to_string task.image_reference) self.config.registry n rule
        → rule.blocked ≡ false
        → IsLast (drop n (oci.to_string task.image_reference)) rule task t
        → IsFrom task t

  mirror_tasks-IsMirrored :
      (behind : Str) (mirrors : List Mirror) (tasks : List (ImagePullTask Reference))
      → mirror_tasks oci behind mirrors ≡ ok tasks
      → All (λ t. Any (λ m. IsMirrored behind m t) mirrors) tasks
  unfolding mirror_tasks
  mirror_tasks-IsMirrored behind [] tasks h =
      subst (All (λ t. Any (λ m. IsMirrored behind m t) [])) (ok_inj _ _ h) tt
  mirror_tasks-IsMirrored behind (m ∷ mirrors) tasks h =
      let (image, parsed, begun) =
        >>=-eq-ok (ok_or (oci.from_str (m.location ++ behind)) illegal_reference) _ h in
      let (rest, others, last) = >>=-eq-ok (mirror_tasks oci behind mirrors) _ begun in
      subst (All (λ t. Any (λ m. IsMirrored behind m t) (m ∷ mirrors))) (ok_inj _ _ last) (
        here (ok_or-eq-ok (oci.from_str (m.location ++ behind)) _ _ parsed, refl, refl),
        All-map (λ t. Any (λ m. IsMirrored behind m t) mirrors)
            (λ t. Any (λ m. IsMirrored behind m t) (m ∷ mirrors)) (λ t. there) rest
            (mirror_tasks-IsMirrored behind mirrors rest others),
      )

  remapping_task-IsLast :
      (behind : Str) (rule : Registry) (task t : ImagePullTask Reference)
      → remapping_task oci behind rule task ≡ ok t
      → IsLast behind rule task t
  unfolding remapping_task
  remapping_task-IsLast behind rule task t h = elim (Bool-cases (is_empty rule.location)) [
    | inl empty ↦ kept empty (ground (arith, empty, h))
    | inr set ↦
        let (image, parsed, last) =
          >>=-eq-ok (ok_or (oci.from_str (rule.location ++ behind)) illegal_reference) _
            (sym (remapping_task_set oci self behind rule task set) ∙ h) in
        subst (IsLast behind rule task) (ok_inj _ _ last)
          (moved set (ok_or-eq-ok (oci.from_str (rule.location ++ behind)) _ _ parsed) refl refl)
  ]

  registry_tasks-IsFrom :
      (task : ImagePullTask Reference) (tasks : List (ImagePullTask Reference))
      → registry_tasks oci self task ≡ ok tasks
      → All (IsFrom task) tasks
  unfolding registry_tasks
  registry_tasks-IsFrom task tasks h =
      let reference = oci.to_string task.image_reference in
      let rules = self.config.registry in
      elim (Option-cases (longest (matching reference rules))) [
        | inl nothing ↦
            subst (All (IsFrom task)) (ok_inj _ _ (sym (unmatched_tasks oci self task nothing) ∙ h))
              (original (longest-eq-none reference rules nothing) refl, tt)
        | inr ((n, rule), found) ↦
            let chosen = (longest_iff reference rules n rule).0 found in
            elim (Bool-cases rule.blocked) [
              | inl blocked ↦
                  subst (All (IsFrom task))
                    (ok_inj _ _ (sym (blocked_tasks oci self task n rule found blocked) ∙ h)) tt
              | inr free ↦
                  let (mirrors, made, begun) =
                    >>=-eq-ok (mirror_tasks oci (drop n reference) rule.mirror) _
                      (sym (free_tasks oci self task n rule found free) ∙ h) in
                  let (t, remade, last) =
                    >>=-eq-ok (remapping_task oci (drop n reference) rule task) _ begun in
                  subst (All (IsFrom task)) (ok_inj _ _ last) (
                    All-append (IsFrom task) mirrors (t ∷ [])
                      (All-map (λ m. Any (λ r. IsMirrored (drop n reference) r m) rule.mirror)
                        (IsFrom task) (λ m here. mirror_of n rule chosen free here) mirrors
                        (mirror_tasks-IsMirrored (drop n reference) rule.mirror mirrors made))
                      (
                        last_of n rule chosen free
                            (remapping_task-IsLast (drop n reference) rule task t remade),
                        tt,
                      ))
            ]
      ]

  handle_registry_tasks-IsFrom :
      (originals tasks : List (ImagePullTask Reference))
      → handle_registry_tasks oci self originals ≡ ok tasks
      → All (λ t. Any (λ task. IsFrom task t) originals) tasks
  unfolding handle_registry_tasks
  handle_registry_tasks-IsFrom [] tasks h =
      subst (All (λ t. Any (λ task. IsFrom task t) [])) (ok_inj _ _ h) tt
  handle_registry_tasks-IsFrom (task ∷ originals) tasks h =
      let (front, one, begun) = >>=-eq-ok (registry_tasks oci self task) _ h in
      let (rest, others, last) = >>=-eq-ok (handle_registry_tasks oci self originals) _ begun in
      let P : ImagePullTask Reference → Type 0 = λ t. Any (λ o. IsFrom o t) (task ∷ originals) in
      subst (All P) (ok_inj _ _ last) (
        All-append P front rest
          (All-map (IsFrom task) P (λ t. here) front (registry_tasks-IsFrom task front one))
          (All-map (λ t. Any (λ o. IsFrom o t) originals) P (λ t. there) rest
            (handle_registry_tasks-IsFrom originals rest others)))

  -- When a handler gives tasks for an image, there are some, and each is for one of the first
  -- tasks: as it is if no rule matches that, and otherwise by the last of the rules that match the
  -- most, which does not block: at a mirror or the location of that rule, put in place of the
  -- matched text, or as it is if the rule has no location.
  pub process-IsFrom :
      (image_reference : Reference) (tasks : List (ImagePullTask Reference))
      → process oci self image_reference ≡ ok tasks
      → (is_empty tasks ≡ false)
        × All (λ t. Any (λ task. IsFrom task t) (first_tasks oci self image_reference)) tasks
  unfolding process
  process-IsFrom image_reference tasks h =
      let (final_tasks, made, last) =
        >>=-eq-ok (handle_registry_tasks oci self (first_tasks oci self image_reference)) _ h in
      elim (Bool-cases (is_empty final_tasks)) [
        | inl empty ↦ absurd (ground (arith, empty, last))
        | inr some_task ↦
            let same = ok_inj final_tasks tasks (sym (rw some_task refl) ∙ last) in
            (rw (← same) some_task, rw (← same) (handle_registry_tasks-IsFrom _ final_tasks made))
      ]
