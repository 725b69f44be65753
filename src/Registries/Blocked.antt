-- ===== src/Registries/Blocked.antt =====
-- When a handler refuses an image as blocked.
use guest_components.Prelude.{
  ℕ, ◌≡◌, ◌↔◌, ◌≢◌, >>=-eq-err, inl, inr, refl, sym, ap, ◌∙◌, true, Option, none, some, List, [],
  ◌∷◌, ◌++◌, Str, is_empty, drop, if◌then◌else◌, Bool-cases, Option-cases, All, ok_inj, ok, err,
  >>=-eq-ok, ok_or, arith,
}
use guest_components.Registries.Config.{
  ImagePullTask, References, Mirror, Registry, RegistryError, illegal_reference, blocked_by_rule,
}
use guest_components.Registries.Handler.{
  RegistryHandler, matching, longest, first_tasks, mirror_tasks, remapping_task, registry_tasks,
  handle_registry_tasks, process,
}
use guest_components.Registries.Longest.{IsChosen, longest_iff}
use guest_components.Registries.Steps.{
  remapping_task_set, unmatched_tasks, blocked_tasks, free_tasks,
}

refused :
    {A : Type 0} (tasks : List A)
    → (if is_empty tasks then err blocked_by_rule else ok tasks) ≡ err blocked_by_rule
    → tasks ≡ []
unfolding is_empty
refused [] h = refl
refused (t ∷ tasks) h = cc

ok_or-eq-err :
    {A : Type 0} (o : Option A) {e : RegistryError}
    → ok_or o illegal_reference ≡ err e
    → e ≡ illegal_reference
ok_or-eq-err none h = cc
ok_or-eq-err (some a) h = cc

snoc_ne : {A : Type 0} (xs : List A) (x : A) → (xs ++ (x ∷ [])) ≢ []
snoc_ne [] x h = cc
snoc_ne (y ∷ xs) x h = cc

append-eq-nil : {A : Type 0} (xs ys : List A) → xs ++ ys ≡ [] → (xs ≡ []) × (ys ≡ [])
append-eq-nil [] ys h = (refl, h)
append-eq-nil (x ∷ xs) ys h = cc

module _ {Reference : Type 0} (oci : References Reference) (self : RegistryHandler) where
  -- A rule that blocks is the one to apply.
  abbrev pub IsBlocked : ImagePullTask Reference → Type 0
  IsBlocked task =
      (n : ℕ) × (rule : Registry) × IsChosen (oci.to_string task.image_reference)
        self.config.registry n rule
      × (rule.blocked ≡ true)

  registry_tasks-IsBlocked :
      (task : ImagePullTask Reference) → (registry_tasks oci self task ≡ ok []) ↔ IsBlocked task
  unfolding registry_tasks
  registry_tasks-IsBlocked task =
      let reference = oci.to_string task.image_reference in
      let rules = self.config.registry in
      (
        λ h. elim (Option-cases (longest (matching reference rules))) [
          | inl nothing ↦
              (let same : ◌≡◌ {A = List (ImagePullTask Reference)} (task ∷ []) [] =
                  ok_inj _ _ (sym (unmatched_tasks oci self task nothing) ∙ h) in
                cc)
          | inr ((n, rule), found) ↦ elim (Bool-cases rule.blocked) [
            | inl blocked ↦ (n, rule, (longest_iff reference rules n rule).0 found, blocked)
            | inr free ↦
                let (mirrors, made, begun) =
                  >>=-eq-ok (mirror_tasks oci (drop n reference) rule.mirror) _
                    (sym (free_tasks oci self task n rule found free) ∙ h) in
                let (t, remade, last) =
                  >>=-eq-ok (remapping_task oci (drop n reference) rule task) _ begun in
                absurd (snoc_ne mirrors t (ok_inj _ _ last))
          ]
        ],
        λ b.
            let (n, rule, chosen, blocked) = b in
            blocked_tasks oci self task n rule ((longest_iff reference rules n rule).1 chosen)
              blocked,
      )

  mirror_tasks-eq-err :
      (behind : Str) (mirrors : List Mirror) (e : RegistryError)
      → mirror_tasks oci behind mirrors ≡ err e
      → e ≡ illegal_reference
  unfolding mirror_tasks
  mirror_tasks-eq-err behind [] e h = cc
  mirror_tasks-eq-err behind (m ∷ mirrors) e h =
      elim (>>=-eq-err (ok_or (oci.from_str (m.location ++ behind)) illegal_reference) _ h) [
        | inl first ↦ ok_or-eq-err (oci.from_str (m.location ++ behind)) first
        | inr (image, parsed, later) ↦ elim (>>=-eq-err (mirror_tasks oci behind mirrors) _ later) [
          | inl others ↦ mirror_tasks-eq-err behind mirrors e others
          | inr (rest, all, last) ↦ cc
        ]
      ]

  remapping_task-eq-err :
      (behind : Str) (rule : Registry) (task : ImagePullTask Reference) (e : RegistryError)
      → remapping_task oci behind rule task ≡ err e
      → e ≡ illegal_reference
  unfolding remapping_task
  remapping_task-eq-err behind rule task e h = elim (Bool-cases (is_empty rule.location)) [
    | inl empty ↦ absurd (ground (arith, empty, h))
    | inr set ↦
        elim (>>=-eq-err (ok_or (oci.from_str (rule.location ++ behind)) illegal_reference) _
          (sym (remapping_task_set oci self behind rule task set) ∙ h)) [
            | inl first ↦ ok_or-eq-err (oci.from_str (rule.location ++ behind)) first
            | inr (image, parsed, last) ↦ cc
          ]
  ]

  registry_tasks-eq-err :
      (task : ImagePullTask Reference) (e : RegistryError)
      → registry_tasks oci self task ≡ err e
      → e ≡ illegal_reference
  registry_tasks-eq-err task e h =
      let reference = oci.to_string task.image_reference in
      elim (Option-cases (longest (matching reference self.config.registry))) [
        | inl nothing ↦ let same = sym (unmatched_tasks oci self task nothing) ∙ h in cc
        | inr ((n, rule), found) ↦ elim (Bool-cases rule.blocked) [
          | inl blocked ↦
              let same = sym (blocked_tasks oci self task n rule found blocked) ∙ h in cc
          | inr free ↦
              elim (>>=-eq-err (mirror_tasks oci (drop n reference) rule.mirror) _
                (sym (free_tasks oci self task n rule found free) ∙ h)) [
                  | inl first ↦ mirror_tasks-eq-err (drop n reference) rule.mirror e first
                  | inr (mirrors, made, later) ↦
                      elim (>>=-eq-err (remapping_task oci (drop n reference) rule task) _ later) [
                        | inl second ↦ remapping_task-eq-err (drop n reference) rule task e second
                        | inr (t, remade, last) ↦ cc
                      ]
                ]
        ]
      ]

  handle_registry_tasks-eq-err :
      (originals : List (ImagePullTask Reference)) (e : RegistryError)
      → handle_registry_tasks oci self originals ≡ err e
      → e ≡ illegal_reference
  unfolding handle_registry_tasks
  handle_registry_tasks-eq-err [] e h = cc
  handle_registry_tasks-eq-err (task ∷ originals) e h =
      elim (>>=-eq-err (registry_tasks oci self task) _ h) [
        | inl first ↦ registry_tasks-eq-err task e first
        | inr (tasks, made, later) ↦
            elim (>>=-eq-err (handle_registry_tasks oci self originals) _ later) [
              | inl others ↦ handle_registry_tasks-eq-err originals e others
              | inr (rest, all, last) ↦ cc
            ]
      ]

  handle_registry_tasks-IsBlocked :
      (originals : List (ImagePullTask Reference))
      → (handle_registry_tasks oci self originals ≡ ok []) ↔ All IsBlocked originals
  unfolding handle_registry_tasks
  handle_registry_tasks-IsBlocked [] = (λ h. tt, λ h. refl)
  handle_registry_tasks-IsBlocked (task ∷ originals) = (
    λ h.
        let (front, one, begun) = >>=-eq-ok (registry_tasks oci self task) _ h in
        let (rest, others, last) = >>=-eq-ok (handle_registry_tasks oci self originals) _ begun in
        let (no_front, no_rest) = append-eq-nil front rest (ok_inj _ _ last) in
        (
          (registry_tasks-IsBlocked task).0 (one ∙ ap ok no_front),
          (handle_registry_tasks-IsBlocked originals).0 (others ∙ ap ok no_rest),
        ),
    λ b.
        rw ((registry_tasks-IsBlocked task).1 b.0)
          (rw ((handle_registry_tasks-IsBlocked originals).1 b.1) refl),
  )

  -- An image is refused as blocked exactly if, for each of its first tasks, the last of the rules
  -- that match the most blocks.
  pub process-IsBlocked :
      (image_reference : Reference)
      → (process oci self image_reference ≡ err blocked_by_rule)
        ↔ All IsBlocked (first_tasks oci self image_reference)
  unfolding process is_empty
  process-IsBlocked image_reference =
      let originals = first_tasks oci self image_reference in
      (
        λ h. elim (>>=-eq-err (handle_registry_tasks oci self originals) _ h) [
          | inl failed ↦
              let other = handle_registry_tasks-eq-err originals blocked_by_rule failed in
              absurd (ground (arith, other))
          | inr (tasks, made, last) ↦
              (handle_registry_tasks-IsBlocked originals).0 (made ∙ ap ok (refused tasks last))
        ],
        λ b. rw ((handle_registry_tasks-IsBlocked originals).1 b) refl,
      )
