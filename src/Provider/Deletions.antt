-- ===== src/Provider/Deletions.antt =====
-- What handleDeletePod does with a pod.
use mac_os_vz_kubelet.Common.{
  ℕ, zero, suc, ◌+◌, ◌≡◌, ◌↔◌, ◌⊎◌, refl, Bool, true, false, ◌&&◌, ◌||◌, Option, none, some, List,
  [], ◌∷◌, ◌++◌, map, count, is_some, All, GoError, arith, Option-cases, inl, inr, Bool-cases, ltb,
  if◌then◌else◌, or_else,
}
use mac_os_vz_kubelet.VzClient.Creations.{first_error}
use mac_os_vz_kubelet.Provider.{
  Hook, PodDeletion, DeletionAct, run_hook, failed_pre_stop_hook, delete_group, delete_pod,
  hook_acts, hooks_of, handle_pre_stop_hooks, handle_delete_pod,
}

-- The same hooks, each as often.
abbrev pub IsOrderOf : List Hook → List Hook → Type 0
IsOrderOf ended hooks = (p : Hook → Bool) → count p ended ≡ count p hooks

-- The hooks that a deletion is to run: none, unless the pod is running and has a grace period.
abbrev pub due : Bool → Option ℕ → List Hook → List Hook
due true (some (suc n)) hooks = hooks
due true (some zero) hooks = []
due true none hooks = []
due false grace hooks = []

-- The runs of the hooks that pass the first test, the events of those that pass the second, and every
-- other call.
abbrev pub passes : (Hook → Bool) → (Hook → Bool) → DeletionAct → Bool
passes p q (run_hook h) = p h
passes p q (failed_pre_stop_hook h) = q h
passes p q (delete_group g) = true
passes p q delete_pod = true

due_lem :
    (is_running : Bool) (grace : Option ℕ) (hooks : List Hook)
    → due is_running grace hooks ≡ (if is_running && ltb 0 (or_else grace 0) then hooks else [])
due_lem true (some (suc n)) hooks = ground arith
due_lem true (some zero) hooks = ground arith
due_lem true none hooks = ground arith
due_lem false grace hooks = ground arith

module _ (run : Hook → Option GoError) where
  abbrev fails : Hook → Bool
  fails h = is_some (run h)

  first_error-count : (hs : List Hook) → (first_error (map run hs) ≡ none) ↔ (count fails hs ≡ 0)
  first_error-count [] = ground arith
  first_error-count (h ∷ hs) = elim (Option-cases (run h)) [
    | inl e ↦ ground (arith, first_error-count hs)
    | inr (x, e) ↦ ground arith
  ]

  All-count : (hs : List Hook) → All (λ h. run h ≡ none) hs ↔ (count fails hs ≡ 0)
  All-count [] = ground arith
  All-count (h ∷ hs) = elim (Option-cases (run h)) [
    | inl e ↦ ground (arith, All-count hs)
    | inr (x, e) ↦ ground arith
  ]

  hook_acts-count :
      (p q : Hook → Bool) (hs : List Hook)
      → count (passes p q) (hook_acts run hs) ≡ count p hs + count (λ h. fails h && q h) hs
  unfolding hook_acts
  hook_acts-count p q [] = ground arith
  hook_acts-count p q (h ∷ hs) = elim (Option-cases (run h)) [
    | inl e ↦ ground (arith, hook_acts-count p q hs)
    | inr (x, e) ↦ ground (arith, hook_acts-count p q hs)
  ]

  -- The hooks that are due are run, each as often as it is due, those that fail have an event, and
  -- nothing else is done.
  abbrev pub HooksRun : List Hook → List DeletionAct → Type 0
  HooksRun hooks acts =
      (p q : Hook → Bool)
      → count (passes p q) acts ≡ count p hooks + count (λ h. fails h && q h) hooks

  abbrev pub Succeed : Option GoError → List Hook → Type 0
  Succeed deletion hooks = (deletion ≡ none) × All (λ h. run h ≡ none) hooks

  last_act :
      (hooks ended : List Hook) (deletion : Option GoError)
      → IsOrderOf ended hooks
      → let last =
          if is_some deletion || is_some (first_error (map run ended))
          then []
          else delete_pod ∷ [] in
        (Succeed deletion hooks × (last ≡ delete_pod ∷ []))
        ⊎ ((Succeed deletion hooks → ⊥) × (last ≡ []))
  last_act hooks ended deletion o =
      let p = first_error-count ended in
      let q = All-count hooks in
      let same = o fails in
      elim (Option-cases deletion) [
        | inr (x, e) ↦ inr (λ (d, k). ground arith, rw e refl)
        | inl e ↦ elim (Option-cases (first_error (map run ended))) [
          | inl f ↦ inl ((e, ground (arith, p, q, same, f)), rw (e, f) refl)
          | inr (x, f) ↦ inr (λ (d, k). ground (arith, p, q, same, f, k), rw (e, f) refl)
        ]
      ]

  -- The deletion of a pod first runs the pre-stop hooks and records those that fail, if the pod is
  -- running and has a grace period that is not zero, in any order of their ends. It then deletes the
  -- group, with the grace period of the pod, whatever the hooks have returned. Last it deletes the pod
  -- from Kubernetes, exactly where the group could be deleted and no hook that was run has failed.
  pub handle_delete_pod_lem :
      (pod : PodDeletion) (ended : List Hook) (deletion : Option GoError)
      → IsOrderOf ended (hooks_of pod.containers)
      → let hooks = due pod.is_running pod.grace_period (hooks_of pod.containers) in
        (before : List DeletionAct) × (last : List DeletionAct) × (handle_delete_pod run pod ended
            deletion
          ≡ before ++ delete_group (or_else pod.grace_period 0) ∷ last)
        × HooksRun hooks before
        × ((Succeed deletion hooks × (last ≡ delete_pod ∷ []))
            ⊎ ((Succeed deletion hooks → ⊥) × (last ≡ [])))
  unfolding handle_delete_pod handle_pre_stop_hooks
  handle_delete_pod_lem pod ended deletion o =
      let all_hooks = hooks_of pod.containers in
      elim (Bool-cases (pod.is_running && ltb 0 (or_else pod.grace_period 0))) [
        | inl e ↦
            rw (due_lem pod.is_running pod.grace_period all_hooks, e)
              (
                hook_acts run ended,
                _,
                refl,
                λ p q. ground (arith, hook_acts-count p q ended, o p, o (λ h. fails h && q h)),
                last_act all_hooks ended deletion o,
              )
        | inr e ↦
            rw (due_lem pod.is_running pod.grace_period all_hooks, e)
              ([], _, refl, λ p q. refl, last_act [] [] deletion (λ p. refl))
      ]
