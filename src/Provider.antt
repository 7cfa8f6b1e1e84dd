-- ===== src/Provider.antt =====
-- pkg/provider/macosvz.go: what the virtual kubelet asks of the provider. The results of the client
-- of the groups, of the lister of the pods and of the Kubernetes client are arguments, and the calls
-- that change something outside are part of the results.
pub mod Credentials
pub mod Statuses
pub mod CpuLabel
pub mod Deletions
mod Examples
use mac_os_vz_kubelet.Common.{
  ℕ, String, Bool, true, false, ◌&&◌, ◌||◌, Option, none, some, List, [], ◌∷◌, ◌++◌, map, keep,
  is_some, or_else, ltb, not, if◌then◌else◌, GoError, text, invalid_input, ◌⊎◌, inl, inr,
  NamespacedName, namespaced_name_comparable,
}
use mac_os_vz_kubelet.Store.Assoc.{load_entry}
use mac_os_vz_kubelet.Status.Types.{VirtualizationGroup, Pod, PodPhase, PodStatus}
use mac_os_vz_kubelet.Status.Pod.{build_pod_status}
use mac_os_vz_kubelet.Status.Phase.Ended.{has_ended}
use mac_os_vz_kubelet.VzClient.Creations.{first_error}
use mac_os_vz_kubelet.VzClient.Groups.{ListedGroup, Groups}

-- A pod as the lister has it.
pub record ListedPod : Type 0 where
  pub pod : Pod
  pub deletion_timestamp : Option ℕ

abbrev pub default_delete_vz_group_grace_period_seconds : ℕ
default_delete_vz_group_grace_period_seconds = 10

module _ (hash : String → String) (node_ip : String) where
  abbrev pub status_of : VirtualizationGroup → Pod → PodStatus
  status_of = build_pod_status hash node_ip

  -- With the grace periods of the deletions that it asks for; their errors are logged.
  unfoldable pub get_pod_status :
      GoError ⊎ VirtualizationGroup → GoError ⊎ ListedPod → (GoError ⊎ PodStatus) × List ℕ
  get_pod_status (inl e) listed = (inl e, [])
  get_pod_status (inr vg) (inl e) = (inl e, [])
  get_pod_status (inr vg) (inr p) =
      let ps = status_of vg p.pod in
      (
        inr ps,
        if not (is_some p.deletion_timestamp) && has_ended ps.phase
            then default_delete_vz_group_grace_period_seconds ∷ []
            else [],
      )

  unfoldable pub virtualization_group_to_pod :
      VirtualizationGroup → GoError ⊎ Pod → GoError ⊎ (Pod × PodStatus)
  virtualization_group_to_pod vg (inl e) = inl e
  virtualization_group_to_pod vg (inr pod) = inr (pod, status_of vg pod)

  -- `deletion` is what DeleteVirtualizationGroup returns. A pod that is `none` is nil.
  unfoldable pub get_pod :
      GoError ⊎ VirtualizationGroup
      → GoError ⊎ Pod
      → Option GoError
      → (Option (Pod × PodStatus) × Option GoError) × List ℕ
  unfolding virtualization_group_to_pod
  get_pod (inl e) listed deletion = ((none, some e), [])
  get_pod (inr vg) listed deletion = elim (virtualization_group_to_pod vg listed) [
    | inl e ↦ ((none, deletion), default_delete_vz_group_grace_period_seconds ∷ [])
    | inr p ↦ ((some p, none), [])
  ]

  -- The body of the loop of GetPods; `none` is a panic, the call of a method of a nil interface.
  unfoldable pub listed_to_pod : ListedGroup → GoError ⊎ Pod → Option (GoError ⊎ (Pod × PodStatus))
  unfolding virtualization_group_to_pod
  listed_to_pod g (inl e) = some (inl e)
  listed_to_pod g (inr pod) = elim g.virtual_machine [
    | none ↦ none
    | some vm ↦ some (
        virtualization_group_to_pod
          (record { containers = g.containers; macos_virtual_machine = vm }) (inr pod))
  ]

  -- The loop, which ranges over the keys in any order.
  unfoldable pub range_groups :
      (NamespacedName → GoError ⊎ Pod)
      → Groups
      → List NamespacedName
      → Option (GoError ⊎ List (Pod × PodStatus))
  unfolding listed_to_pod
  range_groups lister groups [] = some (inr [])
  range_groups lister groups (k ∷ ks) = elim (load_entry k groups) [
    | none ↦ range_groups lister groups ks
    | some g ↦ elim (listed_to_pod g (lister k)) [
      | none ↦ none
      | some (inl e) ↦ some (inl e)
      | some (inr p) ↦ elim (range_groups lister groups ks) [
        | none ↦ none
        | some (inl e) ↦ some (inl e)
        | some (inr ps) ↦ some (inr (p ∷ ps))
      ]
    ]
  ]

  unfoldable pub get_pods :
      (NamespacedName → GoError ⊎ Pod)
      → Groups × Option GoError
      → List NamespacedName
      → Option (GoError ⊎ List (Pod × PodStatus))
  unfolding range_groups
  get_pods lister (groups, some e) keys = some (inl e)
  get_pods lister (groups, none) keys = range_groups lister groups keys

-- A pre-stop hook, with the name of its container.
pub record Hook : Type 0 where
  pub container : String
  pub command : List String

-- What handleDeletePod reads of a pod. A container has the command of its pre-stop hook, if that is
-- an exec hook.
pub record PodDeletion : Type 0 where
  pub is_running : Bool
  pub grace_period : Option ℕ
  pub containers : List (String × Option (List String))

unfoldable pub hooks_of : List (String × Option (List String)) → List Hook
hooks_of [] = []
hooks_of ((name, none) ∷ cs) = hooks_of cs
hooks_of ((name, some command) ∷ cs) = record { container = name; command = command } ∷ hooks_of cs

-- The calls of a deletion: ExecuteContainerCommand for a hook, the event of its failure,
-- DeleteVirtualizationGroup with a grace period, and the deletion of the pod from Kubernetes.
pub data DeletionAct : Type 0 where
  run_hook : Hook → DeletionAct
  failed_pre_stop_hook : Hook → DeletionAct
  delete_group : ℕ → DeletionAct
  delete_pod : DeletionAct

-- `run` is ExecuteContainerCommand with the time that is left.
module _ (run : Hook → Option GoError) where
  -- The calls of the goroutines of the hooks, in the order in which the hooks end.
  unfoldable pub hook_acts : List Hook → List DeletionAct
  hook_acts [] = []
  hook_acts (h ∷ ended) =
      run_hook h
      ∷ (if is_some (run h) then failed_pre_stop_hook h ∷ hook_acts ended else hook_acts ended)

  -- The hooks run in goroutines that the errgroup waits for; `ended` has them in the order in which
  -- they end, and a call stands where it returns.
  unfoldable pub handle_pre_stop_hooks : List Hook → Option GoError × List DeletionAct
  unfolding hook_acts
  handle_pre_stop_hooks ended = (first_error (map run ended), hook_acts ended)

  abbrev pub grace_of : PodDeletion → ℕ
  grace_of pod = or_else pod.grace_period 0

  abbrev pub runs_hooks : PodDeletion → Bool
  runs_hooks pod = pod.is_running && ltb 0 (grace_of pod)

  -- `deletion` is what DeleteVirtualizationGroup returns.
  unfoldable pub handle_delete_pod : PodDeletion → List Hook → Option GoError → List DeletionAct
  unfolding handle_pre_stop_hooks
  handle_delete_pod pod ended deletion =
      let (hook_err, acts) = if runs_hooks pod then handle_pre_stop_hooks ended else (none, []) in
      acts
      ++ delete_group (grace_of pod)
        ∷ (if is_some deletion || is_some hook_err then [] else delete_pod ∷ [])

-- With the error that is recorded as an event. `create` is CreateVirtualizationGroup, with what the
-- two resolutions give.
unfoldable pub create_pod :
    {C S : Type 0}
    → GoError ⊎ C
    → GoError ⊎ S
    → (C → S → Option GoError)
    → Option GoError × List GoError
create_pod (inl e) registry create = (some e, [])
create_pod (inr c) (inl e) create = (some (invalid_input e), e ∷ [])
create_pod (inr c) (inr s) create = (create c s, [])
