-- ===== src/Status/Pod/Gate.antt =====
-- How the post-start gate shows in the status that buildPodStatus returns.
use mac_os_vz_kubelet.Common.{
  ℕ, ◌≡◌, refl, sym, ◌∙◌, ◌≢◌, ◌↔◌, String, Bool, true, false, Option, none, some, List, [], ◌∷◌,
  ◌++◌, all, is_some, is_blank, if◌then◌else◌, arith, ap, Option-cases, inl, inr,
}
use mathlib.Core.List.{append_assoc, append-nil}
use mac_os_vz_kubelet.Resource.VirtualMachine as Vm
use mac_os_vz_kubelet.Resource.VirtualMachine.{VirtualMachineState}
use mac_os_vz_kubelet.Status.Types.{
  VirtualizationGroup, Pod, ContainerSpec, ContainerStatusReport, PodCondition, ConditionType,
}
use mac_os_vz_kubelet.Status.ContainerStates.{get_container_with_name}
use mac_os_vz_kubelet.Status.Conditions.{get_pod_conditions}
use mac_os_vz_kubelet.Status.Conditions.Readiness.{condition_flags_lem}
use mac_os_vz_kubelet.Status.Phase.Decision.{IsActive, is_tolerated}
use mac_os_vz_kubelet.Status.Pod.{
  LoopState, macos_round, sidecar_round, sidecar_rounds, container_rounds, loop_start,
  build_pod_status, sidecar_report,
}

abbrev is_ready_type : ConditionType → Bool
is_ready_type ConditionType.ready = true
is_ready_type _ = false

-- The Ready condition of a status.
abbrev pub ready_condition : List PodCondition → Option PodCondition
ready_condition [] = none
ready_condition (c ∷ cs) = if is_ready_type c.type then some c else ready_condition cs

-- What the Ready condition holds, for the virtual machine of the group.
abbrev pub IsReadyCondition : VirtualizationGroup → PodCondition → Type 0
IsReadyCondition vg k =
    ((k.status ≡ true) ↔ (
      IsActive vg
      × (vg.macos_virtual_machine.post_start_finished ≢ 0)
      × (all is_tolerated vg.containers ≡ true)))
    × (k.status ≡ true → k.last_transition ≡ vg.macos_virtual_machine.post_start_finished)

get_pod_conditions-IsReadyCondition :
    (vg : VirtualizationGroup) (creation first last : ℕ) (satisfied : Bool) (post : Option ℕ)
    → satisfied ≡ is_some post
    → post ≡ Vm.post_start_finished_at vg.macos_virtual_machine
    → (k : PodCondition) × (ready_condition
          (get_pod_conditions vg creation first last satisfied post)
        ≡ some k)
      × IsReadyCondition vg k
unfolding get_pod_conditions Vm.post_start_finished_at
get_pod_conditions-IsReadyCondition vg creation first last satisfied post e p = (
  _,
  refl,
  (
    ground (arith, condition_flags_lem vg satisfied),
    ground (arith, condition_flags_lem vg satisfied),
  ),
)

module _ (hash : String → String) (vg : VirtualizationGroup) (pod : Pod) where
  sidecar_round-gate :
      (c : ContainerSpec) (s : LoopState)
      → ((sidecar_round hash vg pod c s).satisfied ≡ s.satisfied)
        × ((sidecar_round hash vg pod c s).post_start ≡ s.post_start)
  unfolding sidecar_round
  sidecar_round-gate c s = ground arith

  sidecar_rounds-gate :
      (cs : List ContainerSpec) (s : LoopState)
      → ((sidecar_rounds hash vg pod cs s).satisfied ≡ s.satisfied)
        × ((sidecar_rounds hash vg pod cs s).post_start ≡ s.post_start)
  unfolding sidecar_rounds
  sidecar_rounds-gate [] s = (refl, refl)
  sidecar_rounds-gate (c ∷ cs) s =
      let (p, q) = sidecar_round-gate c s in
      let (p', q') = sidecar_rounds-gate cs (sidecar_round hash vg pod c s) in (p' ∙ p, q' ∙ q)

  -- The Ready condition of a pod with a macOS container is true exactly when the virtual machine
  -- is running or terminating, its post-start time is set, and no container of the group is
  -- paused, restarting, OOM-killed, dead or unknown; its transition time is then the post-start
  -- time.
  pub build_pod_status-ready :
      (node_ip : String) (c : ContainerSpec) (cs : List ContainerSpec)
      → pod.containers ≡ c ∷ cs
      → (k : PodCondition) × (ready_condition (build_pod_status hash node_ip vg pod).conditions
          ≡ some k)
        × IsReadyCondition vg k
  unfolding build_pod_status container_rounds macos_round
  build_pod_status-ready node_ip c cs e =
      let (p, q) =
        sidecar_rounds-gate cs (macos_round hash vg.macos_virtual_machine pod c loop_start) in
      rw (e, container_rounds)
        (get_pod_conditions-IsReadyCondition vg pod.creation_timestamp _ _ _ _
          (p ∙ ap is_some (sym q)) q)

  sidecar_round-statuses :
      (c : ContainerSpec) (s : LoopState)
      → (more : List ContainerStatusReport) × ((sidecar_round hash vg pod c s).statuses
          ≡ s.statuses ++ more)
  unfolding sidecar_round
  sidecar_round-statuses c s = elim (Option-cases (get_container_with_name c.name vg.containers)) [
    | inl e ↦ ([], rw (e, sidecar_round) (sym (append-nil _)))
    | inr (k, e) ↦ (sidecar_report hash pod c k ∷ [], rw (e, sidecar_round) refl)
  ]

  sidecar_rounds-statuses :
      (cs : List ContainerSpec) (s : LoopState)
      → (more : List ContainerStatusReport) × ((sidecar_rounds hash vg pod cs s).statuses
          ≡ s.statuses ++ more)
  unfolding sidecar_rounds
  sidecar_rounds-statuses [] s = ([], sym (append-nil _))
  sidecar_rounds-statuses (c ∷ cs) s =
      let (m, p) = sidecar_round-statuses c s in
      let (n, q) = sidecar_rounds-statuses cs (sidecar_round hash vg pod c s) in
      (m ++ n, q ∙ ap (λ l. l ++ n) p ∙ append_assoc s.statuses m n)

  -- The first report of a pod is that of its macOS container. It is ready exactly when the virtual
  -- machine is running and its post-start time is set, and started exactly when the virtual
  -- machine has an IP address and its post-start time is set.
  build_pod_status-macos_report :
      (node_ip : String) (c : ContainerSpec) (cs : List ContainerSpec)
      → pod.containers ≡ c ∷ cs
      → (r : ContainerStatusReport) × (more : List ContainerStatusReport) × ((build_pod_status hash
            node_ip vg pod).container_statuses
          ≡ r ∷ more)
        × (r.name ≡ c.name)
        × ((r.ready ≡ true) ↔ (
            (Vm.state vg.macos_virtual_machine ≡ VirtualMachineState.running)
            × (vg.macos_virtual_machine.post_start_finished ≢ 0)))
        × ((r.started ≡ true) ↔ (
            (is_blank (Vm.ip_address vg.macos_virtual_machine) ≡ false)
            × (vg.macos_virtual_machine.post_start_finished ≢ 0)))
  unfolding build_pod_status container_rounds macos_round Vm.post_start_finished_at
  build_pod_status-macos_report node_ip c cs e =
      let (more, q) =
        sidecar_rounds-statuses cs (macos_round hash vg.macos_virtual_machine pod c loop_start) in
      rw (e, container_rounds) (_, more, q, refl, ground arith, ground arith)
