-- ===== src/Status/Pod.antt =====
-- buildPodStatus of pkg/provider/virtualizationgroup_to_pod.go. `hash` stands for what
-- utils.GetContainerID computes of a text: its upper-case form, the SHA-256 digest of that, and the
-- hexadecimal digits of the digest.
pub mod Times
pub mod Gate
use mac_os_vz_kubelet.Common.{
  ℕ, String, ◌<>◌, Bool, true, false, not, ◌&&◌, ◌||◌, Option, none, some, List, [], ◌∷◌, ◌++◌,
  if◌then◌else◌, or_else, is_some, ltb, nat_eq, is_blank,
}
use mac_os_vz_kubelet.Resource.VirtualMachine.{MacOsVirtualMachine, VirtualMachineState}
use mac_os_vz_kubelet.Resource.VirtualMachine as Vm
use mac_os_vz_kubelet.Resource.Container.{Container}
use mac_os_vz_kubelet.Status.Types.{
  VirtualizationGroup, Pod, ContainerSpec, ContainerStatusReport, PodStatus,
}
use mac_os_vz_kubelet.Status.ContainerStates.{
  vm_to_container_state, container_to_container_state, get_container_with_name,
}
use mac_os_vz_kubelet.Status.Phase.{get_pod_phase, is_running}
use mac_os_vz_kubelet.Status.Conditions.{get_pod_conditions}

-- The variables of buildPodStatus that its loop assigns.
pub record LoopState : Type 0 where
  pub first_start : ℕ
  pub last_update : ℕ
  pub statuses : List ContainerStatusReport
  pub satisfied : Bool
  pub post_start : Option ℕ

abbrev pub is_vm_running : VirtualMachineState → Bool
is_vm_running VirtualMachineState.running = true
is_vm_running _ = false

-- utils.GetContainerID
abbrev pub get_container_id : (String → String) → String → String → String
get_container_id hash protocol name = protocol <> "://" <> hash ("containers/" <> name)

-- `firstContainerStartTime` after a sidecar with the given start.
abbrev pub earlier_start : ℕ → ℕ → ℕ
earlier_start start first =
    if not (nat_eq start 0) && (ltb start first || nat_eq first 0) then start else first

-- `lastUpdateTime` after a sidecar with the given start and finish.
abbrev pub later_update : ℕ → ℕ → ℕ → ℕ
later_update start finish last =
    let last' = if ltb last start then start else last in
    if not (nat_eq finish 0) && (ltb last' finish || nat_eq last' 0) then finish else last'

-- The variables before the loop.
abbrev pub loop_start : LoopState
loop_start = record {
  first_start = 0;
  last_update = 0;
  statuses = [];
  satisfied = true;
  post_start = none;
}

module _ (hash : String → String) where
  -- The first round of the loop, for the macOS container.
  unfoldable pub macos_round : MacOsVirtualMachine → Pod → ContainerSpec → LoopState → LoopState
  macos_round vm pod c s =
      let post_start = Vm.post_start_finished_at vm in
      let satisfied = is_some post_start in
      record {
        first_start = or_else (Vm.started_at vm) s.first_start;
        last_update = or_else (Vm.finished_at vm) (or_else (Vm.started_at vm) s.last_update);
        statuses =
            s.statuses
            ++ record {
              name = c.name;
              state = vm_to_container_state vm pod.creation_timestamp;
              ready = is_vm_running (Vm.state vm) && satisfied;
              started = not (is_blank (Vm.ip_address vm)) && satisfied;
              image = c.image;
              container_id = get_container_id hash "vz" c.name;
            }
              ∷ [];
        satisfied = satisfied;
        post_start = post_start;
      }

  abbrev pub sidecar_report : Pod → ContainerSpec → Container → ContainerStatusReport
  sidecar_report pod c k = record {
    name = c.name;
    state = container_to_container_state k pod.creation_timestamp;
    ready = is_running k.state.status;
    started = is_running k.state.status;
    image = c.image;
    container_id = get_container_id hash "docker" c.name;
  }

  -- A later round: a container that the group lacks is skipped.
  unfoldable pub sidecar_round : VirtualizationGroup → Pod → ContainerSpec → LoopState → LoopState
  sidecar_round vg pod c s = elim (get_container_with_name c.name vg.containers) [
    | none ↦ s
    | some k ↦ record s {
      first_start = earlier_start k.state.started_at s.first_start;
      last_update = later_update k.state.started_at k.state.finished_at s.last_update;
      statuses = s.statuses ++ sidecar_report pod c k ∷ [];
    }
  ]

  unfoldable pub sidecar_rounds :
      VirtualizationGroup → Pod → List ContainerSpec → LoopState → LoopState
  sidecar_rounds vg pod [] s = s
  sidecar_rounds vg pod (c ∷ cs) s = sidecar_rounds vg pod cs (sidecar_round vg pod c s)

  unfoldable pub container_rounds :
      VirtualizationGroup → Pod → List ContainerSpec → LoopState → LoopState
  container_rounds vg pod [] s = s
  container_rounds vg pod (c ∷ cs) s =
      sidecar_rounds vg pod cs (macos_round vg.macos_virtual_machine pod c s)

  unfoldable pub build_pod_status : String → VirtualizationGroup → Pod → PodStatus
  build_pod_status node_ip vg pod =
      let s = container_rounds vg pod pod.containers loop_start in
      record {
        phase = get_pod_phase vg;
        conditions =
            get_pod_conditions vg pod.creation_timestamp s.first_start s.last_update s.satisfied
              s.post_start;
        host_ip = node_ip;
        pod_ip = Vm.ip_address vg.macos_virtual_machine;
        start_time = if nat_eq s.first_start 0 then none else some s.first_start;
        container_statuses = s.statuses;
      }
