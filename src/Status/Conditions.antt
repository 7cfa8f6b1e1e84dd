-- ===== src/Status/Conditions.antt =====
-- getPodConditionsFromVirtualizationGroup of pkg/provider/virtualizationgroup_to_pod.go.
pub mod Readiness
use mac_os_vz_kubelet.Common.{ℕ, Bool, true, false, Option, List, [], ◌∷◌, if◌then◌else◌, or_else}
use mac_os_vz_kubelet.Resource.VirtualMachine.{VirtualMachineState}
use mac_os_vz_kubelet.Resource.VirtualMachine as Vm
use mac_os_vz_kubelet.Resource.Container.{Container, ContainerStatus}
use mac_os_vz_kubelet.Status.Types.{VirtualizationGroup, PodCondition, ConditionType}

-- The statuses of the Initialized and the Ready condition, and `allContainersRunning`.
pub record Flags : Type 0 where
  pub initialized : Bool
  pub ready : Bool
  pub all_running : Bool

-- The body of the loop over the containers. A waiting or created container clears the two
-- statuses, and leaves `allContainersRunning` as it is.
unfoldable pub container_flags : ContainerStatus → Flags → Flags
container_flags ContainerStatus.waiting f = record f { initialized = false; ready = false }
container_flags ContainerStatus.created f = record f { initialized = false; ready = false }
container_flags ContainerStatus.running f = f
container_flags ContainerStatus.oom_killed f = record {
  initialized = false;
  ready = false;
  all_running = false;
}
container_flags ContainerStatus.unknown f = record {
  initialized = false;
  ready = false;
  all_running = false;
}
container_flags _ f = record f { all_running = false }

unfoldable pub loop_flags : Flags → List Container → Flags
unfolding container_flags
loop_flags f [] = f
loop_flags f (c ∷ cs) = loop_flags (container_flags c.state.status f) cs

-- The case of a terminating or running virtual machine.
active_flags : Bool → List Container → Flags
unfolding loop_flags
active_flags satisfied cs =
    let f = loop_flags (record { initialized = false; ready = false; all_running = true }) cs in
    let g = if f.all_running then record f { initialized = true; ready = true } else f in
    if satisfied then g else record g { ready = false }

abbrev flags_of : Bool → Bool → Flags
flags_of i r = record { initialized = i; ready = r; all_running = true }

flags_switch : VirtualMachineState → Bool → List Container → Flags
unfolding active_flags
flags_switch VirtualMachineState.preparing satisfied cs = flags_of false false
flags_switch VirtualMachineState.starting satisfied cs = flags_of false false
flags_switch VirtualMachineState.terminated satisfied cs = flags_of true false
flags_switch VirtualMachineState.failed satisfied cs = flags_of false false
flags_switch VirtualMachineState.terminating satisfied cs = active_flags satisfied cs
flags_switch VirtualMachineState.running satisfied cs = active_flags satisfied cs

unfoldable pub condition_flags : VirtualizationGroup → Bool → Flags
unfolding flags_switch
condition_flags vg satisfied =
    flags_switch (Vm.state vg.macos_virtual_machine) satisfied vg.containers

-- The Ready transition is stamped with the post-start time once the condition holds.
abbrev pub ready_transition : Bool → Option ℕ → ℕ → ℕ
ready_transition r post_start last_update =
    if r then or_else post_start last_update else last_update

unfoldable pub get_pod_conditions :
    VirtualizationGroup → ℕ → ℕ → ℕ → Bool → Option ℕ → List PodCondition
get_pod_conditions vg creation first_start last_update satisfied post_start =
    let f = condition_flags vg satisfied in
    record { type = ConditionType.pod_scheduled; status = true; last_transition = creation }
    ∷ record {
      type = ConditionType.initialized;
      status = f.initialized;
      last_transition = first_start;
    }
    ∷ record {
      type = ConditionType.ready;
      status = f.ready;
      last_transition = ready_transition f.ready post_start last_update;
    }
    ∷ []
