-- ===== src/Status/ContainerStates.antt =====
-- vmToContainerState, containerToContainerState and getContainerWithName of
-- pkg/provider/virtualizationgroup_to_pod.go.
pub mod Shape
use mac_os_vz_kubelet.Common.{
  ℕ, ◌%◌, ◌^◌, String, ◌<>◌, Option, none, some, List, [], ◌∷◌, or_else, nat_eq, is_blank, ◌==◌,
  text_comparable, if◌then◌else◌, format_error,
}
use mac_os_vz_kubelet.Resource.VirtualMachine.{MacOsVirtualMachine, VirtualMachineState}
use mac_os_vz_kubelet.Resource.VirtualMachine as Vm
use mac_os_vz_kubelet.Resource.Container.{Container, ContainerState, ContainerStatus}
use mac_os_vz_kubelet.Status.Types.{PodContainerState}

abbrev pub waiting_for : String → String → PodContainerState
waiting_for reason message = record {
  waiting_state = some (record { reason = reason; message = message });
  running_state = none;
  terminated_state = none;
}

abbrev pub running_since : ℕ → PodContainerState
running_since t = record { waiting_state = none; running_state = some t; terminated_state = none }

abbrev pub terminated_with : ℕ → String → String → ℕ → ℕ → PodContainerState
terminated_with code reason message start finish = record {
  waiting_state = none;
  running_state = none;
  terminated_state = some (record {
    exit_code = code;
    reason = reason;
    message = message;
    started_at = start;
    finished_at = finish;
  });
}

-- The `switch` of vmToContainerState, over the state that `State()` returned.
vm_state_switch : VirtualMachineState → MacOsVirtualMachine → ℕ → ℕ → PodContainerState
vm_state_switch VirtualMachineState.preparing vm start finish =
    waiting_for "Downloading" "VM is downloading image from the registry"
vm_state_switch VirtualMachineState.starting vm start finish =
    waiting_for "Starting" "VM is starting"
vm_state_switch VirtualMachineState.running vm start finish = running_since start
vm_state_switch VirtualMachineState.terminating vm start finish =
    terminated_with 0 "Completed" "VM is stopped" start finish
vm_state_switch VirtualMachineState.terminated vm start finish =
    terminated_with 0 "Completed" "VM is stopped" start finish
vm_state_switch VirtualMachineState.failed vm start finish =
    terminated_with 1 "Error" ("VM has failed: " <> format_error vm.err) start finish

unfoldable pub vm_to_container_state : MacOsVirtualMachine → ℕ → PodContainerState
unfolding vm_state_switch
vm_to_container_state vm pod_creation_time =
    vm_state_switch (Vm.state vm) vm (or_else (Vm.started_at vm) pod_creation_time)
      (or_else (Vm.finished_at vm) pod_creation_time)

-- A time.Time that is not zero, or else the given one.
abbrev pub time_or : ℕ → ℕ → ℕ
time_or t d = if nat_eq t 0 then d else t

-- Go's int32(n) of an int.
abbrev pub int32 : ℕ → ℕ
int32 n = n % 2 ^ 32

-- The `switch` of containerToContainerState; the last clause is `default`.
container_status_switch : ContainerStatus → ContainerState → ℕ → ℕ → PodContainerState
container_status_switch ContainerStatus.waiting s start finish =
    if is_blank s.error then waiting_for "ContainerCreating" "" else waiting_for "Error" s.error
container_status_switch ContainerStatus.created s start finish =
    waiting_for "ContainerCreated" "Container has been created"
container_status_switch ContainerStatus.running s start finish = running_since start
container_status_switch ContainerStatus.paused s start finish =
    waiting_for "ContainerPaused" "Container is paused"
container_status_switch ContainerStatus.restarting s start finish =
    waiting_for "ContainerRestarting" "Container is restarting"
container_status_switch ContainerStatus.oom_killed s start finish =
    terminated_with 137 "OOMKilled" "Container was killed due to out of memory" start finish
container_status_switch ContainerStatus.dead s start finish =
    terminated_with (int32 s.exit_code) "ContainerDead" s.error start finish
container_status_switch ContainerStatus.unknown s start finish =
    terminated_with (int32 s.exit_code) "Unknown" s.error start finish

unfoldable pub container_to_container_state : Container → ℕ → PodContainerState
unfolding container_status_switch
container_to_container_state c pod_creation_time =
    container_status_switch c.state.status c.state (time_or c.state.started_at pod_creation_time)
      (time_or c.state.finished_at pod_creation_time)

-- The first container of that name; `none` is the error "container … not found".
unfoldable pub get_container_with_name : String → List Container → Option Container
get_container_with_name name [] = none
get_container_with_name name (c ∷ cs) =
    if c.name == name then some c else get_container_with_name name cs
