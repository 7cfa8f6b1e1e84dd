-- ===== src/Status/Phase.antt =====
-- getPodPhaseFromVirtualizationGroup of pkg/provider/virtualizationgroup_to_pod.go.
pub mod Decision
pub mod Ended
use mac_os_vz_kubelet.Common.{
  Bool, true, false, not, ◌&&◌, Option, none, some, List, [], ◌∷◌, is_blank, if◌then◌else◌,
}
use mac_os_vz_kubelet.Resource.VirtualMachine.{VirtualMachineState}
use mac_os_vz_kubelet.Resource.VirtualMachine as Vm
use mac_os_vz_kubelet.Resource.Container.{Container, ContainerStatus}
use mac_os_vz_kubelet.Status.Types.{VirtualizationGroup, PodPhase}

-- The cases of the loop's `switch` that return.
abbrev pub decides : ContainerStatus → Option PodPhase
decides ContainerStatus.waiting = some PodPhase.pending
decides ContainerStatus.created = some PodPhase.pending
decides ContainerStatus.oom_killed = some PodPhase.failed
decides ContainerStatus.unknown = some PodPhase.failed
decides _ = none

abbrev pub is_running : ContainerStatus → Bool
is_running ContainerStatus.running = true
is_running _ = false

-- The loop over the containers, with what follows it; `all_running` is `allContainersRunning`,
-- which every case that does not return clears, but that of a running container.
unfoldable pub phase_of_containers : Bool → Bool → List Container → PodPhase
phase_of_containers ip all_running [] =
    if ip then (if all_running then PodPhase.running else PodPhase.unknown) else PodPhase.pending
phase_of_containers ip all_running (c ∷ cs) =
    let rest = phase_of_containers ip (all_running && is_running c.state.status) cs in
    elim (decides c.state.status) [ none ↦ rest | some phase ↦ phase ]

abbrev is_empty : List Container → Bool
is_empty [] = true
is_empty (_ ∷ _) = false

-- The case of a terminating or running virtual machine, and the code below the `switch`.
active_phase : Bool → List Container → PodPhase
active_phase ip cs =
    if is_empty cs
    then if ip then PodPhase.running else PodPhase.pending
    else phase_of_containers ip true cs

phase_switch : VirtualMachineState → Bool → List Container → PodPhase
unfolding active_phase
phase_switch VirtualMachineState.preparing ip cs = PodPhase.pending
phase_switch VirtualMachineState.starting ip cs = PodPhase.pending
phase_switch VirtualMachineState.terminated ip cs = PodPhase.succeeded
phase_switch VirtualMachineState.failed ip cs = PodPhase.failed
phase_switch VirtualMachineState.terminating ip cs = active_phase ip cs
phase_switch VirtualMachineState.running ip cs = active_phase ip cs

unfoldable pub get_pod_phase : VirtualizationGroup → PodPhase
unfolding phase_switch
get_pod_phase vg =
    phase_switch (Vm.state vg.macos_virtual_machine)
      (not (is_blank (Vm.ip_address vg.macos_virtual_machine))) vg.containers
