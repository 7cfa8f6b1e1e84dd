-- ===== src/Status/ContainerStates/Shape.antt =====
-- Which kind of container state is reported, and what it holds.
use mac_os_vz_kubelet.Common.{ℕ, ◌≡◌, refl, true, none, some, is_some, or_else, arith}
use mac_os_vz_kubelet.Resource.VirtualMachine.{MacOsVirtualMachine, VirtualMachineState}
use mac_os_vz_kubelet.Resource.VirtualMachine as Vm
use mac_os_vz_kubelet.Resource.Container.{Container, ContainerState, ContainerStatus}
use mac_os_vz_kubelet.Status.Types.{PodContainerState, Terminated}
use mac_os_vz_kubelet.Status.ContainerStates.{
  vm_state_switch, vm_to_container_state, container_status_switch, container_to_container_state,
  time_or,
}

pub data Kind : Type 0 where
  waits runs ended : Kind

abbrev pub kind_of_vm : VirtualMachineState → Kind
kind_of_vm VirtualMachineState.preparing = waits
kind_of_vm VirtualMachineState.starting = waits
kind_of_vm VirtualMachineState.running = runs
kind_of_vm _ = ended

abbrev pub kind_of_container : ContainerStatus → Kind
kind_of_container ContainerStatus.running = runs
kind_of_container ContainerStatus.oom_killed = ended
kind_of_container ContainerStatus.dead = ended
kind_of_container ContainerStatus.unknown = ended
kind_of_container _ = waits

-- Exactly the member for that kind is set, and its times are those given.
abbrev pub HasKind : Kind → ℕ → ℕ → PodContainerState → Type 0
HasKind waits start finish s =
    (is_some s.waiting_state ≡ true) × (s.running_state ≡ none) × (s.terminated_state ≡ none)
HasKind runs start finish s =
    (s.waiting_state ≡ none) × (s.running_state ≡ some start) × (s.terminated_state ≡ none)
HasKind ended start finish s =
    (s.waiting_state ≡ none)
    × (s.running_state ≡ none)
    × ((t : Terminated) × (s.terminated_state ≡ some t)
        × (t.started_at ≡ start)
        × (t.finished_at ≡ finish))

vm_state_switch-HasKind :
    (s : VirtualMachineState) (vm : MacOsVirtualMachine) (start finish : ℕ)
    → HasKind (kind_of_vm s) start finish (vm_state_switch s vm start finish)
unfolding vm_state_switch
vm_state_switch-HasKind VirtualMachineState.terminating vm start finish =
    (refl, refl, (_, refl, refl, refl))
vm_state_switch-HasKind VirtualMachineState.terminated vm start finish =
    (refl, refl, (_, refl, refl, refl))
vm_state_switch-HasKind VirtualMachineState.failed vm start finish =
    (refl, refl, (_, refl, refl, refl))
vm_state_switch-HasKind _ vm start finish = (refl, refl, refl)

-- The state reported for the virtual machine has exactly one member: waiting while it is preparing
-- or starting, running while it runs, and terminated otherwise; a start or finish time that is
-- unknown is replaced by the creation time of the pod.
vm_to_container_state-HasKind :
    (vm : MacOsVirtualMachine) (creation : ℕ)
    → HasKind
        (kind_of_vm (Vm.state vm))
        (or_else (Vm.started_at vm) creation)
        (or_else (Vm.finished_at vm) creation)
        (vm_to_container_state vm creation)
unfolding vm_to_container_state
vm_to_container_state-HasKind vm creation = vm_state_switch-HasKind (Vm.state vm) vm _ _

container_status_switch-HasKind :
    (k : ContainerStatus) (s : ContainerState) (start finish : ℕ)
    → HasKind (kind_of_container k) start finish (container_status_switch k s start finish)
unfolding container_status_switch
container_status_switch-HasKind ContainerStatus.oom_killed s start finish =
    (refl, refl, (_, refl, refl, refl))
container_status_switch-HasKind ContainerStatus.dead s start finish =
    (refl, refl, (_, refl, refl, refl))
container_status_switch-HasKind ContainerStatus.unknown s start finish =
    (refl, refl, (_, refl, refl, refl))
container_status_switch-HasKind ContainerStatus.waiting s start finish = ground arith
container_status_switch-HasKind _ s start finish = (refl, refl, refl)

-- The state reported for a container has exactly one member: running while it runs, terminated
-- when it is OOM-killed, dead or unknown, and waiting otherwise; a zero start or finish time is
-- replaced by the creation time of the pod.
container_to_container_state-HasKind :
    (c : Container) (creation : ℕ)
    → HasKind
        (kind_of_container c.state.status)
        (time_or c.state.started_at creation)
        (time_or c.state.finished_at creation)
        (container_to_container_state c creation)
unfolding container_to_container_state
container_to_container_state-HasKind c creation =
    container_status_switch-HasKind c.state.status c.state _ _
