-- ===== src/Status/Phase/Decision.antt =====
-- What the phase of a pod says (getPodPhaseFromVirtualizationGroup).
use mac_os_vz_kubelet.Common.{
  ◌≡◌, ◌⊎◌, ◌↔◌, Bool, true, false, ◌&&◌, not, none, some, List, [], ◌∷◌, ◌++◌, all, any, All,
  is_blank, arith,
}
use mac_os_vz_kubelet.Resource.VirtualMachine.{VirtualMachineState}
use mac_os_vz_kubelet.Resource.VirtualMachine as Vm
use mac_os_vz_kubelet.Resource.Container.{Container, ContainerStatus}
use mac_os_vz_kubelet.Status.Types.{VirtualizationGroup, PodPhase}
use mac_os_vz_kubelet.Status.Phase.{
  decides, is_running, phase_of_containers, active_phase, phase_switch, get_pod_phase,
}

-- The virtual machine runs, or is about to stop.
abbrev pub IsActiveState : VirtualMachineState → Type 0
IsActiveState s = (s ≡ VirtualMachineState.running) ⊎ (s ≡ VirtualMachineState.terminating)

abbrev pub IsActive : VirtualizationGroup → Type 0
IsActive vg = IsActiveState (Vm.state vg.macos_virtual_machine)

abbrev pub runs : Container → Bool
runs c = is_running c.state.status

phase_of_containers-eq-running :
    (ip all_running : Bool) (cs : List Container)
    → (phase_of_containers ip all_running cs ≡ PodPhase.running)
      ↔ ((ip ≡ true) × (all_running ≡ true) × (all runs cs ≡ true))
unfolding phase_of_containers
phase_of_containers-eq-running ip all_running [] = ground arith
phase_of_containers-eq-running ip all_running (c ∷ cs) =
    ground (arith, phase_of_containers-eq-running ip (all_running && runs c) cs)

phase_switch-eq-running :
    (s : VirtualMachineState) (ip : Bool) (cs : List Container)
    → (phase_switch s ip cs ≡ PodPhase.running)
      ↔ (IsActiveState s × (ip ≡ true) × (all runs cs ≡ true))
unfolding phase_switch
phase_switch-eq-running s ip [] = ground arith
phase_switch-eq-running s ip (c ∷ cs) =
    ground (arith, phase_of_containers-eq-running ip true (c ∷ cs))

-- The phase is Running exactly when the virtual machine is running or terminating, it has an IP
-- address, and every container of the group is running.
pub get_pod_phase-eq-running :
    (vg : VirtualizationGroup)
    → (get_pod_phase vg ≡ PodPhase.running) ↔ (
        IsActive vg
        × (is_blank (Vm.ip_address vg.macos_virtual_machine) ≡ false)
        × (all runs vg.containers ≡ true))
unfolding get_pod_phase
get_pod_phase-eq-running vg = ground (
  arith,
  phase_switch-eq-running (Vm.state vg.macos_virtual_machine)
      (not (is_blank (Vm.ip_address vg.macos_virtual_machine))) vg.containers,
)

-- A container that the loop passes over.
abbrev pub IsUndecided : Container → Type 0
IsUndecided c = decides c.state.status ≡ none

phase_of_containers-first :
    (ip all_running : Bool) (pre : List Container) (c : Container) (post : List Container)
    (p : PodPhase)
    → All IsUndecided pre
    → decides c.state.status ≡ some p
    → phase_of_containers ip all_running (pre ++ c ∷ post) ≡ p
unfolding phase_of_containers
phase_of_containers-first ip all_running [] c post p h e = ground arith
phase_of_containers-first ip all_running (x ∷ pre) c post p h e =
    ground (arith, phase_of_containers-first ip (all_running && runs x) pre c post p h.1 e)

active_phase-first :
    (ip : Bool) (pre : List Container) (c : Container) (post : List Container) (p : PodPhase)
    → All IsUndecided pre
    → decides c.state.status ≡ some p
    → active_phase ip (pre ++ c ∷ post) ≡ p
unfolding active_phase
active_phase-first ip [] c post p h e = phase_of_containers-first ip true [] c post p h e
active_phase-first ip (x ∷ pre) c post p h e =
    phase_of_containers-first ip true (x ∷ pre) c post p h e

phase_switch-active :
    (s : VirtualMachineState) (ip : Bool) (cs : List Container)
    → IsActiveState s
    → phase_switch s ip cs ≡ active_phase ip cs
unfolding phase_switch
phase_switch-active s ip cs h = ground arith

-- While the virtual machine is running or terminating, the first container that is waiting,
-- created, OOM-killed or unknown decides the phase alone: Pending for the first two and Failed for
-- the others, whatever the containers behind it and the IP address are.
get_pod_phase-first :
    (vg : VirtualizationGroup) (pre : List Container) (c : Container) (post : List Container)
    (p : PodPhase)
    → IsActive vg
    → vg.containers ≡ pre ++ c ∷ post
    → All IsUndecided pre
    → decides c.state.status ≡ some p
    → get_pod_phase vg ≡ p
unfolding get_pod_phase
get_pod_phase-first vg pre c post p active e h d =
    rw (phase_switch-active _ _ vg.containers active, e) (active_phase-first _ pre c post p h d)

-- The statuses that do not clear the flag `allContainersRunning` of the conditions.
abbrev pub tolerated : ContainerStatus → Bool
tolerated ContainerStatus.waiting = true
tolerated ContainerStatus.created = true
tolerated ContainerStatus.running = true
tolerated _ = false

abbrev pub is_tolerated : Container → Bool
is_tolerated c = tolerated c.state.status

abbrev starts_up : ContainerStatus → Bool
starts_up ContainerStatus.waiting = true
starts_up ContainerStatus.created = true
starts_up _ = false

abbrev pub is_starting : Container → Bool
is_starting c = starts_up c.state.status

phase_of_containers-starting :
    (ip all_running : Bool) (cs : List Container)
    → all is_tolerated cs ≡ true
    → any is_starting cs ≡ true
    → phase_of_containers ip all_running cs ≡ PodPhase.pending
unfolding phase_of_containers
phase_of_containers-starting ip all_running [] h k = cc
phase_of_containers-starting ip all_running (c ∷ cs) h k =
    ground (arith, phase_of_containers-starting ip (all_running && runs c) cs)

active_phase-starting :
    (ip : Bool) (cs : List Container)
    → all is_tolerated cs ≡ true
    → any is_starting cs ≡ true
    → active_phase ip cs ≡ PodPhase.pending
unfolding active_phase
active_phase-starting ip [] h k = cc
active_phase-starting ip (c ∷ cs) h k = phase_of_containers-starting ip true (c ∷ cs) h k

-- A container that is still coming up keeps the phase of an active group at Pending, if no other
-- has failed.
pub get_pod_phase-starting :
    (vg : VirtualizationGroup)
    → IsActive vg
    → all is_tolerated vg.containers ≡ true
    → any is_starting vg.containers ≡ true
    → get_pod_phase vg ≡ PodPhase.pending
unfolding get_pod_phase
get_pod_phase-starting vg active h k =
    rw (phase_switch-active _ _ vg.containers active) (active_phase-starting _ vg.containers h k)
