-- ===== src/Status/Phase/Ended.antt =====
-- When the phase of a pod is one of the two that it ends in.
use mac_os_vz_kubelet.Common.{
  ◌≡◌, refl, Bool, true, false, ◌&&◌, not, Option, none, some, List, [], ◌∷◌, is_blank, arith,
}
use mac_os_vz_kubelet.Resource.VirtualMachine.{VirtualMachineState}
use mac_os_vz_kubelet.Resource.VirtualMachine as Vm
use mac_os_vz_kubelet.Resource.Container.{Container}
use mac_os_vz_kubelet.Status.Types.{VirtualizationGroup, PodPhase}
use mac_os_vz_kubelet.Status.Phase.{
  decides, is_running, phase_of_containers, active_phase, phase_switch, get_pod_phase,
}

abbrev pub has_ended : PodPhase → Bool
has_ended PodPhase.failed = true
has_ended PodPhase.succeeded = true
has_ended _ = false

-- The phase of the first container that decides one.
abbrev pub first_decision : List Container → Option PodPhase
first_decision [] = none
first_decision (c ∷ cs) =
    let rest = first_decision cs in elim (decides c.state.status) [ none ↦ rest | some p ↦ some p ]

abbrev pub is_failed : Option PodPhase → Bool
is_failed (some PodPhase.failed) = true
is_failed _ = false

-- Whether a group has ended, from the state of its virtual machine and its containers.
abbrev pub group_ended : VirtualMachineState → List Container → Bool
group_ended VirtualMachineState.preparing cs = false
group_ended VirtualMachineState.starting cs = false
group_ended VirtualMachineState.terminated cs = true
group_ended VirtualMachineState.failed cs = true
group_ended _ cs = is_failed (first_decision cs)

has_ended-phase_of_containers :
    (ip running : Bool) (cs : List Container)
    → has_ended (phase_of_containers ip running cs) ≡ is_failed (first_decision cs)
unfolding phase_of_containers
has_ended-phase_of_containers ip running [] = ground arith
has_ended-phase_of_containers ip running (c ∷ cs) =
    ground (arith, has_ended-phase_of_containers ip (running && is_running c.state.status) cs)

has_ended-active_phase :
    (ip : Bool) (cs : List Container)
    → has_ended (active_phase ip cs) ≡ is_failed (first_decision cs)
unfolding active_phase
has_ended-active_phase ip [] = ground arith
has_ended-active_phase ip (c ∷ cs) = has_ended-phase_of_containers ip true (c ∷ cs)

has_ended-phase_switch :
    (s : VirtualMachineState) (ip : Bool) (cs : List Container)
    → has_ended (phase_switch s ip cs) ≡ group_ended s cs
unfolding phase_switch
has_ended-phase_switch VirtualMachineState.preparing ip cs = refl
has_ended-phase_switch VirtualMachineState.starting ip cs = refl
has_ended-phase_switch VirtualMachineState.terminated ip cs = refl
has_ended-phase_switch VirtualMachineState.failed ip cs = refl
has_ended-phase_switch VirtualMachineState.terminating ip cs = has_ended-active_phase ip cs
has_ended-phase_switch VirtualMachineState.running ip cs = has_ended-active_phase ip cs

pub has_ended-get_pod_phase :
    (vg : VirtualizationGroup)
    → has_ended (get_pod_phase vg) ≡ group_ended (Vm.state vg.macos_virtual_machine) vg.containers
unfolding get_pod_phase
has_ended-get_pod_phase vg =
    has_ended-phase_switch (Vm.state vg.macos_virtual_machine)
      (not (is_blank (Vm.ip_address vg.macos_virtual_machine))) vg.containers
