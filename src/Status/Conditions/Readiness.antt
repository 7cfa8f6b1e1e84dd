-- ===== src/Status/Conditions/Readiness.antt =====
-- What the conditions of a pod say (getPodConditionsFromVirtualizationGroup).
use mac_os_vz_kubelet.Common.{
  ◌≡◌, refl, ◌⊎◌, inr, any, ◌↔◌, Bool, true, false, ◌&&◌, List, [], ◌∷◌, all, arith,
}
use mac_os_vz_kubelet.Resource.VirtualMachine.{VirtualMachineState}
use mac_os_vz_kubelet.Resource.VirtualMachine as Vm
use mac_os_vz_kubelet.Resource.Container.{Container, ContainerStatus}
use mac_os_vz_kubelet.Status.Types.{VirtualizationGroup, PodPhase}
use mac_os_vz_kubelet.Status.Phase.{get_pod_phase}
use mac_os_vz_kubelet.Status.Phase.Decision.{
  IsActiveState, IsActive, tolerated, is_tolerated, is_starting, get_pod_phase-starting,
}
use mac_os_vz_kubelet.Status.Conditions.{
  Flags, container_flags, loop_flags, active_flags, flags_switch, condition_flags,
}

container_flags-all_running :
    (s : ContainerStatus) (f : Flags)
    → (container_flags s f).all_running ≡ f.all_running && tolerated s
unfolding container_flags
container_flags-all_running s f = ground arith

container_flags_cleared :
    (s : ContainerStatus) (f : Flags)
    → f.initialized ≡ false
    → f.ready ≡ false
    → ((container_flags s f).initialized ≡ false) × ((container_flags s f).ready ≡ false)
unfolding container_flags
container_flags_cleared s f h k = ground arith

loop_flags_lem :
    (f : Flags) (cs : List Container)
    → f.initialized ≡ false
    → f.ready ≡ false
    → ((loop_flags f cs).initialized ≡ false)
      × ((loop_flags f cs).ready ≡ false)
      × ((loop_flags f cs).all_running ≡ f.all_running && all is_tolerated cs)
unfolding loop_flags
loop_flags_lem f [] h k = ground arith
loop_flags_lem f (c ∷ cs) h k = ground (
  arith,
  container_flags-all_running c.state.status f,
  container_flags_cleared c.state.status f h k,
  loop_flags_lem (container_flags c.state.status f) cs,
)

active_flags_lem :
    (satisfied : Bool) (cs : List Container)
    → ((active_flags satisfied cs).initialized ≡ all is_tolerated cs)
      × ((active_flags satisfied cs).ready ≡ all is_tolerated cs && satisfied)
unfolding active_flags
active_flags_lem satisfied cs = ground (
  arith,
  loop_flags_lem (record { initialized = false; ready = false; all_running = true }) cs refl refl,
)

flags_switch-ready :
    (s : VirtualMachineState) (satisfied : Bool) (cs : List Container)
    → ((flags_switch s satisfied cs).ready ≡ true)
      ↔ (IsActiveState s × (satisfied ≡ true) × (all is_tolerated cs ≡ true))
unfolding flags_switch
flags_switch-ready s satisfied cs = ground (arith, active_flags_lem satisfied cs)

flags_switch-initialized :
    (s : VirtualMachineState) (satisfied : Bool) (cs : List Container)
    → ((flags_switch s satisfied cs).initialized ≡ true)
      ↔ ((s ≡ VirtualMachineState.terminated) ⊎ (IsActiveState s × (all is_tolerated cs ≡ true)))
unfolding flags_switch
flags_switch-initialized s satisfied cs = ground (arith, active_flags_lem satisfied cs)

-- The Ready condition is true exactly when the virtual machine is running or terminating, the
-- post-start gate is satisfied, and no container is paused, restarting, OOM-killed, dead or
-- unknown. The Initialized condition is true exactly when the virtual machine has terminated, or
-- is running or terminating with no such container; the gate has no part in it.
pub condition_flags_lem :
    (vg : VirtualizationGroup) (satisfied : Bool)
    → (((condition_flags vg satisfied).ready ≡ true)
        ↔ (IsActive vg × (satisfied ≡ true) × (all is_tolerated vg.containers ≡ true)))
      × (((condition_flags vg satisfied).initialized ≡ true) ↔ (
          (Vm.state vg.macos_virtual_machine ≡ VirtualMachineState.terminated)
          ⊎ (IsActive vg × (all is_tolerated vg.containers ≡ true))))
unfolding condition_flags
condition_flags_lem vg satisfied = (
  flags_switch-ready _ satisfied vg.containers,
  flags_switch-initialized _ satisfied vg.containers,
)

-- While the virtual machine is running or terminating and the post-start gate is satisfied, a
-- group whose containers are all waiting, created or running, with one that is waiting or created,
-- is reported Initialized and Ready, although its phase is Pending.
pub condition_flags_starting :
    (vg : VirtualizationGroup)
    → IsActive vg
    → all is_tolerated vg.containers ≡ true
    → any is_starting vg.containers ≡ true
    → ((condition_flags vg true).initialized ≡ true)
      × ((condition_flags vg true).ready ≡ true)
      × (get_pod_phase vg ≡ PodPhase.pending)
condition_flags_starting vg active h k = (
  (condition_flags_lem vg true).1.1 (inr (active, h)),
  (condition_flags_lem vg true).0.1 (active, refl, h),
  get_pod_phase-starting vg active h k,
)
