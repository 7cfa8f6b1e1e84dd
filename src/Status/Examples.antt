-- ===== src/Status/Examples.antt =====
-- The theorems on pod status at concrete groups.
use mac_os_vz_kubelet.Common.{
  ℕ, ◌≡◌, refl, ◌↔◌, inl, String, true, false, none, some, [], ◌∷◌, all, is_blank,
}
use mac_os_vz_kubelet.Resource.VirtualMachine.{
  MacOsVirtualMachine, VirtualMachineInstance, VirtualMachineState, VzState, vz_running,
}
use mac_os_vz_kubelet.Resource.VirtualMachine as Vm
use mac_os_vz_kubelet.Resource.Container.{Container, ContainerStatus}
use mac_os_vz_kubelet.Status.Types.{VirtualizationGroup, Pod, ContainerSpec, PodPhase, PodCondition}
use mac_os_vz_kubelet.Status.ContainerStates.{get_container_with_name}
use mac_os_vz_kubelet.Status.Phase.{get_pod_phase}
use mac_os_vz_kubelet.Status.Phase.Decision.{IsActive, runs, get_pod_phase-eq-running}
use mac_os_vz_kubelet.Status.Conditions.{condition_flags}
use mac_os_vz_kubelet.Status.Conditions.Readiness.{condition_flags_starting}
use mac_os_vz_kubelet.Status.Pod.{
  build_pod_status, container_rounds, macos_round, sidecar_rounds, sidecar_round,
}
use mac_os_vz_kubelet.Status.Pod.Gate.{ready_condition, IsReadyCondition, build_pod_status-ready}

-- A virtual machine that runs since 50, with its post-start time at 70.
abbrev running_instance : VirtualMachineInstance
running_instance = record {
  ip_address = "10.0.0.3";
  created_at = 40;
  started_at = some 50;
  finished_at = none;
  vz_state = vz_running;
}

abbrev running_vm : MacOsVirtualMachine
running_vm = record {
  env = [];
  instance_ptr = some running_instance;
  err = none;
  post_start_finished = 70;
}

abbrev container : String → ContainerStatus → ℕ → Container
container name status start = record {
  id = "id";
  name = name;
  state = record {
    status = status;
    started_at = start;
    finished_at = 0;
    exit_code = 0;
    error = "";
  };
}

abbrev web : Container
web = container "web" ContainerStatus.running 45

abbrev job : Container
job = container "job" ContainerStatus.waiting 0

abbrev group : VirtualizationGroup
group = record { containers = web ∷ job ∷ []; macos_virtual_machine = running_vm }

abbrev spec : String → ContainerSpec
spec name = record { name = name; image = "image" }

abbrev pod : Pod
pod = record {
  creation_timestamp = 30;
  containers = spec "macos" ∷ spec "gone" ∷ spec "web" ∷ spec "job" ∷ [];
}

abbrev hash : String → String
hash s = s

group-IsActive : IsActive group
unfolding Vm.state
group-IsActive = inl refl

get_pod_phase-eq-running_example : (get_pod_phase group ≡ PodPhase.running) ↔ (
    IsActive group
    × (is_blank (Vm.ip_address running_vm) ≡ false)
    × (all runs group.containers ≡ true))
get_pod_phase-eq-running_example = get_pod_phase-eq-running group

condition_flags_starting_example :
    ((condition_flags group true).initialized ≡ true)
    × ((condition_flags group true).ready ≡ true)
    × (get_pod_phase group ≡ PodPhase.pending)
condition_flags_starting_example = condition_flags_starting group group-IsActive refl refl

build_pod_status-ready_example :
    (k : PodCondition) × (ready_condition (build_pod_status hash "10.0.0.1" group pod).conditions
      ≡ some k)
    × IsReadyCondition group k
build_pod_status-ready_example =
    build_pod_status-ready hash group pod "10.0.0.1" (spec "macos")
      (spec "gone" ∷ spec "web" ∷ spec "job" ∷ []) refl

-- The start time of the example pod is that of its first container.
start_time_test : (build_pod_status hash "10.0.0.1" group pod).start_time ≡ some 45
unfolding build_pod_status container_rounds macos_round sidecar_rounds sidecar_round
    get_container_with_name Vm.started_at
start_time_test = refl
