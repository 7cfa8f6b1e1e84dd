-- ===== src/Status/Types.antt =====
-- The structs of k8s.io/api/core/v1 that a pod's status is made of, with the fields that
-- pkg/provider/virtualizationgroup_to_pod.go sets, and client.VirtualizationGroup.
use mac_os_vz_kubelet.Common.{ℕ, String, Bool, Option, List}
use mac_os_vz_kubelet.Resource.VirtualMachine.{MacOsVirtualMachine}
use mac_os_vz_kubelet.Resource.Container.{Container}

pub record Waiting : Type 0 where
  pub reason : String
  pub message : String

pub record Terminated : Type 0 where
  pub exit_code : ℕ
  pub reason : String
  pub message : String
  pub started_at : ℕ
  pub finished_at : ℕ

-- corev1.ContainerState; the struct behind `Running` has the one field StartedAt.
pub record PodContainerState : Type 0 where
  pub waiting_state : Option Waiting
  pub running_state : Option ℕ
  pub terminated_state : Option Terminated

pub record ContainerStatusReport : Type 0 where
  pub name : String
  pub state : PodContainerState
  pub ready : Bool
  pub started : Bool
  pub image : String
  pub container_id : String

pub data PodPhase : Type 0 where
  pending running succeeded failed unknown : PodPhase

pub data ConditionType : Type 0 where
  pod_scheduled initialized ready : ConditionType

-- The program sets ConditionTrue and ConditionFalse only.
pub record PodCondition : Type 0 where
  pub type : ConditionType
  pub status : Bool
  pub last_transition : ℕ

pub record PodStatus : Type 0 where
  pub phase : PodPhase
  pub conditions : List PodCondition
  pub host_ip : String
  pub pod_ip : String
  pub start_time : Option ℕ
  pub container_statuses : List ContainerStatusReport

pub record ContainerSpec : Type 0 where
  pub name : String
  pub image : String

pub record Pod : Type 0 where
  pub creation_timestamp : ℕ
  pub containers : List ContainerSpec

-- pkg/client/client_apis.go
pub record VirtualizationGroup : Type 0 where
  pub containers : List Container
  pub macos_virtual_machine : MacOsVirtualMachine
