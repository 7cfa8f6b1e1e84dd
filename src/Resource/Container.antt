-- ===== src/Resource/Container.antt =====
-- pkg/resource/container.go. An int is its 64-bit pattern.
use mac_os_vz_kubelet.Common.{ℕ, String}

pub data ContainerStatus : Type 0 where
  waiting created running paused restarting oom_killed dead unknown : ContainerStatus

pub record ContainerState : Type 0 where
  pub status : ContainerStatus
  pub started_at : ℕ
  pub finished_at : ℕ
  pub exit_code : ℕ
  pub error : String

pub record Container : Type 0 where
  pub id : String
  pub name : String
  pub state : ContainerState
