-- ===== src/Status.antt =====
-- pkg/provider/virtualizationgroup_to_pod.go: what a pod's status says of its virtual machine and
-- its sidecar containers.
pub mod Types
pub mod ContainerStates
pub mod Phase
pub mod Conditions
pub mod Pod
mod Examples
