-- ===== src/Docker.antt =====
-- pkg/resourcemanager/docker.go with internal/data/container: the client of the containers that run
-- beside a virtual machine.
pub mod ContainerData
pub mod Creation
pub mod Removal
pub mod Pulls
pub mod Configs
pub mod Cleanup
pub mod Queries
pub mod Reports
pub mod Names
mod Examples
