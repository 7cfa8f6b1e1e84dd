-- ===== src/MacosClient.antt =====
-- pkg/resourcemanager/macos.go and macos_permits.go, with the table of internal/data/vm: the
-- life of a macOS virtual machine.
pub mod VmData
pub mod Permits
pub mod Creation
pub mod Deletion
mod Examples
mod LifeExamples
