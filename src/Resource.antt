-- ===== src/Resource.antt =====
-- pkg/resource.
pub mod VirtualMachine
pub mod Container
