-- ===== src/Vm.antt =====
-- pkg/vm and pkg/vm/config: what is asked of Apple's virtualization framework and of the file system
-- for a virtual machine. Their answers are a parameter, and so are the functions of filepath.
use mac_os_vz_kubelet.Common.{ℕ, String, Bool, List}
pub mod Platform
pub mod Shares
pub mod Config
pub mod Inert
pub mod Overlays
pub mod Instance
pub mod Removal
pub mod Life
mod Examples

-- A directory shared with the guest: its path on the host, and whether it is read-only.
pub record SharedDirectory : Type 0 where
  pub host_path : String
  pub read_only : Bool

-- A call of the framework (package vz), of os or of golang.org/x/sys/unix.
pub data VmAction : Type 0 where
  remove_file : String → VmAction
  clone_file : String → String → VmAction
  new_auxiliary_storage : String → VmAction
  new_hardware_model : String → VmAction
  new_machine_identifier : String → VmAction
  new_platform : VmAction
  new_boot_loader : VmAction
  new_configuration : ℕ → ℕ → VmAction
  new_graphics_device : VmAction
  new_graphics_display : ℕ → ℕ → ℕ → VmAction
  new_disk_attachment : String → Bool → VmAction
  new_block_device : VmAction
  new_bridged_attachment : String → VmAction
  new_nat_attachment : VmAction
  new_network_device : VmAction
  new_mac_address : List ℕ → VmAction
  new_pointing_device : VmAction
  new_trackpad : VmAction
  new_keyboard : VmAction
  new_sound_device : VmAction
  new_input_stream : VmAction
  new_output_stream : VmAction
  guest_automount_tag : VmAction
  new_shared_directory : SharedDirectory → VmAction
  new_directory_share : List (String × SharedDirectory) → VmAction
  new_file_system_device : VmAction
  validate : VmAction
  new_virtual_machine : VmAction
