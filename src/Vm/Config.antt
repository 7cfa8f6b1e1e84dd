-- ===== src/Vm/Config.antt =====
-- pkg/vm/config/virtual_machine.go, NewVirtualMachineInstance of pkg/vm/instance.go, and setupVM of
-- pkg/resourcemanager/macos.go.
use mac_os_vz_kubelet.Common.{
  ℕ, String, ◌<>◌, ◌==◌, text_comparable, Bool, true, false, not, ◌&&◌, Option, none, some, List,
  [], ◌∷◌, is_blank, if◌then◌else◌, GoError, text, ◌⊎◌,
}
use mac_os_vz_kubelet.Common.Runs.{done, Run, return, ◌>>=◌, ◌>>◌, fail, perform, ask, or_wrap}
use mac_os_vz_kubelet.Network.Mac.{generate_rand_mac, hardware_string, normalize_mac_address}
use mac_os_vz_kubelet.Volumes.{Mount}
use mac_os_vz_kubelet.Vm.{
  VmAction, SharedDirectory, new_boot_loader, new_configuration, new_graphics_device,
  new_graphics_display, new_disk_attachment, new_block_device, new_bridged_attachment,
  new_nat_attachment, new_network_device, new_mac_address, new_pointing_device, new_trackpad,
  new_keyboard, new_sound_device, new_input_stream, new_output_stream, validate,
  new_virtual_machine,
}
use mac_os_vz_kubelet.Vm.Platform.{
  MacPlatformConfigurationOptions, PlatformConfiguration, Library, new_platform_configuration,
}
use mac_os_vz_kubelet.Vm.Shares.{attach_directory_sharing}

pub record VirtualMachineConfiguration : Type 0 where
  pub mac_address : List ℕ
  pub network_interface : String
  pub overlay_block_storage_path : String
  pub overlay_auxiliary_storage_path : String
  pub shares : Option (List (String × SharedDirectory))

-- The values that the host gives: six random octets, what net.ParseMAC makes of a text, the bridged
-- networks, and whether the framework finds a configuration valid.
pub record Host : Type 0 where
  pub random : GoError ⊎ List ℕ
  pub parse_mac : List ℕ → GoError ⊎ List ℕ
  pub networks : List String
  pub is_validated : Bool

-- The two paths, and whether both are there.
unfoldable pub get_overlays : VirtualMachineConfiguration → String × String × Bool
get_overlays c = (
  c.overlay_block_storage_path,
  c.overlay_auxiliary_storage_path,
  not (is_blank c.overlay_block_storage_path) && not (is_blank c.overlay_auxiliary_storage_path),
)

abbrev pub find_network : String → List String → Option String
find_network identifier [] = none
find_network identifier (n ∷ ns) = if n == identifier then some n else find_network identifier ns

module _ (lib : Library) (host : Host) (world : VmAction → Option GoError) where
  abbrev pub create_graphics : Run VmAction Unit
  create_graphics = do
    perform world new_graphics_device
    perform world (new_graphics_display 1920 1200 80)

  abbrev pub bridge : String → Option String → Run VmAction Unit
  bridge identifier none = fail (text ("network interface " <> identifier <> " not found"))
  bridge identifier (some n) = perform world (new_bridged_attachment n)

  abbrev pub attach_network : String → Run VmAction Unit
  attach_network identifier =
      if is_blank identifier
      then perform world new_nat_attachment
      else bridge identifier (find_network identifier host.networks)

  unfoldable pub create_network_device_configuration : String → Run VmAction Unit
  create_network_device_configuration identifier = do
    attach_network identifier
    perform world new_network_device

  -- The error of the trackpad is dropped.
  abbrev pub create_pointing : Run VmAction Unit
  create_pointing = do
    or_wrap "failed to create pointing device configuration" (perform world new_pointing_device)
    (new_trackpad ∷ [], done tt)

  abbrev pub create_audio : Run VmAction Unit
  create_audio = do
    or_wrap "failed to create sound device configuration" (perform world new_sound_device)
    or_wrap "failed to create input stream configuration" (perform world new_input_stream)
    or_wrap "failed to create output stream configuration" (perform world new_output_stream)

  unfoldable pub attach_device_configurations : String → String → List ℕ → Run VmAction Unit
  attach_device_configurations disk identifier mac = do
    or_wrap "failed to create graphics device configuration" create_graphics
    or_wrap "failed to create disk image storage device attachment"
        (perform world (new_disk_attachment disk false))
    or_wrap "failed to create block device configuration" (perform world new_block_device)
    or_wrap "failed to create network device configuration"
        (create_network_device_configuration identifier)
    or_wrap "failed to create mac address" (perform world (new_mac_address mac))
    create_pointing
    or_wrap "failed to create keyboard device configuration" (perform world new_keyboard)
    or_wrap "failed to create audio device configuration" create_audio

  abbrev pub configured :
      PlatformConfiguration
      → String
      → List ℕ
      → Option (List (String × SharedDirectory))
      → VirtualMachineConfiguration
  configured p identifier mac shares = record {
    mac_address = mac;
    network_interface = identifier;
    overlay_block_storage_path = if p.is_overlay then p.block_storage_path else "";
    overlay_auxiliary_storage_path = if p.is_overlay then p.auxiliary_storage_path else "";
    shares = shares;
  }

  abbrev pub if_valid :
      Bool → VirtualMachineConfiguration → Run VmAction VirtualMachineConfiguration
  if_valid true c = return c
  if_valid false c = fail (text "invalid configuration")

  unfoldable pub new_virtual_machine_configuration :
      PlatformConfiguration → ℕ → ℕ → String → List Mount → Run VmAction VirtualMachineConfiguration
  new_virtual_machine_configuration p cpu memory identifier mounts = do
    or_wrap "failed to create a new macOS bootloader" (perform world new_boot_loader)
    or_wrap "failed to create a new virtual machine configuration"
        (perform world (new_configuration cpu memory))
    mac_text ← or_wrap "failed to generate random mac address" (ask (generate_rand_mac host.random))
    mac ← or_wrap "failed to parse mac address" (ask (host.parse_mac mac_text))
    or_wrap "failed to attach device configurations"
        (attach_device_configurations p.block_storage_path identifier mac)
    shares ←
        or_wrap "failed to attach volume mounts configurations"
          (attach_directory_sharing lib.base world mounts)
    or_wrap "failed to validate configuration" (perform world validate)
    if_valid host.is_validated (configured p identifier mac shares)

  -- The instance's configuration, and the text of its MAC address that IP addresses are looked up by.
  unfoldable pub new_virtual_machine_instance :
      VirtualMachineConfiguration → Run VmAction (VirtualMachineConfiguration × List ℕ)
  new_virtual_machine_instance c = do
    perform world new_virtual_machine
    return (c, normalize_mac_address (hardware_string c.mac_address))

  unfoldable pub setup_vm :
      MacPlatformConfigurationOptions
      → String
      → ℕ
      → ℕ
      → String
      → List Mount
      → Run VmAction (VirtualMachineConfiguration × List ℕ)
  unfolding new_platform_configuration new_virtual_machine_configuration
  setup_vm opts uid cpu memory identifier mounts = do
    p ←
        or_wrap "failed to create platform configuration"
          (new_platform_configuration lib world opts true uid)
    c ←
        or_wrap "failed to create virtual machine configuration"
          (new_virtual_machine_configuration p cpu memory identifier mounts)
    or_wrap "failed to create virtual machine instance" (new_virtual_machine_instance c)
