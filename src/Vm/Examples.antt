-- ===== src/Vm/Examples.antt =====
-- The theorems on virtual machines at a concrete host.
use mac_os_vz_kubelet.Common.{
  String, ◌<>◌, ◌≡◌, refl, true, false, Option, none, some, List, [], ◌∷◌, GoError, text, inl, inr,
  keep, if◌then◌else◌, ◌==◌, text_comparable,
}
use mac_os_vz_kubelet.Common.Runs.{done, ◌>>=◌, or_wrap}
use mac_os_vz_kubelet.Volumes.{Mount, find}
use mac_os_vz_kubelet.Resource.VirtualMachine.{VirtualMachineInstance, vz_running}
use mac_os_vz_kubelet.Vm.{VmAction, validate}
use mac_os_vz_kubelet.Vm.Platform.{MacPlatformConfigurationOptions, Library}
use mac_os_vz_kubelet.Vm.Shares.{
  attach_directory_sharing, last_shared, attach_directory_sharing_lem,
}
use mac_os_vz_kubelet.Vm.Config.{
  Host, setup_vm, attach_device_configurations, create_network_device_configuration,
  new_virtual_machine_instance,
}
use mac_os_vz_kubelet.Network.Mac.{generate_rand_mac, normalize_mac_address}
use mac_os_vz_kubelet.Vm.Overlays.{left, block_clone, auxiliary_clone, setup_vm-left}
use mac_os_vz_kubelet.Vm.Instance.{Instance, StartAnswers, start, stop}
use mac_os_vz_kubelet.Vm.Removal.{discard, stop-setup_vm}
use mac_os_vz_kubelet.Vm.Life.{Ends, start-Ends}

abbrev base_name : String → String
base_name p = if p == "/Users/a/cache" then "cache" else (if p == "/opt/cache" then "cache" else p)

abbrev library : Library
library = record { in_temp_dir = λ p. "/tmp/" <> p; base = base_name; decode = λ s. inr s }

abbrev mac_host : Host
mac_host = record {
  random = inr (1 ∷ 2 ∷ 3 ∷ 4 ∷ 5 ∷ 6 ∷ []);
  parse_mac = λ s. inr (2 ∷ 2 ∷ 3 ∷ 4 ∷ 5 ∷ 6 ∷ []);
  networks = [];
  is_validated = true;
}

abbrev options : MacPlatformConfigurationOptions
options = record {
  block_storage_path = "disk.img";
  auxiliary_storage_path = "aux.img";
  hardware_model_data = "bW9kZWw=";
  machine_identifier_data = "aWQ=";
}

-- The framework refuses the configuration.
abbrev refuses : VmAction → Option GoError
refuses validate = some (text "invalid")
refuses _ = none

setup_vm-left_example :
    left (setup_vm library mac_host refuses options "uid" 4 8 "" []).0 []
    ≡ auxiliary_clone library mac_host refuses options "uid"
      ∷ block_clone library mac_host refuses options "uid"
      ∷ []
setup_vm-left_example =
    setup_vm-left library mac_host refuses options "uid" 4 8 "" [] refl refl refl

abbrev view : VirtualMachineInstance
view = record {
  ip_address = "";
  created_at = 1;
  started_at = none;
  finished_at = none;
  vz_state = vz_running;
}

abbrev machine : Instance
machine = record {
  view = view;
  config = record {
    mac_address = 2 ∷ 2 ∷ 3 ∷ 4 ∷ 5 ∷ 6 ∷ [];
    network_interface = "";
    overlay_block_storage_path = "/tmp/macosvz_file_disk.img.uid";
    overlay_auxiliary_storage_path = "/tmp/macosvz_file_aux.img.uid";
    shares = none;
  };
  mac_addr = 50 ∷ 58 ∷ 50 ∷ 58 ∷ 51 ∷ 58 ∷ 52 ∷ 58 ∷ 53 ∷ 58 ∷ 54 ∷ [];
  has_cancel = false;
}

abbrev accepts : VmAction → Option GoError
accepts _ = none

set_up :
    (setup_vm library mac_host accepts options "uid" 4 8 "" []).1
    ≡ done (machine.config, machine.mac_addr)
unfolding setup_vm attach_device_configurations create_network_device_configuration
    new_virtual_machine_instance generate_rand_mac normalize_mac_address attach_directory_sharing
    ◌>>=◌ or_wrap
set_up = refl

stop-setup_vm_example :
    let clones = left (setup_vm library mac_host accepts options "uid" 4 8 "" []).0 [] in
    discard (λ _. none) (stop (some (text "busy")) (λ _. none) machine).0 clones
    ≡ keep (λ q. false) clones
stop-setup_vm_example =
    stop-setup_vm library mac_host accepts options "uid" 4 8 "" [] machine (some (text "busy"))
      (λ _. none) refl refl refl refl refl set_up

abbrev no_address : StartAnswers
no_address = record { start = none; capture = inl (text "no device"); arp = inl (text "timeout") }

start-Ends_example : Ends none (inl (text "timeout")) machine (start no_address machine)
start-Ends_example = start-Ends no_address machine

abbrev mount_at : String → String → Mount
mount_at host path = record {
  name = "v";
  host_path = host;
  container_path = path;
  read_only = false;
}

-- Two mounts with one base name.
abbrev two_caches : List Mount
two_caches = mount_at "/a" "/Users/a/cache" ∷ mount_at "/b" "/opt/cache" ∷ []

two_caches_shared :
    (attach_directory_sharing base_name accepts two_caches).1
    ≡ done (some (("cache", record { host_path = "/b"; read_only = false }) ∷ []))
unfolding attach_directory_sharing ◌>>=◌ or_wrap
two_caches_shared = refl

attach_directory_sharing_lem_example :
    find "cache" (("cache", record { host_path = "/b"; read_only = false }) ∷ [])
    ≡ last_shared base_name "cache" two_caches
attach_directory_sharing_lem_example =
    attach_directory_sharing_lem base_name accepts "cache" two_caches
      (some (("cache", record { host_path = "/b"; read_only = false }) ∷ [])) two_caches_shared
