-- ===== src/Vm/Inert.antt =====
-- No call of the set-up of a virtual machine but the two clonings makes or removes a file.
use mac_os_vz_kubelet.Common.{
  ℕ, String, text_comparable, ◌≡◌, refl, Bool, true, false, Option, none, some, List, [], ◌∷◌,
  is_blank, GoError, Bool-cases, inl, inr,
}
use mac_os_vz_kubelet.Common.Runs.{Run, ◌>>=◌, or_wrap}
use mac_os_vz_kubelet.Common.Runs.Shapes.{Only, Only-none, Only-one, Only-bind, Only-wrap}
use mac_os_vz_kubelet.Volumes.{Mount}
use mac_os_vz_kubelet.Vm.{VmAction, SharedDirectory, remove_file, clone_file}
use mac_os_vz_kubelet.Vm.Platform.{
  MacPlatformConfigurationOptions, PlatformConfiguration, Library, build_platform,
}
use mac_os_vz_kubelet.Vm.Shares.{assign, directory_of, share_mounts, attach_directory_sharing}
use mac_os_vz_kubelet.Vm.Config.{
  VirtualMachineConfiguration, Host, if_valid, bridge, attach_network, find_network,
  create_network_device_configuration, attach_device_configurations,
  new_virtual_machine_configuration, new_virtual_machine_instance,
}

-- A call that neither makes nor removes a file.
abbrev pub is_inert : VmAction → Bool
is_inert (remove_file p) = false
is_inert (clone_file p q) = false
is_inert _ = true

abbrev pub Inert : VmAction → Type 0
Inert a = is_inert a ≡ true

module _ (lib : Library) (host : Host) (world : VmAction → Option GoError) where
  bridge-Inert :
      (identifier : String) (n : Option String) → Only Inert (bridge lib host world identifier n)
  bridge-Inert identifier none = Only-none _
  bridge-Inert identifier (some n) = Only-one _ _ refl

  attach-Inert : (identifier : String) → Only Inert (attach_network lib host world identifier)
  attach-Inert identifier = elim (Bool-cases (is_blank identifier)) [
    | inl h ↦ rw h (Only-one _ _ refl)
    | inr h ↦ rw h (bridge-Inert identifier (find_network identifier host.networks))
  ]

  network-Inert :
      (identifier : String)
      → Only Inert (create_network_device_configuration lib host world identifier)
  unfolding create_network_device_configuration
  network-Inert identifier = Only-bind _ _ (attach-Inert identifier) (λ _. Only-one _ _ refl)

  devices-Inert :
      (disk identifier : String) (mac : List ℕ)
      → Only Inert (attach_device_configurations lib host world disk identifier mac)
  unfolding attach_device_configurations
  devices-Inert disk identifier mac =
      search (Only-bind, Only-one, Only-wrap, network-Inert) depth 24

  share-Inert :
      (dirs : List (String × SharedDirectory)) (ms : List Mount)
      → Only Inert (share_mounts lib.base world dirs ms)
  unfolding share_mounts
  share-Inert dirs [] = Only-none _
  share-Inert dirs (m ∷ ms) =
      Only-bind _ _ (Only-wrap _ _ (Only-one _ _ refl))
        (λ _. share-Inert (assign (lib.base m.container_path) (directory_of m) dirs) ms)

  sharing-Inert : (ms : List Mount) → Only Inert (attach_directory_sharing lib.base world ms)
  unfolding attach_directory_sharing
  sharing-Inert [] = Only-none _
  sharing-Inert (m ∷ ms) = search (Only-bind, Only-one, Only-none, Only-wrap, share-Inert) depth 24

  valid-Inert :
      (b : Bool) (c : VirtualMachineConfiguration) → Only Inert (if_valid lib host world b c)
  valid-Inert true c = Only-none _
  valid-Inert false c = Only-none _

  configuration-Inert :
      (p : PlatformConfiguration) (cpu memory : ℕ) (identifier : String) (mounts : List Mount)
      → Only Inert (new_virtual_machine_configuration lib host world p cpu memory identifier mounts)
  unfolding new_virtual_machine_configuration
  configuration-Inert p cpu memory identifier mounts =
      search (Only-bind, Only-one, Only-none, Only-wrap, devices-Inert, sharing-Inert, valid-Inert)
        depth 24

  pub build-Inert :
      (opts : MacPlatformConfigurationOptions) (auxiliary : String)
      → Only Inert (build_platform lib world opts auxiliary)
  unfolding build_platform
  build-Inert opts auxiliary = search (Only-bind, Only-one, Only-none, Only-wrap) depth 24

  instance-Inert :
      (c : VirtualMachineConfiguration) → Only Inert (new_virtual_machine_instance lib host world c)
  unfolding new_virtual_machine_instance
  instance-Inert c = search (Only-bind, Only-one, Only-none) depth 24

  -- What `setup_vm` does once there is a platform.
  abbrev pub from_platform :
      ℕ
      → ℕ
      → String
      → List Mount
      → PlatformConfiguration
      → Run VmAction (VirtualMachineConfiguration × List ℕ)
  from_platform cpu memory identifier mounts p = do
    c ←
        or_wrap "failed to create virtual machine configuration"
          (new_virtual_machine_configuration lib host world p cpu memory identifier mounts)
    or_wrap "failed to create virtual machine instance"
        (new_virtual_machine_instance lib host world c)

  pub rest-Inert :
      (cpu memory : ℕ) (identifier : String) (mounts : List Mount) (p : PlatformConfiguration)
      → Only Inert (from_platform cpu memory identifier mounts p)
  rest-Inert cpu memory identifier mounts p =
      Only-bind _ _ (Only-wrap _ _ (configuration-Inert p cpu memory identifier mounts))
        (λ c. Only-wrap _ _ (instance-Inert c))
