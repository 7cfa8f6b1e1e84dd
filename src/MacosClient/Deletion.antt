-- ===== src/MacosClient/Deletion.antt =====
-- DeleteVirtualMachine, stopVirtualMachine, GetVirtualMachine and GetVirtualMachineListResult of
-- pkg/resourcemanager/macos.go. The calls that leave the client are listed as effects, in order.
-- `grace_period` counts seconds; a negative one acts as 0.
pub mod Laws
use mathlib.Core.Option
use mac_os_vz_kubelet.Common.{
  ℕ, Bool, true, false, ◌&&◌, Option, none, some, List, [], ◌∷◌, ◌++◌, map, NamespacedName, GoError,
  not_found, ltb, if◌then◌else◌, ◌⊎◌, inl, inr,
}
use mac_os_vz_kubelet.Resource.VirtualMachine.{
  MacOsVirtualMachine, VirtualMachineInstance, VzState, vz_running,
}
use mac_os_vz_kubelet.MacosClient.VmData.{VirtualMachineInfo, VmMap, load, delete, all}
use mac_os_vz_kubelet.MacosClient.Permits.{Client, release_permit}

pub data Effect : Type 0 where
  cancel_download close_ssh : ℕ → Effect
  graceful_shutdown stop_instance : Effect

abbrev is_vz_running : VzState → Bool
is_vz_running vz_running = true
is_vz_running _ = false

-- A failed graceful shutdown is only logged, and the instance is stopped in any case.
abbrev pub stop_effects : VirtualMachineInstance → ℕ → List Effect
stop_effects i grace_period =
    if is_vz_running i.vz_state && ltb 0 grace_period
    then graceful_shutdown ∷ stop_instance ∷ []
    else stop_instance ∷ []

abbrev pub cancel_effects : Option ℕ → List Effect
cancel_effects none = []
cancel_effects (some d) = cancel_download d ∷ []

abbrev pub instance_effects : Option VirtualMachineInstance → ℕ → List Effect
instance_effects none grace_period = []
instance_effects (some i) grace_period = stop_effects i grace_period

abbrev pub close_effects : Option ℕ → List Effect
close_effects none = []
close_effects (some conn) = close_ssh conn ∷ []

abbrev pub delete_effects : VirtualMachineInfo → ℕ → List Effect
delete_effects info grace_period =
    cancel_effects info.download_cancel_func
    ++ (instance_effects info.resource.instance_ptr grace_period ++ close_effects info.ssh_conn)

-- `stop_error` is what the Stop of the instance returns.
abbrev pub delete_error : Option VirtualMachineInstance → Option GoError → Option GoError
delete_error none stop_error = none
delete_error (some _) stop_error = stop_error

module _ (m : VmMap) where
  abbrev pub remove_entry : NamespacedName → Client m → Client m
  remove_entry key c = record c { vms = delete m key c.vms }

  -- The body with its deferred calls: the permit is released, and then the entry deleted.
  unfoldable pub delete_found :
      VirtualMachineInfo
      → NamespacedName
      → ℕ
      → Option GoError
      → Client m
      → Option ((Option GoError × List Effect) × Client m)
  delete_found info key grace_period stop_error c =
      Option.map
        (λ c'. (
          (delete_error info.resource.instance_ptr stop_error, delete_effects info grace_period),
          remove_entry key c',
        ))
        (release_permit m key c)

  unfoldable pub delete_virtual_machine :
      NamespacedName
      → ℕ
      → Option GoError
      → Client m
      → Option ((Option GoError × List Effect) × Client m)
  unfolding delete_found
  delete_virtual_machine key grace_period stop_error c = elim (load m key c.vms) [
    | none ↦ some ((none, []), c)
    | some info ↦ delete_found info key grace_period stop_error c
  ]

  -- getVirtualMachineInfo, and the resource of it.
  unfoldable pub get_virtual_machine : NamespacedName → Client m → GoError ⊎ MacOsVirtualMachine
  get_virtual_machine key c = elim (load m key c.vms) [
    | none ↦ inl (not_found "virtual machine not found")
    | some info ↦ inr info.resource
  ]

  unfoldable pub get_virtual_machine_list_result :
      Client m → List (NamespacedName × MacOsVirtualMachine)
  get_virtual_machine_list_result c = map (λ e. (e.0, e.1.resource)) (all m c.vms)
