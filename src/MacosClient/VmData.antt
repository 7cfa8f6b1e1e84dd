-- ===== src/MacosClient/VmData.antt =====
-- internal/data/vm: the table of the virtual machines, over the concurrent map.
pub mod Laws
use mac_os_vz_kubelet.Common.{
  ℕ, String, Bool, true, false, Option, none, some, List, ◌∷◌, [], NamespacedName,
  namespaced_name_comparable,
}
use mac_os_vz_kubelet.Resource.VirtualMachine.{MacOsVirtualMachine}
use mac_os_vz_kubelet.Store.{SyncMap, ComputeOp, cancel_op, update_op}

-- `download_cancel_func` and `ssh_conn` are the identities of the context that the function cancels
-- and of the connection pointed to; `none` is nil.
pub record VirtualMachineInfo : Type 0 where
  pub ref : String
  pub resource : MacOsVirtualMachine
  pub download_cancel_func : Option ℕ
  pub permit_acquired : Bool
  pub ssh_conn : Option ℕ

abbrev pub VmMap : Type 1
VmMap = SyncMap NamespacedName VirtualMachineInfo

-- The callback that Update hands to Compute.
abbrev pub update_callback :
    (VirtualMachineInfo → VirtualMachineInfo)
    → Option VirtualMachineInfo
    → ComputeOp VirtualMachineInfo
update_callback f none = cancel_op
update_callback f (some info) = update_op (f info)

module _ (m : VmMap) where
  -- The found entry; `none` is the result `false`.
  unfoldable pub load : NamespacedName → m.Map → Option VirtualMachineInfo
  load key d = m.load key d

  -- The updated entry, `none` where the entry was not found, and the table after it.
  unfoldable pub update :
      NamespacedName
      → (VirtualMachineInfo → VirtualMachineInfo)
      → m.Map
      → Option VirtualMachineInfo × m.Map
  update key f d = m.compute key (update_callback f) d

  unfoldable pub load_or_store :
      NamespacedName → VirtualMachineInfo → m.Map → (VirtualMachineInfo × Bool) × m.Map
  load_or_store key info d = m.load_or_store key info d

  unfoldable pub delete : NamespacedName → m.Map → m.Map
  delete key d = m.delete key d

  unfoldable pub all : m.Map → List (NamespacedName × VirtualMachineInfo)
  all d = m.entries d
