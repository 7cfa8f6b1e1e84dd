-- ===== src/VzClient/Groups.antt =====
-- GetVirtualizationGroup, GetVirtualizationGroupListResult and GetVirtualizationGroupStats of
-- pkg/client/vz.go, over the results of the calls of the two clients. What a call of the containers'
-- client gives is an Option: `none` is the client that is nil.
pub mod Lookup
pub mod Listing
pub mod Stats
use mac_os_vz_kubelet.Common.{
  Bool, true, false, not, ◌&&◌, Option, none, some, is_some, List, [], ◌∷◌, ◌++◌, NamespacedName,
  GoError, not_found, join, join_errors, if◌then◌else◌, ◌⊎◌, inl, inr, String,
  namespaced_name_comparable,
}
use mac_os_vz_kubelet.Resource.VirtualMachine.{MacOsVirtualMachine, new_macos_virtual_machine}
use mac_os_vz_kubelet.Resource.Container.{Container}
use mac_os_vz_kubelet.Status.Types.{VirtualizationGroup}
use mac_os_vz_kubelet.Store.Assoc.{load_entry}

abbrev pub group_not_found : GoError
group_not_found = not_found "virtualization group not found"

-- The zero value of resource.MacOSVirtualMachine, which comes with an error.
abbrev pub zero_vm : MacOsVirtualMachine
zero_vm = new_macos_virtual_machine []

abbrev pub vm_of : GoError ⊎ MacOsVirtualMachine → MacOsVirtualMachine
vm_of (inl _) = zero_vm
vm_of (inr vm) = vm

abbrev pub error_of {ℓ} : {A : Type ℓ} → GoError ⊎ A → Option GoError
error_of (inl e) = some e
error_of (inr _) = none

-- What GetContainers returns: containers may come with an error.
abbrev pub ContainersResult : Type 0
ContainersResult = Option (List Container × Option GoError)

abbrev pub containers_of : ContainersResult → List Container
containers_of none = []
containers_of (some (cs, _)) = cs

abbrev pub container_error : ContainersResult → Option GoError
container_error none = some (not_found "container client not available")
container_error (some (_, e)) = e

-- `is_not_found` is errdefs.IsNotFound.
module _ (is_not_found : GoError → Bool) where
  abbrev pub missing : Option GoError → Bool
  missing none = false
  missing (some e) = is_not_found e

  -- The variable `err` after the two calls.
  abbrev pub error_unless_missing : Option GoError → Option GoError
  error_unless_missing e = if missing e then none else e

  abbrev pub collected_error : ContainersResult → Option GoError → Option GoError
  collected_error none vm_err = error_unless_missing vm_err
  collected_error (some (_, e)) vm_err =
      join_errors (error_unless_missing e) (error_unless_missing vm_err)

  abbrev pub group_error : Option GoError → Option GoError → Option GoError → Option GoError
  group_error (some d) (some e) err = some (join d e)
  group_error _ _ err = err

  unfoldable pub get_virtualization_group :
      ContainersResult → GoError ⊎ MacOsVirtualMachine → Option VirtualizationGroup × Option GoError
  get_virtualization_group cs vm =
      if missing (container_error cs) && missing (error_of vm)
      then (none, some group_not_found)
      else (
        some (record { containers = containers_of cs; macos_virtual_machine = vm_of vm }),
        group_error (container_error cs) (error_of vm) (collected_error cs (error_of vm)),
      )

-- An entry of the list; a virtual machine that is `none` is the nil interface.
pub record ListedGroup : Type 0 where
  pub virtual_machine : Option MacOsVirtualMachine
  pub containers : List Container

-- A Go map is a list of entries, the latest of a key first.
abbrev pub Groups : Type 0
Groups = List (NamespacedName × ListedGroup)

-- The loop over the virtual machines.
unfoldable pub add_vms : List (NamespacedName × MacOsVirtualMachine) → Groups → Groups
add_vms [] l = l
add_vms ((k, vm) ∷ vms) l =
    add_vms vms ((k, record { virtual_machine = some vm; containers = [] }) ∷ l)

abbrev pub with_containers : List Container → Option ListedGroup → ListedGroup
with_containers cs none = record { virtual_machine = none; containers = cs }
with_containers cs (some g) = record g { containers = cs }

-- The loop over the containers.
unfoldable pub add_containers : List (NamespacedName × List Container) → Groups → Groups
add_containers [] l = l
add_containers ((k, cs) ∷ rest) l =
    add_containers rest ((k, with_containers cs (load_entry k l)) ∷ l)

abbrev pub listed_containers :
    Option (List (NamespacedName × List Container) × Option GoError)
    → List (NamespacedName × List Container)
listed_containers none = []
listed_containers (some (cs, _)) = cs

abbrev pub listed_error :
    Option (List (NamespacedName × List Container) × Option GoError) → Option GoError
listed_error none = none
listed_error (some (_, e)) = e

unfoldable pub get_virtualization_group_list_result :
    List (NamespacedName × MacOsVirtualMachine) × Option GoError
    → Option (List (NamespacedName × List Container) × Option GoError)
    → Groups × Option GoError
unfolding add_vms add_containers
get_virtualization_group_list_result (vms, vm_err) cs =
    (add_containers (listed_containers cs) (add_vms vms []), join_errors vm_err (listed_error cs))

-- `S` is stats.ContainerStats, and `rename` sets its field Name.
module _ {S : Type 0} (rename : String → S → S) where
  -- The loop over the sidecars, with the rest of the result.
  unfoldable pub sidecar_stats : (String → GoError ⊎ S) → List String → GoError ⊎ List S
  sidecar_stats stats_of [] = inr []
  sidecar_stats stats_of (name ∷ names) =
      let rest = sidecar_stats stats_of names in
      elim (stats_of name) [
        | inl e ↦ inl e
        | inr s ↦ elim rest [ inl e ↦ inl e | inr ss ↦ inr (s ∷ ss) ]
      ]

  -- The code below the first call; `client` is the GetContainerStats of the containers' client.
  unfoldable pub stats_after_vm :
      S → String → List String → Option (String → GoError ⊎ S) → GoError ⊎ List S
  unfolding sidecar_stats
  stats_after_vm s name [] client = inr (rename name s ∷ [])
  stats_after_vm s name (n ∷ ns) none = inl (not_found "container client not available")
  stats_after_vm s name (n ∷ ns) (some stats_of) = elim (sidecar_stats stats_of (n ∷ ns)) [
    | inl e ↦ inl e
    | inr ss ↦ inr (rename name s ∷ ss)
  ]

  unfoldable pub get_virtualization_group_stats :
      GoError ⊎ S → String → List String → Option (String → GoError ⊎ S) → GoError ⊎ List S
  unfolding stats_after_vm
  get_virtualization_group_stats (inl e) name names client = inl e
  get_virtualization_group_stats (inr s) name names client = stats_after_vm s name names client
