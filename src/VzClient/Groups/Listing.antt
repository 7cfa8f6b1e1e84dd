-- ===== src/VzClient/Groups/Listing.antt =====
-- What the list of the groups has for each key.
use mac_os_vz_kubelet.Common.{
  ◌≡◌, refl, Option, none, some, List, [], ◌∷◌, NamespacedName, GoError, arith,
  namespaced_name_comparable, key_eq_iff,
}
use mac_os_vz_kubelet.Resource.VirtualMachine.{MacOsVirtualMachine}
use mac_os_vz_kubelet.Resource.Container.{Container}
use mac_os_vz_kubelet.Store.Assoc.{load_entry}
use mac_os_vz_kubelet.VzClient.Groups.{
  ListedGroup, Groups, add_vms, add_containers, with_containers, listed_containers,
  get_virtualization_group_list_result,
}

-- No key stands twice, as in what ranges over a Go map.
abbrev pub IsMap : {A : Type 0} → List (NamespacedName × A) → Type 0
IsMap [] = Unit
IsMap ((k, x) ∷ l) = (load_entry k l ≡ none) × IsMap l

abbrev pub or_kept : Option MacOsVirtualMachine → Option ListedGroup → Option ListedGroup
or_kept none g = g
or_kept (some vm) g = some (record { virtual_machine = some vm; containers = [] })

load_entry-add_vms :
    (j : NamespacedName) (vms : List (NamespacedName × MacOsVirtualMachine)) (l : Groups)
    → IsMap vms
    → load_entry j (add_vms vms l) ≡ or_kept (load_entry j vms) (load_entry j l)
unfolding add_vms
load_entry-add_vms j [] l h = refl
load_entry-add_vms j ((k, vm) ∷ vms) l (a, h) = ground (
  arith,
  load_entry-add_vms j vms ((k, record { virtual_machine = some vm; containers = [] }) ∷ l) h,
  key_eq_iff k j,
  a,
)

abbrev pub or_with : Option (List Container) → Option ListedGroup → Option ListedGroup
or_with none g = g
or_with (some cs) g = some (with_containers cs g)

load_entry-add_containers :
    (j : NamespacedName) (cs : List (NamespacedName × List Container)) (l : Groups)
    → IsMap cs
    → load_entry j (add_containers cs l) ≡ or_with (load_entry j cs) (load_entry j l)
unfolding add_containers
load_entry-add_containers j [] l h = refl
load_entry-add_containers j ((k, c) ∷ cs) l (a, h) = ground (
  arith,
  load_entry-add_containers j cs ((k, with_containers c (load_entry k l)) ∷ l) h,
  key_eq_iff k j,
  a,
)

-- What the list has for a key, from what the two clients have for it.
abbrev pub joined : Option MacOsVirtualMachine → Option (List Container) → Option ListedGroup
joined none none = none
joined (some vm) none = some (record { virtual_machine = some vm; containers = [] })
joined vm (some cs) = some (record { virtual_machine = vm; containers = cs })

-- The list has a group for each key that either client knows and for no other, with its virtual
-- machine and its containers. A group that only the containers' client knows has no virtual machine.
pub get_virtualization_group_list_result_lem :
    (vms : List (NamespacedName × MacOsVirtualMachine)) (vm_err : Option GoError)
    (cs : Option (List (NamespacedName × List Container) × Option GoError)) (j : NamespacedName)
    → IsMap vms
    → IsMap (listed_containers cs)
    → load_entry j (get_virtualization_group_list_result (vms, vm_err) cs).0
      ≡ joined (load_entry j vms) (load_entry j (listed_containers cs))
unfolding get_virtualization_group_list_result
get_virtualization_group_list_result_lem vms vm_err cs j h k = ground (
  arith,
  load_entry-add_containers j (listed_containers cs) (add_vms vms []) k,
  load_entry-add_vms j vms [] h,
)
