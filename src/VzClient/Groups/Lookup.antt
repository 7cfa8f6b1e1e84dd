-- ===== src/VzClient/Groups/Lookup.antt =====
-- When GetVirtualizationGroup finds a group, and what it finds.
use mac_os_vz_kubelet.Common.{
  ◌≡◌, ◌↔◌, Bool, true, Option, none, some, GoError, not_found, String, arith, ◌⊎◌,
}
use mac_os_vz_kubelet.Resource.VirtualMachine.{MacOsVirtualMachine}
use mac_os_vz_kubelet.VzClient.Groups.{
  ContainersResult, group_not_found, vm_of, error_of, containers_of, container_error, missing,
  get_virtualization_group,
}

-- The calls gave what the group needs: both something, or one of them something and the other
-- that there is nothing.
abbrev pub Suffices : (GoError → Bool) → Option GoError → Option GoError → Type 0
Suffices is_not_found d e =
    ((d ≡ none) × ((e ≡ none) ⊎ (missing is_not_found e ≡ true)))
    ⊎ ((e ≡ none) × (missing is_not_found d ≡ true))

module _ (is_not_found : GoError → Bool) where
  -- GetVirtualizationGroup gives a group unless both clients have nothing; then its error is
  -- NotFound. The group has the containers and the virtual machine that the calls gave, with the zero
  -- virtual machine where there is none. There is no error exactly if each call succeeds, or one of
  -- them succeeds and the other has nothing; a missing containers' client counts as having nothing.
  get_virtualization_group_lem :
      (cs : ContainersResult) (vm : GoError ⊎ MacOsVirtualMachine)
      → ((s : String) → is_not_found (not_found s) ≡ true)
      → let r = get_virtualization_group is_not_found cs vm in
        let none_found =
          (missing is_not_found (container_error cs) ≡ true)
          × (missing is_not_found (error_of vm) ≡ true) in
        ((r.0 ≡ none) ↔ none_found)
        × ((r.1 ≡ some group_not_found)
            ⊎ ((r.0
                ≡ some
                    (record { containers = containers_of cs; macos_virtual_machine = vm_of vm }))))
        × ((r.1 ≡ none) ↔ Suffices is_not_found (container_error cs) (error_of vm))
  unfolding get_virtualization_group
  get_virtualization_group_lem cs vm h = ground (arith, h "container client not available")
