-- ===== src/MacosClient/Deletion/Laws.antt =====
-- What a deletion does, and what a creation that follows finds.
use mac_os_vz_kubelet.Common.{
  ℕ, ◌+◌, ◌≡◌, ◌≢◌, refl, ap, ◌∙◌, Option, none, some, [], ◌∷◌, NamespacedName, GoError, arith,
  if◌then◌else◌, same_refl, namespaced_name_comparable, key_eq_iff, inl, inr, invalid_input, text,
}
use mac_os_vz_kubelet.MacosClient.VmData.{VirtualMachineInfo, VmMap, load}
use mac_os_vz_kubelet.MacosClient.VmData.Laws.{
  load-delete, load-update, load_or_store_found, load_or_store_missing, load-store,
}
use mac_os_vz_kubelet.MacosClient.Permits.{Client, release_permit, clear_permit, clear_callback}
use mac_os_vz_kubelet.MacosClient.Permits.Balance.{IsBalanced, holders}
use mac_os_vz_kubelet.MacosClient.Permits.Release.{
  release_permit-IsBalanced, holders-delete, after_clear-vms,
}
use mac_os_vz_kubelet.MacosClient.Creation.{
  VirtualMachineParams, create_virtual_machine, after_store, new_info, new_creation, pulling_image,
}
use mac_os_vz_kubelet.MacosClient.Deletion.{
  delete_effects, delete_error, remove_entry, delete_found, delete_virtual_machine,
}

module _ (m : VmMap) where
  release_permit-others :
      (j key : NamespacedName) (c c' : Client m)
      → release_permit m key c ≡ some c'
      → j ≢ key
      → load m j c'.vms ≡ load m j c.vms
  unfolding release_permit clear_permit
  release_permit-others j key c c' e n =
      ap (load m j) (after_clear-vms m _ _ c' e)
      ∙ ground (arith, load-update m j key clear_callback c.vms, key_eq_iff key j)

  -- A deletion of a registered virtual machine returns; it cancels the download, stops the instance
  -- and closes the connection, as far as the entry has them and in that order, and fails only as
  -- the stop fails. Afterwards the entry is gone, its permit is free again, every token is still
  -- accounted for, and no other entry has changed.
  delete_virtual_machine_found :
      (spare : ℕ) (key : NamespacedName) (grace_period : ℕ) (stop_error : Option GoError)
      (c : Client m) (info : VirtualMachineInfo)
      → load m key c.vms ≡ some info
      → IsBalanced m spare c
      → (c' : Client m) × (delete_virtual_machine m key grace_period stop_error c
          ≡ some (
            (delete_error info.resource.instance_ptr stop_error, delete_effects info grace_period),
            c',
          ))
        × (load m key c'.vms ≡ none)
        × (c'.permits + (if info.permit_acquired then 1 else 0) ≡ c.permits)
        × IsBalanced m spare c'
        × ((j : NamespacedName) → j ≢ key → load m j c'.vms ≡ load m j c.vms)
  unfolding delete_virtual_machine
  delete_virtual_machine_found spare key grace_period stop_error c info e b =
      let (c1, r, b1, l, q) = release_permit-IsBalanced m spare key c info e b in
      let gone : holders m (remove_entry m key c1) ≡ holders m c1 =
        holders-delete m key c1 _ l refl in
      (
        remove_entry m key c1,
        rw (e, delete_virtual_machine, r, delete_found) refl,
        rw (load-delete m key key c1.vms, same_refl key) refl,
        q,
        ground (arith, b1, gone),
        λ j n. ground (
          arith,
          load-delete m j key c1.vms,
          key_eq_iff key j,
          release_permit-others j key c c1 r n,
        ),
      )

  -- CreateVirtualMachine refuses a key that is in the table, with nothing changed, told or started.
  -- For another key it stores a fresh entry, records PullingImage, starts the goroutine, and leaves
  -- the tokens and every other entry as they are.
  create_virtual_machine_lem :
      (p : VirtualMachineParams) (conn : ℕ) (c : Client m)
      → ((info : VirtualMachineInfo)
          → load m p.key c.vms ≡ some info
          → create_virtual_machine m p conn c
            ≡ (inl (invalid_input (text "virtual machine already exists")), [], c))
        × (load m p.key c.vms ≡ none
            → (c' : Client m) × (create_virtual_machine m p conn c
                ≡ (inr (new_creation p), pulling_image ∷ [], c'))
              × (load m p.key c'.vms ≡ some (new_info p conn))
              × (c'.permits ≡ c.permits)
              × ((j : NamespacedName) → j ≢ p.key → load m j c'.vms ≡ load m j c.vms))
  unfolding create_virtual_machine after_store
  create_virtual_machine_lem p conn c = (
    (λ info e. rw (load_or_store_found m p.key (new_info p conn) info c.vms e) refl),
    λ e. (
      record c { vms = m.store p.key (new_info p conn) c.vms },
      rw (load_or_store_missing m p.key (new_info p conn) c.vms e) refl,
      rw (load-store m p.key p.key (new_info p conn) c.vms, same_refl p.key) refl,
      refl,
      λ j n. ground (arith, load-store m j p.key (new_info p conn) c.vms, key_eq_iff p.key j),
    ),
  )
