-- ===== src/MacosClient/Permits/Release.antt =====
-- What releasePermit and the guard do to the balance of tokens and holders.
use mac_os_vz_kubelet.Common.{
  ℕ, suc, ◌+◌, ◌-◌, ◌≤◌, ◌≡◌, refl, ap, ◌∙◌, true, false, Option, none, some, NamespacedName, arith,
  Bool-cases, inl, inr, if◌then◌else◌, same_refl, namespaced_name_comparable, count,
}
use mac_os_vz_kubelet.MacosClient.VmData.{VirtualMachineInfo, VmMap, load, all, delete}
use mac_os_vz_kubelet.MacosClient.VmData.Laws.{
  load-update, update_missing, load-delete, count-delete,
}
use mac_os_vz_kubelet.MacosClient.Permits.{
  Client, Guard, new_guard, clear_callback, receive_permit, clear_permit, drain_permit, after_clear,
  release_permit, release_guard,
}
use mac_os_vz_kubelet.MacosClient.Permits.Balance.{
  is_holder, holders, IsBalanced, receive_permit-IsBalanced, clear_permit-holders,
}

module _ (m : VmMap) where
  clear_permit_lem :
      (key : NamespacedName) (c : Client m) (info : VirtualMachineInfo)
      → load m key c.vms ≡ some info
      → ((clear_permit m key c).permits ≡ c.permits)
        × (load m key (clear_permit m key c).vms ≡ some (clear_callback info))
        × (info.permit_acquired ≡ true → suc (holders m (clear_permit m key c)) ≡ holders m c)
        × (info.permit_acquired ≡ false → holders m (clear_permit m key c) ≡ holders m c)
  unfolding clear_permit
  clear_permit_lem key c info e = (
    refl,
    rw (load-update m key key clear_callback c.vms, same_refl key, e) refl,
    λ h. ground (arith, clear_permit-holders m key c),
    λ h. ground (arith, clear_permit-holders m key c),
  )

  release_permit_found :
      (key : NamespacedName) (c : Client m) (info : VirtualMachineInfo)
      → load m key c.vms ≡ some info
      → release_permit m key c ≡ (
          if info.permit_acquired
          then receive_permit m (clear_permit m key c)
          else some (clear_permit m key c))
  unfolding release_permit
  release_permit_found key c info e = rw (e, after_clear) refl

  -- For a key in the table, releasePermit returns at once; afterwards its entry has no permit, and
  -- every token is still accounted for: one was taken back if and only if the entry had one.
  pub release_permit-IsBalanced :
      (spare : ℕ) (key : NamespacedName) (c : Client m) (info : VirtualMachineInfo)
      → load m key c.vms ≡ some info
      → IsBalanced m spare c
      → (c' : Client m) × (release_permit m key c ≡ some c')
        × IsBalanced m spare c'
        × (load m key c'.vms ≡ some (record info { permit_acquired = false }))
        × (c'.permits + (if info.permit_acquired then 1 else 0) ≡ c.permits)
  release_permit-IsBalanced spare key c info e b = elim (Bool-cases info.permit_acquired) [
    | inl h ↦
        let (p, l, held, _) = clear_permit_lem key c info e in
        let (c', r, b', v, q) =
          receive_permit-IsBalanced m spare (clear_permit m key c) (ground (arith, p, held)) in
        (
          c',
          release_permit_found key c info e
              ∙ ap
                  (λ x.
                    if x
                    then receive_permit m (clear_permit m key c)
                    else some (clear_permit m key c))
                  h
              ∙ r,
          b',
          ap (load m key) v ∙ l ∙ ap some (ground arith),
          ground (arith, q, p),
        )
    | inr h ↦
        let (p, l, _, same) = clear_permit_lem key c info e in
        (
          clear_permit m key c,
          release_permit_found key c info e ∙ rw h refl,
          ground (arith, p, same),
          rw l (ap some (ground arith)),
          ground (arith, p),
        )
  ]

  holders_of_vms : (c c' : Client m) → c'.vms ≡ c.vms → holders m c' ≡ holders m c
  unfolding holders
  holders_of_vms c c' e = ap (λ d. count is_holder (all m d)) e

  drain_permit_lem :
      (c : Client m)
      → ((drain_permit m c).permits ≡ c.permits - 1) × ((drain_permit m c).vms ≡ c.vms)
  unfolding drain_permit receive_permit
  drain_permit_lem c = ground arith

  clear_permit_missing :
      (key : NamespacedName) (c : Client m) → load m key c.vms ≡ none → clear_permit m key c ≡ c
  unfolding clear_permit
  clear_permit_missing key c e = rw (update_missing m key clear_callback c.vms e) refl

  -- For a key that is not in the table, releasePermit takes a token all the same, if there is one,
  -- and leaves the table as it is.
  pub release_permit_missing :
      (key : NamespacedName) (c : Client m)
      → load m key c.vms ≡ none
      → (c' : Client m) × (release_permit m key c ≡ some c')
        × (c'.permits ≡ c.permits - 1)
        × (c'.vms ≡ c.vms)
  unfolding release_permit
  release_permit_missing key c e = (
    drain_permit m c,
    rw (e, after_clear, clear_permit_missing key c e) refl,
    (drain_permit_lem c).0,
    (drain_permit_lem c).1,
  )

  -- Deleting an entry without a permit changes no balance.
  pub holders-delete :
      (key : NamespacedName) (c : Client m) (info : VirtualMachineInfo)
      → load m key c.vms ≡ some info
      → info.permit_acquired ≡ false
      → holders m (record c { vms = delete m key c.vms }) ≡ holders m c
  unfolding holders
  holders-delete key c info e h = ground (arith, count-delete m is_holder key c.vms)

  pub after_clear-vms :
      (o : Option VirtualMachineInfo) (c c' : Client m)
      → after_clear m o c ≡ some c'
      → c'.vms ≡ c.vms
  unfolding after_clear drain_permit receive_permit
  after_clear-vms none c c' e = ground arith
  after_clear-vms (some i) c c' e = ground arith

  -- The calls of a deletion that overtakes a creation which has claimed its permit and then fails:
  -- DeleteVirtualMachine releases the permit and deletes the entry, and then the guard of the
  -- creation is released.
  unfoldable pub late_release : NamespacedName → Client m → Option (Guard × Client m)
  late_release key c = elim (release_permit m key c) [
    | none ↦ none
    | some c' ↦ release_guard m (new_guard key) (record c' { vms = delete m key c'.vms })
  ]

  -- When a virtual machine with a permit is deleted, and another one holds a permit too, a release
  -- of the guard after the deletion takes the other's token: one token fewer than holders is left,
  -- so that the channel admits one virtual machine more than there are permits.
  pub late_release-holders :
      (key : NamespacedName) (c : Client m) (info : VirtualMachineInfo)
      → load m key c.vms ≡ some info
      → info.permit_acquired ≡ true
      → IsBalanced m 0 c
      → 2 ≤ holders m c
      → (g : Guard) × (c' : Client m) × (late_release key c ≡ some (g, c'))
        × (suc c'.permits ≡ holders m c')
  unfolding late_release release_guard
  late_release-holders key c info e h b two =
      let (c1, r, b1, l, q) = release_permit-IsBalanced 0 key c info e b in
      let d : Client m = record c1 { vms = delete m key c1.vms } in
      let gone : load m key d.vms ≡ none = rw (load-delete m key key c1.vms, same_refl key) refl in
      let same : holders m d ≡ holders m c1 = holders-delete key c1 _ l refl in
      let (c2, r2, p2, v2) = release_permit_missing key d gone in
      (
        record (new_guard key) { released = true },
        c2,
        rw (r, late_release, r2, release_guard) refl,
        ground (arith, p2, same, b1, b, q, holders_of_vms d c2 v2),
      )

  -- A guard is released at most once, and a committed guard never gives its permit back: once
  -- Release has returned, a further Release changes nothing, and after Commit the first one leaves
  -- the client as it is.
  release_guard_once :
      (g g' : Guard) (c c' d : Client m)
      → release_guard m g c ≡ some (g', c')
      → (release_guard m g' d ≡ some (g', d)) × (g.committed ≡ true → c' ≡ c)
  unfolding release_guard
  release_guard_once g g' c c' d e = ground arith
