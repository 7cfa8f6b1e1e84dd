-- ===== src/MacosClient/Permits/Balance.antt =====
-- The tokens in the channel against the entries that hold a permit.
use mac_os_vz_kubelet.Common.{
  ℕ, suc, ◌+◌, ◌-◌, ◌≤◌, ◌≡◌, refl, ap, Bool, true, Option, none, some, NamespacedName, GoError,
  count, arith, namespaced_name_comparable, ◌≢◌,
}
use mathlib.Core.Option
use mac_os_vz_kubelet.Store.{entry_of}
use mac_os_vz_kubelet.MacosClient.VmData.{VirtualMachineInfo, VmMap, load, update, all}
use mac_os_vz_kubelet.MacosClient.VmData.Laws.{count-update, updated}
use mac_os_vz_kubelet.MacosClient.Permits.{
  Client, max_virtual_machines, claim_callback, clear_callback, mark_permit_acquired,
  receive_permit, send_permit, after_mark, claim_permit, clear_permit,
}

-- An entry whose virtual machine has a permit.
abbrev pub is_holder : NamespacedName × VirtualMachineInfo → Bool
is_holder (key, info) = info.permit_acquired

module _ (m : VmMap) where
  -- How many entries of the table hold a permit.
  unfoldable pub holders : Client m → ℕ
  holders c = count is_holder (all m c.vms)

  pub holders-update :
      (key : NamespacedName) (f : VirtualMachineInfo → VirtualMachineInfo) (c : Client m)
      → holders (record c { vms = (update m key f c.vms).1 })
          + count is_holder (entry_of key (load m key c.vms))
        ≡ holders c + count is_holder (entry_of key (updated f (load m key c.vms)))
  unfolding holders
  holders-update key f c = count-update m is_holder key f c.vms

  -- A marking adds a holder when it succeeds, and otherwise none; no token moves.
  pub mark_permit_acquired-holders :
      (key : NamespacedName) (c : Client m)
      → let (r, c') = mark_permit_acquired m key c in
        (c'.permits ≡ c.permits)
        × (r ≡ none → holders c' ≡ suc (holders c))
        × (r ≢ none → holders c' ≡ holders c)
  unfolding mark_permit_acquired
  mark_permit_acquired-holders key c = ground (arith, holders-update key claim_callback c)

  -- `spare` tokens are on their way: sent and not yet claimed, or cleared and not yet taken back.
  abbrev pub IsBalanced : ℕ → Client m → Type 0
  IsBalanced spare c = (c.permits ≡ holders c + spare) × (c.permits ≤ max_virtual_machines)

  pub send_permit-IsBalanced :
      (spare : ℕ) (c : Client m) {c' : Client m}
      → IsBalanced spare c
      → send_permit m c ≡ some c'
      → IsBalanced (suc spare) c'
  unfolding send_permit holders
  send_permit-IsBalanced spare c h e = ground arith

  pub receive_permit-IsBalanced :
      (spare : ℕ) (c : Client m)
      → IsBalanced (suc spare) c
      → (c' : Client m) × (receive_permit m c ≡ some c')
        × IsBalanced spare c'
        × (c'.vms ≡ c.vms)
        × (suc c'.permits ≡ c.permits)
  unfolding receive_permit holders
  receive_permit-IsBalanced spare c h =
      (record c { permits = c.permits - 1 }, ground arith, ground arith, refl, ground arith)

  -- The entry of a key after a claim or a clearing.
  after_mark-IsBalanced :
      (spare : ℕ) (r : Option GoError) (c : Client m)
      → (r ≡ none → IsBalanced spare c)
      → (r ≢ none → IsBalanced (suc spare) c)
      → (c' : Client m) × (after_mark m (r, c) ≡ some (r, c')) × IsBalanced spare c'
  unfolding after_mark
  after_mark-IsBalanced spare none c h k = (c, refl, h refl)
  after_mark-IsBalanced spare (some x) c h k =
      let (c', e, b, _, _) = receive_permit-IsBalanced spare c (k (λ e. cc)) in
      (c', ap (Option.map (λ d. (some x, d))) e, b)

  -- A goroutine that has sent a token either claims the permit for its virtual machine or gives the
  -- token back; it never blocks, and the token is then no longer on its way.
  pub claim_permit-IsBalanced :
      (spare : ℕ) (key : NamespacedName) (c : Client m)
      → IsBalanced (suc spare) c
      → (r : Option GoError) × (c' : Client m) × (claim_permit m key c ≡ some (r, c'))
        × IsBalanced spare c'
  unfolding claim_permit
  claim_permit-IsBalanced spare key c h =
      let (r, c') = mark_permit_acquired m key c in
      let p = mark_permit_acquired-holders key c in
      let (d, e, b) =
        after_mark-IsBalanced spare r c' (λ x. ground (arith, p)) (λ x. ground (arith, p)) in
      (r, d, e, b)

  -- The Update of releasePermit takes the permit from the entry of its key, if it has one.
  pub clear_permit-holders :
      (key : NamespacedName) (c : Client m)
      → holders (clear_permit m key c) + count is_holder (entry_of key (load m key c.vms))
        ≡ holders c
  unfolding clear_permit
  clear_permit-holders key c = ground (arith, holders-update key clear_callback c)

  pub clear_permit-IsBalanced :
      (spare : ℕ) (key : NamespacedName) (c : Client m) (info : VirtualMachineInfo)
      → load m key c.vms ≡ some info
      → info.permit_acquired ≡ true
      → IsBalanced spare c
      → IsBalanced (suc spare) (clear_permit m key c)
  clear_permit-IsBalanced spare key c info e h b =
      ground (arith, clear_permit-holders key c, clear_permit-permits)
    where
      clear_permit-permits : (clear_permit m key c).permits ≡ c.permits
      clear_permit-permits = unfold clear_permit in refl
