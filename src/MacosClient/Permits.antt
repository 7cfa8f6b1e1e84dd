-- ===== src/MacosClient/Permits.antt =====
-- pkg/resourcemanager/macos_permits.go: a virtual machine may start only with one of the permits.
-- `permits` is the number of tokens in the channel `vmPermits`, which holds `max_virtual_machines`.
-- A function that blocks for ever returns `none`.
pub mod Balance
pub mod Release
pub mod Schedule
use mac_os_vz_kubelet.Common.{
  ℕ, suc, zero, ◌+◌, ◌-◌, ◌<◌, ◌≡◌, Bool, true, false, Option, none, some, List, [], ◌∷◌,
  NamespacedName, GoError, not_found, invalid_input, text, ltb, or_else, if◌then◌else◌,
}
use mathlib.Core.Option
use mac_os_vz_kubelet.MacosClient.VmData.{VirtualMachineInfo, VmMap, load, update}

abbrev pub max_virtual_machines : ℕ
max_virtual_machines = 2

-- The part of MacOSClient that the permits and the table of virtual machines make up.
pub record Client (m : VmMap) : Type 0 where
  pub vms : m.Map
  pub permits : ℕ

-- The callback that markPermitAcquired hands to Update, and that of releasePermit.
abbrev pub claim_callback : VirtualMachineInfo → VirtualMachineInfo
claim_callback info = if info.permit_acquired then info else record info { permit_acquired = true }

abbrev pub clear_callback : VirtualMachineInfo → VirtualMachineInfo
clear_callback info = if info.permit_acquired then record info { permit_acquired = false } else info

-- What markPermitAcquired returns, from the entry that its callback saw.
abbrev pub mark_result : Option VirtualMachineInfo → Option GoError
mark_result none = some (not_found "virtual machine info expired")
mark_result (some info) =
    if info.permit_acquired
    then some (invalid_input (text "virtual machine permit already acquired"))
    else none

-- permitGuard; `released` is the state of its sync.Once.
pub record Guard : Type 0 where
  pub key : NamespacedName
  pub committed : Bool
  pub released : Bool

abbrev pub new_guard : NamespacedName → Guard
new_guard key = record { key = key; committed = false; released = false }

abbrev pub commit : Guard → Guard
commit g = record g { committed = true }

module _ (m : VmMap) where
  unfoldable pub mark_permit_acquired : NamespacedName → Client m → Option GoError × Client m
  mark_permit_acquired key c =
      (mark_result (load m key c.vms), record c { vms = (update m key claim_callback c.vms).1 })

  -- The receive `<-c.vmPermits`, which blocks on an empty channel.
  unfoldable pub receive_permit : Client m → Option (Client m)
  receive_permit c = if ltb 0 c.permits then some (record c { permits = c.permits - 1 }) else none

  -- The case of the `select` in acquirePermit that sends a token; it blocks on a full channel.
  unfoldable pub send_permit : Client m → Option (Client m)
  send_permit c =
      if ltb c.permits max_virtual_machines
      then some (record c { permits = suc c.permits })
      else none

  -- The code after the send: on an error of markPermitAcquired the token is taken back.
  unfoldable pub after_mark : Option GoError × Client m → Option (Option GoError × Client m)
  after_mark (none, c) = some (none, c)
  after_mark (some e, c) = Option.map (λ c'. (some e, c')) (receive_permit c)

  unfoldable pub claim_permit : NamespacedName → Client m → Option (Option GoError × Client m)
  unfolding after_mark
  claim_permit key c = after_mark (mark_permit_acquired key c)

  -- acquirePermit where the send goes through; `none` is a wait for the next round of its loop.
  unfoldable pub acquire_permit : NamespacedName → Client m → Option (Option GoError × Client m)
  acquire_permit key c = elim (send_permit c) [ none ↦ none | some c' ↦ claim_permit key c' ]

  -- The Update of releasePermit.
  unfoldable pub clear_permit : NamespacedName → Client m → Client m
  clear_permit key c = record c { vms = (update m key clear_callback c.vms).1 }

  -- The `select` with a `default`: a token is taken if there is one.
  unfoldable pub drain_permit : Client m → Client m
  drain_permit c = or_else (receive_permit c) c

  -- The code after the Update, from the entry that its callback saw.
  unfoldable pub after_clear : Option VirtualMachineInfo → Client m → Option (Client m)
  unfolding drain_permit
  after_clear none c = some (drain_permit c)
  after_clear (some info) c = if info.permit_acquired then receive_permit c else some c

  unfoldable pub release_permit : NamespacedName → Client m → Option (Client m)
  unfolding after_clear
  release_permit key c = after_clear (load m key c.vms) (clear_permit key c)

  -- permitGuard.Release
  unfoldable pub release_guard : Guard → Client m → Option (Guard × Client m)
  release_guard g c =
      let released = record g { released = true } in
      if g.released
      then some (g, c)
      else if g.committed
      then some (released, c)
      else Option.map (λ c'. (released, c')) (release_permit g.key c)
