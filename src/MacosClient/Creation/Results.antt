-- ===== src/MacosClient/Creation/Results.antt =====
-- What a creation leaves in the table: where the readiness marker comes from, and the entry after
-- a run that nobody disturbs.
use mac_os_vz_kubelet.Common.{
  ℕ, ◌≡◌, refl, ap, ◌∙◌, ◌≢◌, ◌⊎◌, Bool, true, Option, none, some, GoError, arith, Option-cases,
  inl, inr, same_refl, NamespacedName, namespaced_name_comparable, key_eq_iff, with_result,
}
use mac_os_vz_kubelet.Resource.VirtualMachine.{
  VirtualMachineInstance, VirtualMachineState, set_instance, set_error, set_post_start_finished_at,
}
use mac_os_vz_kubelet.Resource.VirtualMachine as Vm
use mac_os_vz_kubelet.MacosClient.VmData.{VirtualMachineInfo, VmMap, update, load}
use mac_os_vz_kubelet.MacosClient.VmData.Laws.{
  update_found, update_missing, load-update, load-store,
}
use mac_os_vz_kubelet.MacosClient.Permits.{
  Client, Guard, release_guard, send_permit, claim_permit, mark_permit_acquired, after_mark,
  receive_permit, clear_permit, claim_callback, clear_callback, release_permit,
}
use mac_os_vz_kubelet.MacosClient.Permits.Release.{after_clear-vms}
use mac_os_vz_kubelet.MacosClient.Creation.{
  Stage, registering, waiting, claiming, building, gating, releasing, finalizing, done, Outcome,
  proceed, permit_sent, setup_done, post_start_returned, Creation, VirtualMachineParams,
  with_cancel, with_instance, with_error, change, go_to, after_register, run_stage, step,
}
use mac_os_vz_kubelet.MacosClient.Creation.Progress.{Run, Run-IsOrderly, started}

abbrev marker_of : Option VirtualMachineInfo → ℕ
marker_of none = 0
marker_of (some i) = i.resource.post_start_finished

abbrev KeepsMarker : (VirtualMachineInfo → VirtualMachineInfo) → Type 0
KeepsMarker f =
    (i : VirtualMachineInfo) → (f i).resource.post_start_finished ≡ i.resource.post_start_finished

-- The outcome of a post-start that succeeded.
abbrev pub IsPostStartSuccess : Outcome → Type 0
IsPostStartSuccess (post_start_returned none t) = Unit
IsPostStartSuccess _ = ⊥

module _ (m : VmMap) where
  -- The time of the readiness marker of an entry, 0 where it is not set or there is no entry.
  abbrev pub marker : NamespacedName → Client m → ℕ
  marker key c = marker_of (load m key c.vms)

  marker-update :
      (j key : NamespacedName) (f : VirtualMachineInfo → VirtualMachineInfo) (c : Client m)
      → KeepsMarker f
      → marker j (record c { vms = (update m key f c.vms).1 }) ≡ marker j c
  marker-update j key f c h = elim (Option-cases (load m key c.vms)) [
    | inl e ↦ rw (update_missing m key f c.vms e) refl
    | inr (i, e) ↦ ground (arith, load-update m j key f c.vms, h i, key_eq_iff key j)
  ]

  receive_permit-vms : (c c' : Client m) → receive_permit m c ≡ some c' → c'.vms ≡ c.vms
  unfolding receive_permit
  receive_permit-vms c c' e = ground arith

  claim_callback-KeepsMarker : KeepsMarker claim_callback
  claim_callback-KeepsMarker i = ground arith

  clear_callback-KeepsMarker : KeepsMarker clear_callback
  clear_callback-KeepsMarker i = ground arith

  after_mark-vms :
      (r : Option GoError) (c : Client m) (x : Option GoError × Client m)
      → after_mark m (r, c) ≡ some x
      → x.1.vms ≡ c.vms
  unfolding after_mark receive_permit
  after_mark-vms none c x e = ground arith
  after_mark-vms (some y) c x e = ground arith

  claim_permit-marker :
      (j key : NamespacedName) (c : Client m) (x : Option GoError × Client m)
      → claim_permit m key c ≡ some x
      → marker j x.1 ≡ marker j c
  unfolding claim_permit mark_permit_acquired
  claim_permit-marker j key c x e =
      ap (λ d. marker_of (load m j d)) (after_mark-vms _ _ x e)
      ∙ marker-update j key claim_callback c claim_callback-KeepsMarker

  release_permit-marker :
      (j key : NamespacedName) (c c' : Client m)
      → release_permit m key c ≡ some c'
      → marker j c' ≡ marker j c
  unfolding release_permit clear_permit
  release_permit-marker j key c c' e =
      ap (λ d. marker_of (load m j d)) (after_clear-vms m _ _ c' e)
      ∙ marker-update j key clear_callback c clear_callback-KeepsMarker

  release_guard-marker :
      (j : NamespacedName) (g : Guard) (c : Client m) (x : Guard × Client m)
      → release_guard m g c ≡ some x
      → marker j x.1 ≡ marker j c
  unfolding release_guard
  release_guard-marker j g c x r = elim (Option-cases (release_permit m g.key c)) [
    | inl e ↦ ground arith
    | inr (c', e) ↦ ground (arith, release_permit-marker j g.key c c' e)
  ]

  send_permit-marker :
      (j : NamespacedName) (c c' : Client m) → send_permit m c ≡ some c' → marker j c' ≡ marker j c
  unfolding send_permit
  send_permit-marker j c c' e = ground arith

with_error-KeepsMarker :
    (err : Option GoError) → KeepsMarker (λ i. with_error err (with_cancel none i))
unfolding set_error
with_error-KeepsMarker none i = refl
with_error-KeepsMarker (some e) i = refl

with_error_lem :
    (err : Option GoError) (i : VirtualMachineInfo)
    → let j = with_error err (with_cancel none i) in
      (j.download_cancel_func ≡ none)
      × (err ≢ none → Vm.state j.resource ≡ VirtualMachineState.failed)
      × (err ≡ none → j.resource ≡ i.resource)
unfolding set_error Vm.state
with_error_lem none i = (refl, (λ n. absurd (n refl)), λ e. refl)
with_error_lem (some x) i = (refl, (λ n. refl), λ e. cc)

module _ (m : VmMap) (is_canceled : GoError → Bool) (p : VirtualMachineParams) (cancel : ℕ) where
  after_register-marker :
      (g : Creation) (c : Client m)
      → marker m p.key
          (after_register m is_canceled p cancel g c
            (update m p.key (with_cancel (some cancel)) c.vms)).1
        ≡ marker m p.key c
  unfolding after_register
  after_register-marker g c = elim (Option-cases (load m p.key c.vms)) [
    | inl e ↦ rw (update_missing m p.key (with_cancel (some cancel)) c.vms e, after_register) refl
    | inr (i, e) ↦
        rw (update_found m p.key (with_cancel (some cancel)) c.vms i e, after_register)
          (ground (
            arith,
            load-store m p.key p.key (with_cancel (some cancel) i) c.vms,
            key_eq_iff p.key p.key,
          ))
  ]

  run_stage-marker :
      (s : Stage) (o : Outcome) (g g' : Creation) (c c' : Client m)
      → run_stage m is_canceled p cancel s o g c ≡ some (g', c')
      → (marker m p.key c' ≡ marker m p.key c) ⊎ ((s ≡ gating) × IsPostStartSuccess o)
  unfolding run_stage set_instance
  run_stage-marker registering proceed g g' c c' e = inl (ground (arith, after_register-marker g c))
  run_stage-marker waiting permit_sent g g' c c' e =
      inl (ground (arith, with_result (send_permit m c) (send_permit-marker m p.key c)))
  run_stage-marker claiming proceed g g' c c' e =
      inl
        (ground (arith, with_result (claim_permit m p.key c) (claim_permit-marker m p.key p.key c)))
  run_stage-marker building (setup_done vm) g g' c c' e =
      inl (ground (arith, marker-update m p.key p.key (with_instance vm) c (λ i. refl)))
  run_stage-marker gating (post_start_returned none t) g g' c c' e = inr (refl, tt)
  run_stage-marker (releasing err) proceed g g' c c' e = inl (
      ground
        (arith, with_result (release_guard m g.guard c) (release_guard-marker m p.key g.guard c)))
  run_stage-marker (finalizing err) proceed g g' c c' e = inl (
      ground (
        arith,
        marker-update m p.key p.key (λ i. with_error err (with_cancel none i)) c
            (with_error-KeepsMarker err),
      ))
  run_stage-marker _ _ g g' c c' e = ground arith

  -- The readiness marker of a virtual machine changes in a step of its creation only where the
  -- post-start returned without an error; the start of the virtual machine has then been recorded,
  -- and its permit is committed.
  pub step-marker :
      (o : Outcome) (g g' : Creation) (c c' : Client m)
      → Run m is_canceled p cancel g c
      → step m is_canceled p cancel o g c ≡ some (g', c')
      → marker m p.key c' ≢ marker m p.key c
      → IsPostStartSuccess o × (g.guard.committed ≡ true) × (started g ≡ 1)
  unfolding step
  step-marker o g g' c c' r e n = elim (run_stage-marker g.stage o g g' c c' e) [
    | inl same ↦ absurd (n same)
    | inr (s, ok) ↦
        let h = Run-IsOrderly m is_canceled p cancel r in
        let told = h.is_gating s in (ok, h.committed_iff.1 told, told)
  ]

  pub change_lem :
      (f : VirtualMachineInfo → VirtualMachineInfo) (c : Client m) (i : VirtualMachineInfo)
      → load m p.key c.vms ≡ some i
      → load m p.key (change m p f c).vms ≡ some (f i)
  change_lem f c i e = rw (load-update m p.key p.key f c.vms, same_refl p.key, e) refl

  -- The deferred end of a creation: an error that it met becomes the state Failed of its entry, the
  -- download can no longer be cancelled, and no other entry changes.
  step-finalizing :
      (err : Option GoError) (g : Creation) (c : Client m) (i : VirtualMachineInfo)
      → g.stage ≡ finalizing err
      → load m p.key c.vms ≡ some i
      → (g' : Creation) × (c' : Client m) × (j : VirtualMachineInfo) × (step m is_canceled p cancel
            proceed g c
          ≡ some (g', c'))
        × (g'.stage ≡ done)
        × (load m p.key c'.vms ≡ some j)
        × (j.download_cancel_func ≡ none)
        × (err ≢ none → Vm.state j.resource ≡ VirtualMachineState.failed)
        × (err ≡ none → j.resource ≡ i.resource)
        × ((k : NamespacedName) → k ≢ p.key → load m k c'.vms ≡ load m k c.vms)
  unfolding step run_stage
  step-finalizing err g c i s e = (
    go_to done g,
    change m p (λ i. with_error err (with_cancel none i)) c,
    with_error err (with_cancel none i),
    rw (s, run_stage) refl,
    refl,
    change_lem _ c i e,
    (with_error_lem err i).0,
    (with_error_lem err i).1,
    (with_error_lem err i).2,
    λ k n. ground (
      arith,
      load-update m k p.key (λ i. with_error err (with_cancel none i)) c.vms,
      key_eq_iff p.key k,
    ),
  )
