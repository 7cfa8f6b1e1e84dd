-- ===== src/MacosClient/Creation/FullRun.antt =====
-- The entry after a run of a creation that nobody disturbs.
use mac_os_vz_kubelet.Common.{
  ℕ, suc, ◌-◌, ◌<◌, ◌≡◌, refl, ap, ◌∙◌, Bool, true, false, Option, none, some, List, [], ◌∷◌,
  GoError, arith, namespaced_name_comparable,
}
use mac_os_vz_kubelet.Resource.VirtualMachine.{
  VirtualMachineInstance, set_instance, set_error, set_post_start_finished_at,
}
use mac_os_vz_kubelet.MacosClient.VmData.{VirtualMachineInfo, VmMap, load}
use mac_os_vz_kubelet.MacosClient.VmData.Laws.{update_found}
use mac_os_vz_kubelet.MacosClient.Permits.{
  Client, new_guard, max_virtual_machines, release_guard, send_permit, claim_permit,
  mark_permit_acquired, after_mark, receive_permit, clear_permit, claim_callback, clear_callback,
  release_permit, after_clear,
}
use mac_os_vz_kubelet.MacosClient.Creation.{
  Stage, registering, downloading, waiting, claiming, building, starting, releasing, finalizing,
  done, Outcome, proceed, downloaded, permit_sent, setup_done, start_returned, post_start_returned,
  Creation, VirtualMachineParams, with_cancel, with_instance, with_post_start, with_error, change,
  go_to, pulled_image, created_container, started_container, failed_to_start_container,
  after_register, after_claim, run_stage, step, run, new_creation,
}
use mac_os_vz_kubelet.MacosClient.Creation.Results.{change_lem}

module _ (m : VmMap) (is_canceled : GoError → Bool) (p : VirtualMachineParams) (cancel : ℕ) where
  run-cons :
      (o : Outcome) (os : List Outcome) (g g' : Creation) (c c' : Client m)
      → step m is_canceled p cancel o g c ≡ some (g', c')
      → run m is_canceled p cancel (o ∷ os) g c ≡ run m is_canceled p cancel os g' c'
  unfolding run
  run-cons o os g g' c c' e = rw (e, run) refl

  abbrev registered : Client m → Client m
  registered = change m p (with_cancel (some cancel))

  register_step :
      (g : Creation) (c : Client m) (i : VirtualMachineInfo)
      → g.stage ≡ registering
      → load m p.key c.vms ≡ some i
      → step m is_canceled p cancel proceed g c ≡ some (go_to downloading g, registered c)
  unfolding step run_stage after_register
  register_step g c i s e =
      rw (s, run_stage, update_found m p.key (with_cancel (some cancel)) c.vms i e, after_register)
        refl

  abbrev token_sent : Client m → Client m
  token_sent c = record c { permits = suc c.permits }

  send_step :
      (g : Creation) (c : Client m)
      → g.stage ≡ waiting
      → c.permits < max_virtual_machines
      → step m is_canceled p cancel permit_sent g c ≡ some (go_to claiming g, token_sent c)
  unfolding step run_stage send_permit
  send_step g c s h = rw (s, run_stage) (ground arith)

  claim_step :
      (g : Creation) (c : Client m) (i : VirtualMachineInfo)
      → g.stage ≡ claiming
      → load m p.key c.vms ≡ some i
      → i.permit_acquired ≡ false
      → step m is_canceled p cancel proceed g c
        ≡ some (record g { stage = building; guard = new_guard p.key }, change m p claim_callback c)
  unfolding step run_stage claim_permit mark_permit_acquired after_mark after_claim
  claim_step g c i s e h = rw (s, run_stage, e, h) refl

  -- The outcomes of the calls when all goes well, up to the start.
  abbrev pub up_to_start : VirtualMachineInstance → List Outcome → List Outcome
  up_to_start vm os = proceed ∷ downloaded none ∷ permit_sent ∷ proceed ∷ setup_done vm ∷ os

  -- The goroutine and the client when the start is called.
  abbrev at_start : Creation
  at_start = record {
    stage = starting;
    guard = new_guard p.key;
    events = created_container ∷ pulled_image ∷ [];
  }

  abbrev built : VirtualMachineInstance → Client m → Client m
  built vm c = change m p (with_instance vm) (change m p claim_callback (token_sent (registered c)))

  abbrev built_info : VirtualMachineInstance → VirtualMachineInfo → VirtualMachineInfo
  built_info vm i = with_instance vm (claim_callback (with_cancel (some cancel) i))

  run-up_to_start :
      (vm : VirtualMachineInstance) (os : List Outcome) (c : Client m) (i : VirtualMachineInfo)
      → load m p.key c.vms ≡ some i
      → i.permit_acquired ≡ false
      → c.permits < max_virtual_machines
      → (run m is_canceled p cancel (up_to_start vm os) (new_creation p) c
          ≡ run m is_canceled p cancel os at_start (built vm c))
        × (load m p.key (built vm c).vms ≡ some (built_info vm i))
  unfolding step run_stage
  run-up_to_start vm os c i e h room =
      let e1 = change_lem m is_canceled p cancel (with_cancel (some cancel)) c i e in
      let e2 = change_lem m is_canceled p cancel claim_callback (token_sent (registered c)) _ e1 in
      let c3 = change m p claim_callback (token_sent (registered c)) in
      (
        run-cons _ _ _ _ _ _ (register_step (new_creation p) c i refl e)
            ∙ run-cons (downloaded none) _ _ _ _ _ refl
            ∙ run-cons _ _ _ _ _ _ (send_step _ (registered c) refl room)
            ∙ run-cons _ _ _ _ _ _ (claim_step _ (token_sent (registered c)) _ refl e1 h)
            ∙ run-cons (setup_done vm) os _ _ c3 _ refl,
        change_lem m is_canceled p cancel (with_instance vm) c3 _ e2,
      )

  -- A creation of a registered virtual machine that meets no error, with a permit free and nobody
  -- else at work, ends with a committed permit: its entry has the instance, whatever the state that the
  -- instance reports, the time at which the post-start command has finished, a permit and no cancel
  -- function, one more token is in the channel, and the events recorded are PulledImage,
  -- CreatedContainer and StartedContainer.
  pub run_success :
      (vm : VirtualMachineInstance) (t : ℕ) (c : Client m) (i : VirtualMachineInfo)
      → load m p.key c.vms ≡ some i
      → i.permit_acquired ≡ false
      → c.permits < max_virtual_machines
      → (g' : Creation) × (c' : Client m) × (run m is_canceled p cancel
            (up_to_start vm
              (start_returned none ∷ post_start_returned none t ∷ proceed ∷ proceed ∷ []))
            (new_creation p)
            c
          ≡ some (g', c'))
        × (g'.stage ≡ done)
        × (g'.guard.committed ≡ true)
        × (g'.events ≡ started_container ∷ created_container ∷ pulled_image ∷ [])
        × (c'.permits ≡ suc c.permits)
        × (load m p.key c'.vms
            ≡ some (record i {
              resource = set_post_start_finished_at t (set_instance vm i.resource);
              download_cancel_func = none;
              permit_acquired = true;
            }))
  unfolding step run_stage release_guard run
  run_success vm t c i e h room =
      let (r, e1) =
        run-up_to_start vm
          (start_returned none ∷ post_start_returned none t ∷ proceed ∷ proceed ∷ []) c i e h
          room in
      let e2 = change_lem m is_canceled p cancel (with_post_start t) (built vm c) _ e1 in
      let e3 =
        change_lem m is_canceled p cancel (with_cancel none)
          (change m p (with_post_start t) (built vm c)) _ e2 in
      (_, _, r, refl, refl, refl, refl, e3 ∙ ap some (ground arith))

  abbrev handed_back : Client m → Client m
  handed_back c = record (change m p clear_callback c) { permits = c.permits - 1 }

  release_step :
      (g : Creation) (err : Option GoError) (c : Client m) (i : VirtualMachineInfo)
      → g.stage ≡ releasing err
      → g.guard ≡ new_guard p.key
      → load m p.key c.vms ≡ some i
      → i.permit_acquired ≡ true
      → 0 < c.permits
      → step m is_canceled p cancel proceed g c
        ≡ some (
          record g { stage = finalizing err; guard = record (new_guard p.key) { released = true } },
          handed_back c,
        )
  unfolding step run_stage release_guard release_permit clear_permit
  release_step g err c i s guard e held h =
      rw (s, run_stage, guard, e, after_clear, held) (ground (arith, taken))
    where
      taken : receive_permit m (change m p clear_callback c) ≡ some (handed_back c)
      taken = unfold receive_permit in ground arith

  abbrev failing : Stage → Bool → GoError → Creation
  failing stage released x = record {
    stage = stage;
    guard = record (new_guard p.key) { released = released };
    events = failed_to_start_container x ∷ created_container ∷ pulled_image ∷ [];
  }

  abbrev failed_client : GoError → Client m → Client m
  failed_client x d = change m p (λ j. with_error (some x) (with_cancel none j)) (handed_back d)

  run_failed_start :
      (x : GoError) (d : Client m) (j : VirtualMachineInfo)
      → load m p.key d.vms ≡ some j
      → j.permit_acquired ≡ true
      → 0 < d.permits
      → run m is_canceled p cancel (start_returned (some x) ∷ proceed ∷ proceed ∷ []) at_start d
        ≡ some (failing done true x, failed_client x d)
  unfolding step run_stage
  run_failed_start x d j e held h =
      run-cons (start_returned (some x)) (proceed ∷ proceed ∷ []) at_start
        (failing (releasing (some x)) false x) d d refl
      ∙ run-cons proceed (proceed ∷ []) (failing (releasing (some x)) false x)
          (failing (finalizing (some x)) true x) d (handed_back d)
          (release_step (failing (releasing (some x)) false x) (some x) d j refl refl e held h)
      ∙ run-cons proceed [] (failing (finalizing (some x)) true x) (failing done true x)
          (handed_back d) (failed_client x d) refl
      ∙ unfold run in refl

  -- Where the start of the virtual machine fails instead, the creation ends with the entry Failed
  -- and without a permit, and the token that it had sent is taken back.
  run_start_failure :
      (vm : VirtualMachineInstance) (x : GoError) (c : Client m) (i : VirtualMachineInfo)
      → load m p.key c.vms ≡ some i
      → i.permit_acquired ≡ false
      → c.permits < max_virtual_machines
      → (g' : Creation) × (c' : Client m) × (run m is_canceled p cancel
            (up_to_start vm (start_returned (some x) ∷ proceed ∷ proceed ∷ []))
            (new_creation p)
            c
          ≡ some (g', c'))
        × (g'.stage ≡ done)
        × (g'.events ≡ failed_to_start_container x ∷ created_container ∷ pulled_image ∷ [])
        × (c'.permits ≡ c.permits)
        × (load m p.key c'.vms
            ≡ some (record i {
              resource = set_error x (set_instance vm i.resource);
              download_cancel_func = none;
              permit_acquired = false;
            }))
  run_start_failure vm x c i e h room =
      let (r, e1) =
        run-up_to_start vm (start_returned (some x) ∷ proceed ∷ proceed ∷ []) c i e h room in
      let held : (built_info vm i).permit_acquired ≡ true = ground arith in
      let e2 = change_lem m is_canceled p cancel clear_callback (built vm c) _ e1 in
      let e3 =
        change_lem m is_canceled p cancel (λ j. with_error (some x) (with_cancel none j))
          (handed_back (built vm c)) _ e2 in
      (
        _,
        _,
        r ∙ run_failed_start x (built vm c) _ e1 held (omega arith),
        refl,
        refl,
        omega arith,
        e3 ∙ ap some (ground arith),
      )
