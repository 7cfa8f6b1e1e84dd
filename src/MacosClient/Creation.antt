-- ===== src/MacosClient/Creation.antt =====
-- CreateVirtualMachine, handleVirtualMachineCreation, createVirtualMachineInstance and
-- finalizeVirtualMachineInfo of pkg/resourcemanager/macos.go. The goroutine of a creation is a
-- record whose `stage` is the place it has reached; `step` runs it up to the next call that leaves
-- the client, with the outcome of the call it was at. Between two steps any other goroutine may
-- change the client.
pub mod Progress
pub mod Results
pub mod FullRun
use mac_os_vz_kubelet.Common.{
  ℕ, String, Bool, true, false, not, Option, none, some, List, [], ◌∷◌, ◌++◌, NamespacedName,
  GoError, invalid_input, text, if◌then◌else◌, ◌⊎◌, inl, inr,
}
use mathlib.Core.Option
use mac_os_vz_kubelet.Resource.VirtualMachine.{
  EnvVar, VirtualMachineInstance, new_macos_virtual_machine, set_instance, set_error,
  set_post_start_finished_at,
}
use mac_os_vz_kubelet.MacosClient.VmData.{VirtualMachineInfo, VmMap, update, load_or_store}
use mac_os_vz_kubelet.MacosClient.Permits.{
  Client, Guard, new_guard, commit, send_permit, claim_permit, release_guard,
}

-- resource.ExecAction
pub record ExecAction : Type 0 where
  pub command : List String
  pub timeout_duration : ℕ

-- VirtualMachineParams, less what is only handed on to the downloader and to setupVM.
pub record VirtualMachineParams : Type 0 where
  pub image : String
  pub key : NamespacedName
  pub container_name : String
  pub env : List EnvVar
  pub post_start_action : Option ExecAction

-- The calls of the event recorder.
pub data Event : Type 0 where
  pulling_image pulled_image created_container started_container : Event
  back_off_pull_image failed_to_create_container failed_to_start_container : GoError → Event
  failed_post_start_probe failed_post_start_hook : GoError → Event

-- `releasing` and `finalizing` are the deferred calls, with the value of `err`.
pub data Stage : Type 0 where
  registering downloading waiting claiming building starting gating : Stage
  releasing finalizing : Option GoError → Stage
  done : Stage

-- How the call ended that a stage is at; `proceed` is for the stages that call the client only.
pub data Outcome : Type 0 where
  proceed : Outcome
  downloaded : Option GoError → Outcome
  permit_sent : Outcome
  permit_cancelled : GoError → Outcome
  setup_failed : GoError → Outcome
  setup_done : VirtualMachineInstance → Outcome
  start_returned : Option GoError → Outcome
  post_start_returned : Option GoError → ℕ → Outcome

-- The recorded events stand latest first.
pub record Creation : Type 0 where
  pub stage : Stage
  pub guard : Guard
  pub events : List Event

-- The goroutine as CreateVirtualMachine starts it.
abbrev pub new_creation : VirtualMachineParams → Creation
new_creation p = record { stage = registering; guard = new_guard p.key; events = [] }

abbrev pub go_to : Stage → Creation → Creation
go_to stage g = record g { stage = stage }

abbrev pub emit : Event → Creation → Creation
emit e g = record g { events = e ∷ g.events }

-- The updates of the entry.
abbrev pub with_cancel : Option ℕ → VirtualMachineInfo → VirtualMachineInfo
with_cancel cancel i = record i { download_cancel_func = cancel }

abbrev pub with_instance : VirtualMachineInstance → VirtualMachineInfo → VirtualMachineInfo
with_instance vm i = record i { resource = set_instance vm i.resource }

abbrev pub with_post_start : ℕ → VirtualMachineInfo → VirtualMachineInfo
with_post_start t i = record i { resource = set_post_start_finished_at t i.resource }

abbrev pub with_error : Option GoError → VirtualMachineInfo → VirtualMachineInfo
with_error none i = i
with_error (some e) i = record i { resource = set_error e i.resource }

-- The entry that CreateVirtualMachine stores, with a new connection.
abbrev pub new_info : VirtualMachineParams → ℕ → VirtualMachineInfo
new_info p conn = record {
  ref = p.image;
  resource = new_macos_virtual_machine p.env;
  download_cancel_func = none;
  permit_acquired = false;
  ssh_conn = some conn;
}

-- The event for a failed post-start, by whether there is a hook.
abbrev pub post_start_event : Option ExecAction → GoError → Event
post_start_event none e = failed_post_start_probe e
post_start_event (some _) e = failed_post_start_hook e

module _ (m : VmMap) where
  -- CreateVirtualMachine: the error or the goroutine that it starts, and the event before that.
  unfoldable pub after_store :
      VirtualMachineParams
      → Client m
      → (VirtualMachineInfo × Bool) × m.Map
      → (GoError ⊎ Creation) × List Event × Client m
  after_store p c ((_, true), _) =
      (inl (invalid_input (text "virtual machine already exists")), [], c)
  after_store p c ((_, false), d) = (inr (new_creation p), pulling_image ∷ [], record c { vms = d })

  unfoldable pub create_virtual_machine :
      VirtualMachineParams → ℕ → Client m → (GoError ⊎ Creation) × List Event × Client m
  unfolding after_store
  create_virtual_machine p conn c = after_store p c (load_or_store m p.key (new_info p conn) c.vms)

  abbrev pub change :
      VirtualMachineParams → (VirtualMachineInfo → VirtualMachineInfo) → Client m → Client m
  change p f c = record c { vms = (update m p.key f c.vms).1 }

  -- `is_canceled` is errors.Is(err, context.Canceled), and `cancel` the function that cancels the
  -- download. A step returns `none` where the goroutine waits, and for the outcome of another call.
  module _ (is_canceled : GoError → Bool) (p : VirtualMachineParams) (cancel : ℕ) where
    abbrev pub emit_unless_canceled : (GoError → Event) → GoError → Creation → Creation
    emit_unless_canceled event e g = if is_canceled e then g else emit (event e) g

    unfoldable pub after_register :
        Creation → Client m → Option VirtualMachineInfo × m.Map → Creation × Client m
    after_register g c (none, _) = (go_to (finalizing none) g, c)
    after_register g c (some _, d) = (go_to downloading g, record c { vms = d })

    unfoldable pub after_claim :
        Creation → Option (Option GoError × Client m) → Option (Creation × Client m)
    after_claim g none = none
    after_claim g (some (none, c)) =
        some (record g { stage = building; guard = new_guard p.key }, c)
    after_claim g (some (some e, c)) = some (go_to (finalizing (some e)) g, c)

    unfoldable pub run_stage : Stage → Outcome → Creation → Client m → Option (Creation × Client m)
    unfolding after_register after_claim
    run_stage registering proceed g c =
        some (after_register g c (update m p.key (with_cancel (some cancel)) c.vms))
    run_stage downloading (downloaded (some e)) g c =
        some (go_to (finalizing (some e)) (emit_unless_canceled back_off_pull_image e g), c)
    run_stage downloading (downloaded none) g c = some (go_to waiting (emit pulled_image g), c)
    run_stage waiting permit_sent g c = Option.map (λ c'. (go_to claiming g, c')) (send_permit m c)
    run_stage waiting (permit_cancelled e) g c = some (go_to (finalizing (some e)) g, c)
    run_stage claiming proceed g c = after_claim g (claim_permit m p.key c)
    run_stage building (setup_failed e) g c =
        some (go_to (releasing (some e)) (emit (failed_to_create_container e) g), c)
    run_stage building (setup_done vm) g c =
        some (go_to starting (emit created_container g), change p (with_instance vm) c)
    run_stage starting (start_returned (some e)) g c =
        some (go_to (releasing (some e)) (emit (failed_to_start_container e) g), c)
    run_stage starting (start_returned none) g c =
        some (go_to gating (emit started_container (record g { guard = commit g.guard })), c)
    run_stage gating (post_start_returned (some e) t) g c = some (
      go_to (releasing (some e)) (emit_unless_canceled (post_start_event p.post_start_action) e g),
      c,
    )
    run_stage gating (post_start_returned none t) g c =
        some (go_to (releasing none) g, change p (with_post_start t) c)
    run_stage (releasing err) proceed g c =
        Option.map (λ r. (record g { stage = finalizing err; guard = r.0 }, r.1))
          (release_guard m g.guard c)
    run_stage (finalizing err) proceed g c =
        some (go_to done g, change p (λ i. with_error err (with_cancel none i)) c)
    run_stage _ _ g c = none

    unfoldable pub step : Outcome → Creation → Client m → Option (Creation × Client m)
    unfolding run_stage
    step o g c = run_stage g.stage o g c

    -- The goroutine over the outcomes of its calls, with no other goroutine in between.
    unfoldable pub run : List Outcome → Creation → Client m → Option (Creation × Client m)
    run [] g c = some (g, c)
    run (o ∷ os) g c = elim (step o g c) [ none ↦ none | some (g', c') ↦ run os g' c' ]
