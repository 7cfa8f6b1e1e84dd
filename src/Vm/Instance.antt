-- ===== src/Vm/Instance.antt =====
-- VirtualMachineInstance of pkg/vm/instance.go: its start, its stop and the changes of its state.
use mac_os_vz_kubelet.Common.{
  ℕ, String, Bool, true, false, ◌&&◌, Option, none, some, List, [], ◌∷◌, ◌++◌, is_blank,
  if◌then◌else◌, GoError, wrap, join_errors, ◌⊎◌, inl, inr,
}
use mac_os_vz_kubelet.Common.Runs.{Outcome, done, failed, panicked, Run, ended_with, wrapped}
use mac_os_vz_kubelet.Resource.VirtualMachine.{
  VirtualMachineInstance, VzState, vz_starting, vz_running, vz_stopping, vz_stopped, vz_other,
}
use mac_os_vz_kubelet.Vm.Config.{VirtualMachineConfiguration, get_overlays}

-- The fields of an instance that others read, and its own: the configuration, the MAC address that it
-- is looked up by, and whether `ipRetrievalCancelFunc` is set.
pub record Instance : Type 0 where
  pub view : VirtualMachineInstance
  pub config : VirtualMachineConfiguration
  pub mac_addr : List ℕ
  pub has_cancel : Bool

pub data InstanceAction : Type 0 where
  start_vm : InstanceAction
  capture_ip : String → List ℕ → InstanceAction
  scan_arp_table : List ℕ → InstanceAction
  cancel_lookup : InstanceAction
  stop_vm : InstanceAction
  remove_overlay : String → InstanceAction

-- The answers of the calls of a start: that of the framework, CaptureIPWithTcpDump and
-- RetrieveIPFromARPTable.
pub record StartAnswers : Type 0 where
  pub start : Option GoError
  pub capture : GoError ⊎ String
  pub arp : GoError ⊎ String

abbrev pub by_arp : List ℕ → GoError ⊎ String → Run InstanceAction String
by_arp mac answer =
    (scan_arp_table mac ∷ [], wrapped "failed to retrieve IP address" (ended_with answer))

abbrev pub by_capture :
    String → List ℕ → GoError ⊎ String → GoError ⊎ String → Run InstanceAction String
by_capture interface mac (inr ip) arp = (capture_ip interface mac ∷ [], done ip)
by_capture interface mac (inl e) arp =
    (capture_ip interface mac ∷ (by_arp mac arp).0, (by_arp mac arp).1)

unfoldable pub retrieve_ip_address : StartAnswers → Instance → Run InstanceAction String
retrieve_ip_address a i =
    if is_blank i.config.network_interface
    then by_arp i.mac_addr a.arp
    else by_capture i.config.network_interface i.mac_addr a.capture a.arp

abbrev pub set_ip : String → Instance → Instance
set_ip ip i = record i { view = record i.view { ip_address = ip } }

-- The end of a start: its deferred cancellation comes last, after a stop.
abbrev pub end_start :
    List InstanceAction
    → Outcome String
    → Instance
    → List InstanceAction × Option GoError × Instance
end_start acts (done ip) i = (acts ++ cancel_lookup ∷ [], none, set_ip ip i)
end_start acts (failed e) i =
    (acts ++ stop_vm ∷ cancel_lookup ∷ [], some (wrap "failed to retrieve IP address" e), i)
end_start acts panicked i = (acts, none, i)

abbrev pub start_with :
    Option GoError → StartAnswers → Instance → List InstanceAction × Option GoError × Instance
start_with (some e) a i = (start_vm ∷ [], some e, i)
start_with none a i =
    let r = retrieve_ip_address a i in
    end_start (start_vm ∷ r.0) r.1 (record i { has_cancel = true })

unfoldable pub start : StartAnswers → Instance → List InstanceAction × Option GoError × Instance
unfolding retrieve_ip_address
start a i = start_with a.start a i

-- The forced stop of a virtual machine that has not stopped.
abbrev pub force_stop : VzState → Option GoError → List InstanceAction × Option GoError
force_stop vz_stopped stop_error = ([], none)
force_stop _ stop_error = (stop_vm ∷ [], stop_error)

-- The removal of one overlay, with the error so far.
abbrev pub remove_from :
    (String → Option GoError) → List String → Option GoError → List InstanceAction × Option GoError
remove_from world [] err = ([], err)
remove_from world (p ∷ ps) err =
    let rest = remove_from world ps (join_errors err (world p)) in
    (remove_overlay p ∷ rest.0, rest.1)

abbrev pub overlays_of : String × String × Bool → List String
overlays_of (block, auxiliary, true) = block ∷ auxiliary ∷ []
overlays_of (block, auxiliary, false) = []

-- The answers are those of the framework's Stop and of os.Remove.
unfoldable pub stop :
    Option GoError → (String → Option GoError) → Instance → List InstanceAction × Option GoError
unfolding get_overlays
stop stop_error world i =
    let cancel = if is_blank i.view.ip_address && i.has_cancel then cancel_lookup ∷ [] else [] in
    let halt = force_stop i.view.vz_state stop_error in
    let removal = remove_from world (overlays_of (get_overlays i.config)) halt.1 in
    (cancel ++ (halt.0 ++ removal.0), removal.1)

-- What the goroutine of handleStateChanges receives: a state with the time then, the close of the
-- channel, or the end of the context.
pub data StateEvent : Type 0 where
  changed : VzState → ℕ → StateEvent
  closed canceled_context : StateEvent

unfoldable pub handle_state_changes :
    List StateEvent → VirtualMachineInstance → VirtualMachineInstance
handle_state_changes [] v = v
handle_state_changes (closed ∷ events) v = v
handle_state_changes (canceled_context ∷ events) v = v
handle_state_changes (changed vz_running now ∷ events) v =
    handle_state_changes events (record v { started_at = some now })
handle_state_changes (changed vz_stopped now ∷ events) v = record v { finished_at = some now }
handle_state_changes (changed vz_starting now ∷ events) v = handle_state_changes events v
handle_state_changes (changed vz_stopping now ∷ events) v = handle_state_changes events v
handle_state_changes (changed (vz_other n) now ∷ events) v = handle_state_changes events v
