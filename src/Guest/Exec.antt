-- ===== src/Guest/Exec.antt =====
-- ExecInVirtualMachine of pkg/resourcemanager/macos_exec.go, with internal/execerror. What a
-- cancellation of the caller does meanwhile is not in the list of calls, only that it is armed.
pub mod Calls
pub mod Sessions
use mac_os_vz_kubelet.Common.{
  ℕ, String, ◌<>◌, Bool, Option, none, some, List, [], ◌∷◌, ◌++◌, NamespacedName,
  namespaced_name_comparable, GoError, text, not_found, invalid_input, code_exit_error,
}
use mac_os_vz_kubelet.Common.Runs.{
  Run, Outcome, done, failed, panicked, ◌>>=◌, ◌>>◌, perform, after, fail, or_wrap,
}
use mac_os_vz_kubelet.Resource.VirtualMachine.{EnvVar}
use mac_os_vz_kubelet.MacosClient.VmData.{VmMap, VirtualMachineInfo, load}
use mac_os_vz_kubelet.Guest.Sessions.{
  AttachIo, SessionAct, open_session, arm_reap, stop_reap, stdin_pipe, close_pipe, close_session,
  setup_session_io, execute_command, attempt,
}

-- A deferred call, whose error is dropped.
unfoldable pub deferred : {A : Type 0} → SessionAct → Run SessionAct A → Run SessionAct A
deferred act m = (m.0 ++ act ∷ [], m.1)

-- The answers of the guest, strconv.Quote, the test for a newline, the value of TERM, and
-- errors.AsType for ExitStatusError with its ExitStatus.
pub record Guest : Type 0 where
  pub world : SessionAct → Option GoError
  pub quote : String → String
  pub has_newline : String → Bool
  pub term : String
  pub exit_status : GoError → Option ℕ

module _ (g : Guest) where
  unfoldable pub as_code_exit_error : GoError → GoError
  as_code_exit_error e = elim (g.exit_status e) [ none ↦ e | some code ↦ code_exit_error e code ]

  abbrev pub with_code : Outcome Unit → Outcome Unit
  with_code (done a) = done a
  with_code (failed e) = failed (as_code_exit_error e)
  with_code panicked = panicked

  unfoldable pub coded : Run SessionAct Unit → Run SessionAct Unit
  coded m = (m.0, with_code m.1)

  -- What is done with the pipe once it is there.
  abbrev pub run_command : AttachIo → List EnvVar → List String → Run SessionAct Unit
  run_command attach env cmd = do
    or_wrap "failed to setup session IO" (setup_session_io g.world g.term attach)
    coded (execute_command g.world g.quote g.has_newline attach env cmd)

  unfoldable pub exec_in_session : ℕ → AttachIo → List EnvVar → List String → Run SessionAct Unit
  unfolding deferred
  exec_in_session conn attach env cmd = do
    perform g.world (open_session conn)
    deferred close_session (do
      attempt arm_reap
      deferred stop_reap
          (do perform g.world stdin_pipe; deferred close_pipe (run_command attach env cmd)))

  unfoldable pub exec_with_info :
      NamespacedName → AttachIo → List String → VirtualMachineInfo → Run SessionAct Unit
  unfolding exec_in_session
  exec_with_info key attach cmd info = elim info.ssh_conn [
    | none ↦ fail (
        invalid_input
          (text ("ssh connection not initialized for " <> key.namespace <> "/" <> key.name)))
    | some conn ↦ exec_in_session conn attach info.resource.env cmd
  ]

  unfoldable pub exec_in_virtual_machine :
      (m : VmMap) → NamespacedName → List String → AttachIo → m.Map → Run SessionAct Unit
  unfolding exec_with_info
  exec_in_virtual_machine m key cmd attach vms = elim (load m key vms) [
    | none ↦ fail (not_found "virtual machine not found")
    | some info ↦ exec_with_info key attach cmd info
  ]
