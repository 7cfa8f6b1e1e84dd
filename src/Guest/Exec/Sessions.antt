-- ===== src/Guest/Exec/Sessions.antt =====
-- What becomes of the session and of the caller's input of ExecInVirtualMachine.
use mac_os_vz_kubelet.Common.{
  ℕ, Option, ◌⊎◌, String, ◌≡◌, refl, sym, Bool, true, none, some, List, [], ◌∷◌, ◌++◌, All,
  NamespacedName, namespaced_name_comparable, GoError, not_found, invalid_input, arith, subst,
  Option-cases, inl, inr,
}
use mac_os_vz_kubelet.Common.Runs.{Run, failed, ◌>>=◌, ◌>>◌, perform, fail}
use mac_os_vz_kubelet.Common.Runs.Shapes.{Only, Only-bind, Only-none, Only-one}
use mac_os_vz_kubelet.Resource.VirtualMachine.{EnvVar}
use mac_os_vz_kubelet.MacosClient.VmData.{VmMap, VirtualMachineInfo, load}
use mac_os_vz_kubelet.Guest.Sessions.{
  AttachIo, TermSize, attempt, SessionAct, open_session, arm_reap, stop_reap, stdin_pipe,
  close_pipe, close_session, get_console_size,
}
use mac_os_vz_kubelet.Guest.Exec.Calls.{
  keeps_session, skips_terminal, Passes, run_command-keeps, lost-Only,
}
use mac_os_vz_kubelet.Guest.Exec.{
  Guest, deferred, run_command, exec_in_session, exec_with_info, exec_in_virtual_machine,
}
use mac_os_vz_kubelet.Common.Runs.Stops.{append-All}

-- The calls of an execution in one session.
abbrev pub OneSession : ℕ → List SessionAct → Type 0
OneSession conn acts =
    (within : List SessionAct) × (acts ≡ open_session conn ∷ within ++ close_session ∷ [])
    × All (λ a. keeps_session a ≡ true) within

-- A deferred call of a kind after a run of that kind.
deferred-Only :
    {A : Type 0} {P : SessionAct → Type 0} (act : SessionAct) (m : Run SessionAct A)
    → P act
    → Only P m
    → Only P (deferred act m)
unfolding deferred
deferred-Only {P} act m h k = record { every = append-All P m.0 (act ∷ []) k.every (h, tt) }

no_size :
    (attach : AttachIo) (size : TermSize)
    → attach.first_resize ≡ some size
    → (size.width ≡ 0) ⊎ (size.height ≡ 0)
    → get_console_size attach ≡ none
unfolding get_console_size
no_size attach size r z = ground (arith, r)

module _ (g : Guest) where
  within : ℕ → AttachIo → List EnvVar → List String → Run SessionAct Unit
  within conn attach env cmd = do
    attempt arm_reap
    deferred stop_reap
        (do perform g.world stdin_pipe; deferred close_pipe (run_command g attach env cmd))

  within-Only :
      (p : SessionAct → Bool) (conn : ℕ) (attach : AttachIo) (env : List EnvVar) (cmd : List String)
      → All (Passes p) (arm_reap ∷ stop_reap ∷ stdin_pipe ∷ close_pipe ∷ [])
      → Only (Passes p) (run_command g attach env cmd)
      → Only (Passes p) (within conn attach env cmd)
  unfolding within
  within-Only p conn attach env cmd (arm, (stop, (pipe, (close, _)))) h =
      Only-bind _ _ (Only-one _ _ arm) (λ _.
        deferred-Only stop_reap _ stop
          (Only-bind _ _ (Only-one _ _ pipe) (λ _. deferred-Only close_pipe _ close h)))

  -- How an execution ends in which a session is to be opened, by the answer to that.
  abbrev pub InSession : ℕ → Option GoError → Run SessionAct Unit → Type 0
  InSession conn none run = OneSession conn run.0
  InSession conn (some e) run = run ≡ (open_session conn ∷ [], failed e)

  exec_in_session_lem :
      (conn : ℕ) (attach : AttachIo) (env : List EnvVar) (cmd : List String)
      → InSession conn (g.world (open_session conn)) (exec_in_session g conn attach env cmd)
  unfolding exec_in_session ◌>>=◌ deferred within
  exec_in_session_lem conn attach env cmd = elim (Option-cases (g.world (open_session conn))) [
    | inl h ↦ rw h (
      (within conn attach env cmd).0,
      refl,
      (within-Only keeps_session conn attach env cmd (refl, (refl, (refl, (refl, tt))))
          (run_command-keeps g attach env cmd)).every,
    )
    | inr (e, h) ↦ rw h refl
  ]

  -- How an execution ends, by the entry of the virtual machine and by its connection.
  abbrev pub WithConnection : Option ℕ → Run SessionAct Unit → Type 0
  WithConnection none run = (run.0 ≡ []) × ((e : GoError) × (run.1 ≡ failed (invalid_input e)))
  WithConnection (some conn) run = InSession conn (g.world (open_session conn)) run

  abbrev pub WithEntry : Option VirtualMachineInfo → Run SessionAct Unit → Type 0
  WithEntry none run = run ≡ fail (not_found "virtual machine not found")
  WithEntry (some info) run = WithConnection info.ssh_conn run

  module _ (m : VmMap) (key : NamespacedName) (cmd : List String) (attach : AttachIo)
      (vms : m.Map) where
    abbrev exec : Run SessionAct Unit
    exec = exec_in_virtual_machine g m key cmd attach vms

    exec_unknown : load m key vms ≡ none → exec ≡ fail (not_found "virtual machine not found")
    unfolding exec_in_virtual_machine
    exec_unknown h = rw (h, exec_in_virtual_machine) refl

    exec_known :
        (info : VirtualMachineInfo)
        → load m key vms ≡ some info
        → exec ≡ exec_with_info g key attach cmd info
    unfolding exec_in_virtual_machine exec_with_info
    exec_known info h = rw (h, exec_in_virtual_machine) refl

    not_connected :
        (info : VirtualMachineInfo)
        → info.ssh_conn ≡ none
        → let run = exec_with_info g key attach cmd info in
          (run.0 ≡ []) × ((e : GoError) × (run.1 ≡ failed (invalid_input e)))
    unfolding exec_with_info
    not_connected info k = simp (k, exec_with_info) (refl, (_, refl))

    connected :
        (info : VirtualMachineInfo) (conn : ℕ)
        → info.ssh_conn ≡ some conn
        → exec_with_info g key attach cmd info ≡ exec_in_session g conn attach info.resource.env cmd
    unfolding exec_with_info
    connected info conn k = simp (k, exec_with_info) refl

  -- An execution in a virtual machine that is not known, or that has no connection, makes no call and
  -- ends with an error. Otherwise it opens a session first: where that fails, it does nothing else
  -- and hands the error on as it is, and where it succeeds, its last call closes that session, the
  -- only one that it opens or closes itself, however the rest goes. What the goroutines do that it
  -- starts is not among these calls.
  pub exec_in_virtual_machine_lem :
      (m : VmMap) (key : NamespacedName) (cmd : List String) (attach : AttachIo) (vms : m.Map)
      → WithEntry (load m key vms) (exec_in_virtual_machine g m key cmd attach vms)
  exec_in_virtual_machine_lem m key cmd attach vms = elim (Option-cases (load m key vms)) [
    | inl h ↦ rw h (exec_unknown m key cmd attach vms h)
    | inr (info, h) ↦
        rw (h, exec_known m key cmd attach vms info h)
          (elim (Option-cases info.ssh_conn) [
            | inl k ↦
                subst (λ c. WithConnection c (exec_with_info g key attach cmd info)) (sym k)
                  (not_connected m key cmd attach vms info k)
            | inr (conn, k) ↦
                subst (λ c. WithConnection c (exec_with_info g key attach cmd info)) (sym k)
                  (rw (connected m key cmd attach vms info conn k)
                    (exec_in_session_lem conn attach info.resource.env cmd))
          ])
  ]

  -- The execution passes a test that its commands and its ends pass.
  exec-Only :
      (p : SessionAct → Bool) (m : VmMap) (key : NamespacedName) (cmd : List String)
      (attach : AttachIo) (vms : m.Map)
      → All (Passes p) (arm_reap ∷ stop_reap ∷ stdin_pipe ∷ close_pipe ∷ close_session ∷ [])
      → ((conn : ℕ) → p (open_session conn) ≡ true)
      → ((env : List EnvVar) → Only (Passes p) (run_command g attach env cmd))
      → Only (Passes p) (exec m key cmd attach vms)
  unfolding exec_in_session within
  exec-Only p m key cmd attach vms (arm, (stop, (pipe, (close, (last, _))))) first h =
      elim (Option-cases (load m key vms)) [
        | inl k ↦ rw (exec_unknown m key cmd attach vms k) (Only-none _)
        | inr (info, k) ↦
            rw (exec_known m key cmd attach vms info k) (elim (Option-cases info.ssh_conn) [
              | inl n ↦ record {
                every =
                    subst (All (Passes p)) (sym (not_connected m key cmd attach vms info n).0) tt;
              }
              | inr (conn, c) ↦ rw (connected m key cmd attach vms info conn c) (
                  Only-bind _ _ (Only-one _ _ (first conn)) (λ _.
                    deferred-Only close_session _ last (
                      within-Only p conn attach info.resource.env cmd
                        (arm, (stop, (pipe, (close, tt)))) (h info.resource.env))))
            ])
      ]

  -- A terminal whose first size has a zero in it gets no pseudo terminal, and none of its input
  -- reaches the guest, also where the caller has input: no call of the execution hands it on.
  pub exec_without_size :
      (m : VmMap) (key : NamespacedName) (cmd : List String) (attach : AttachIo) (vms : m.Map)
      (size : TermSize)
      → attach.tty ≡ true
      → attach.first_resize ≡ some size
      → (size.width ≡ 0) ⊎ (size.height ≡ 0)
      → All (Passes skips_terminal) (exec_in_virtual_machine g m key cmd attach vms).0
  exec_without_size m key cmd attach vms size t r z =
      (exec-Only skips_terminal m key cmd attach vms (refl, (refl, (refl, (refl, (refl, tt)))))
        (λ c. refl) (λ env. lost-Only g attach env cmd t (no_size attach size r z))).every
