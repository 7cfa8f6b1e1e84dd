-- ===== src/Guest/Exec/Calls.antt =====
-- The calls that ExecInVirtualMachine makes within a session, by their kinds.
use mac_os_vz_kubelet.Common.{
  ℕ, suc, String, ◌≡◌, refl, Bool, true, false, none, List, [], ◌∷◌, namespaced_name_comparable,
  Option-cases, Bool-cases, Sum-cases, length, inl, inr,
}
use mac_os_vz_kubelet.Common.Runs.{Run}
use mac_os_vz_kubelet.Common.Runs.Shapes.{Only, Only-bind, Only-wrap, Only-none, Only-one}
use mac_os_vz_kubelet.Resource.VirtualMachine.{EnvVar}
use mac_os_vz_kubelet.Guest.Shell.{build_exec_command_string}
use mac_os_vz_kubelet.Guest.Sessions.{
  AttachIo, SessionAct, open_session, close_session, request_pty, feed_stdin, copy_stdin,
  get_console_size, setup_session_io, setup_tty_session, execute_command, write_lines,
  write_exports, start_command, finish_command, write, start, shell,
}
use mac_os_vz_kubelet.Guest.Exec.{Guest, coded, run_command}

-- The calls that neither open nor close a session, and those that neither ask for a
-- pseudo terminal nor hand on the caller's input.
abbrev pub keeps_session : SessionAct → Bool
keeps_session (open_session _) = false
keeps_session close_session = false
keeps_session _ = true

abbrev pub skips_terminal : SessionAct → Bool
skips_terminal (request_pty _ _ _) = false
skips_terminal feed_stdin = false
skips_terminal copy_stdin = false
skips_terminal _ = true

abbrev pub Passes : (SessionAct → Bool) → SessionAct → Type 0
Passes p act = p act ≡ true

module _ (g : Guest) where
  -- A test that all but the ends of a session pass, the input set apart.
  module _ (p : SessionAct → Bool) (write_passes : (n : ℕ) (s : String) → p (write n s) ≡ true)
      (start_passes : (s : String) → p (start s) ≡ true) (shell_passes : p shell ≡ true) where
    write_lines-Only : (n : ℕ) (cmd : List String) → Only (Passes p) (write_lines g.world n cmd)
    unfolding write_lines
    write_lines-Only n [] = Only-none _
    write_lines-Only n (c ∷ cmd) =
        Only-bind _ _ (Only-one _ _ (write_passes n _)) (λ _. write_lines-Only (suc n) cmd)

    write_exports-Only :
        (n : ℕ) (env : List EnvVar)
        → Only (Passes p) (write_exports g.world g.quote g.has_newline n env)
    unfolding write_exports
    write_exports-Only n [] = Only-none _
    write_exports-Only n (e ∷ env) =
        Only-bind _ _ (Only-one _ _ (write_passes n _)) (λ _. write_exports-Only (suc n) env)

    pub start_command-Only :
        (env : List EnvVar) (cmd : List String)
        → Only (Passes p) (start_command g.world g.quote g.has_newline env cmd)
    start_command-Only env cmd =
        elim (Sum-cases (build_exec_command_string g.quote g.has_newline cmd env)) [
          | inl (e, h) ↦
              rw (h, start_command)
                (Only-bind _ _ (Only-one _ _ shell_passes) (λ _.
                  Only-bind _ _ (write_exports-Only 0 env)
                    (λ _. write_lines-Only (length env) cmd)))
          | inr (s, h) ↦ rw (h, start_command) (Only-one _ _ (start_passes s))
        ]

  finish-keeps :
      (attach : AttachIo)
      → Only (Passes keeps_session) (finish_command g.world g.quote g.has_newline attach)
  finish-keeps attach = elim (Bool-cases attach.tty) [
    | inl t ↦ rw t (Only-one _ _ refl)
    | inr f ↦ rw f (
        Only-bind _ _
          (elim (Bool-cases attach.has_stdin) [
            | inl i ↦ rw i (Only-one _ _ refl)
            | inr n ↦ rw n (Only-none _)
          ])
          (λ _. Only-bind _ _ (Only-one _ _ refl) (λ _. Only-one _ _ refl)))
  ]

  execute_command-keeps :
      (attach : AttachIo) (env : List EnvVar) (cmd : List String)
      → Only (Passes keeps_session) (execute_command g.world g.quote g.has_newline attach env cmd)
  unfolding execute_command
  execute_command-keeps attach env cmd =
      Only-bind _ _ (start_command-Only keeps_session (λ n s. refl) (λ s. refl) refl env cmd)
        (λ _. finish-keeps attach)

  setup_tty-keeps :
      (attach : AttachIo) (size : ℕ × ℕ)
      → Only (Passes keeps_session) (setup_tty_session g.world g.term attach size)
  unfolding setup_tty_session
  setup_tty-keeps attach size =
      Only-bind _ _ (record { every = (refl, tt) })
        (λ _. Only-bind _ _ (Only-one _ _ refl) (λ _. elim (Bool-cases attach.has_stdin) [
          | inl i ↦ rw i (Only-one _ _ refl)
          | inr n ↦ rw n (Only-none _)
        ]))

  setup_session_io-keeps :
      (attach : AttachIo) → Only (Passes keeps_session) (setup_session_io g.world g.term attach)
  unfolding setup_session_io setup_tty_session
  setup_session_io-keeps attach = elim (Option-cases (get_console_size attach)) [
    | inl h ↦ rw (h, setup_session_io) (Only-none _)
    | inr (size, h) ↦ elim (Bool-cases attach.tty) [
      | inl t ↦ rw (h, t, setup_session_io) (setup_tty-keeps attach size)
      | inr f ↦ rw (h, f, setup_session_io) (Only-none _)
    ]
  ]

  pub coded-Only :
      {P : SessionAct → Type 0} (m : Run SessionAct Unit) → Only P m → Only P (coded g m)
  unfolding coded
  coded-Only m h = record { every = h.every }

  pub run_command-keeps :
      (attach : AttachIo) (env : List EnvVar) (cmd : List String)
      → Only (Passes keeps_session) (run_command g attach env cmd)
  run_command-keeps attach env cmd =
      Only-bind _ _ (Only-wrap _ _ (setup_session_io-keeps attach))
        (λ _. coded-Only _ (execute_command-keeps attach env cmd))

  pub lost-Only :
      (attach : AttachIo) (env : List EnvVar) (cmd : List String)
      → attach.tty ≡ true
      → get_console_size attach ≡ none
      → Only (Passes skips_terminal) (run_command g attach env cmd)
  unfolding setup_session_io execute_command
  lost-Only attach env cmd t n =
      Only-bind _ _ (Only-wrap _ _ (rw (n, setup_session_io) (Only-none _))) (λ _. coded-Only _ (
        Only-bind _ _ (start_command-Only skips_terminal (λ n s. refl) (λ s. refl) refl env cmd)
          (λ _. rw t (Only-one _ _ refl))))
