-- ===== src/Guest/Sessions.antt =====
-- internal/ssh/macos.go and internal/node/terminal.go: what is done with a session on a guest. Of the
-- goroutines that a terminal needs only the start is an act.
pub mod Plan
use mac_os_vz_kubelet.Common.{
  ℕ, suc, String, ◌<>◌, Bool, not, ◌&&◌, Option, none, some, List, [], ◌∷◌, length, nat_eq,
  is_blank, if◌then◌else◌, GoError, text, error_text, inl, inr,
}
use mac_os_vz_kubelet.Common.Runs.{
  Run, Outcome, done, failed, panicked, ◌>>=◌, ◌>>◌, return, perform, after,
}
use mac_os_vz_kubelet.Resource.VirtualMachine.{EnvVar}
use mac_os_vz_kubelet.Guest.Shell.{build_exec_command_string, build_export_env_command}

-- api.TermSize
pub record TermSize : Type 0 where
  pub width : ℕ
  pub height : ℕ

-- api.AttachIO, which is not nil: its TTY, whether its Stdin is not nil, and what its Resize gives within the five
-- seconds that the set-up waits, `none` where it gives nothing.
pub record AttachIo : Type 0 where
  pub tty : Bool
  pub has_stdin : Bool
  pub first_resize : Option TermSize

-- The calls on a session. `write` carries its number, so that equal texts may be answered
-- differently. `watch_resize` and `feed_stdin` start the two goroutines of a terminal; `arm_reap` and
-- `stop_reap` register and deregister what a cancellation of the caller does.
pub data SessionAct : Type 0 where
  open_session : ℕ → SessionAct
  arm_reap stop_reap stdin_pipe close_pipe close_session : SessionAct
  request_pty : String → ℕ → ℕ → SessionAct
  watch_resize feed_stdin : SessionAct
  start : String → SessionAct
  shell : SessionAct
  write : ℕ → String → SessionAct
  copy_stdin wait : SessionAct

-- GetTerminalType, of the value of TERM.
unfoldable pub get_terminal_type : String → String
get_terminal_type term = if is_blank term then "xterm-256color" else term

abbrev pub default_term_size : TermSize
default_term_size = record { width = 60; height = 120 }

abbrev pub size_or_default : Option TermSize → TermSize
size_or_default none = default_term_size
size_or_default (some size) = size

-- The height and the width.
unfoldable pub get_console_size : AttachIo → Option (ℕ × ℕ)
get_console_size attach =
    let size = size_or_default attach.first_resize in
    if attach.tty
    then if not (nat_eq size.width 0) && not (nat_eq size.height 0)
      then some (size.height, size.width)
      else none
    else none

-- An act whose error the code only logs.
abbrev pub attempt : SessionAct → Run SessionAct Unit
attempt act = (act ∷ [], done tt)

-- fmt.Errorf with %v around an error.
abbrev pub described : String → Outcome Unit → Outcome Unit
described s (done a) = done a
described s (failed e) = failed (text (s <> ": " <> error_text e))
described s panicked = panicked

abbrev pub or_describe : String → Run SessionAct Unit → Run SessionAct Unit
or_describe s m = (m.0, described s m.1)

-- `world` answers the calls, and `term` is the value of TERM.
module _ (world : SessionAct → Option GoError) where
  unfoldable pub setup_tty_session : String → AttachIo → ℕ × ℕ → Run SessionAct Unit
  unfolding get_terminal_type
  setup_tty_session term attach size = do
    or_describe "request for pseudo terminal failed"
        (perform world (request_pty (get_terminal_type term) size.0 size.1))
    attempt watch_resize
    if attach.has_stdin then attempt feed_stdin else return tt

  unfoldable pub setup_session_io : String → AttachIo → Run SessionAct Unit
  unfolding get_console_size
  setup_session_io term attach = elim (get_console_size attach) [
    | none ↦ return tt
    | some size ↦ if attach.tty then setup_tty_session term attach size else return tt
  ]

  unfoldable pub write_lines : ℕ → List String → Run SessionAct Unit
  write_lines n [] = return tt
  write_lines n (c ∷ cmd) = do perform world (write n (c <> "\n")); write_lines (suc n) cmd

  -- `quote` and `has_newline` are those of Shell.
  module _ (quote : String → String) (has_newline : String → Bool) where
    unfoldable pub write_exports : ℕ → List EnvVar → Run SessionAct Unit
    write_exports n [] = return tt
    write_exports n (e ∷ env) = do
      attempt (write n (build_export_env_command quote has_newline e))
      write_exports (suc n) env

    abbrev pub start_command : List EnvVar → List String → Run SessionAct Unit
    start_command env cmd = elim (build_exec_command_string quote has_newline cmd env) [
      | inr command ↦ perform world (start command)
      | inl _ ↦ do perform world shell; write_exports 0 env; write_lines (length env) cmd
    ]

    abbrev pub finish_command : AttachIo → Run SessionAct Unit
    finish_command attach = if attach.tty then perform world wait else (do
      if attach.has_stdin then perform world copy_stdin else return tt
      attempt close_pipe
      perform world wait)

    unfoldable pub execute_command : AttachIo → List EnvVar → List String → Run SessionAct Unit
    unfolding write_exports
    execute_command attach env cmd = do start_command env cmd; finish_command attach
