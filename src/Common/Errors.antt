-- ===== src/Common/Errors.antt =====
-- Go's error values, as far as the program builds and inspects them.
use Prim.Native.Nat.{ℕ}
use Prim.Native.String.{String, ◌++◌ as ◌<>◌}
use mathlib.Core.Option.{Option, none, some}

-- `text` is an error with a plain message, or one of foreign code. `not_found` and `invalid_input`
-- are built by the errdefs package of virtual-kubelet, `wrap` by fmt.Errorf with %w, `join` by
-- errors.Join, `code_exit_error` is the CodeExitError of k8s.io/utils/exec.
pub data GoError : Type 0 where
  text : String → GoError
  not_found : String → GoError
  invalid_input : GoError → GoError
  canceled deadline_exceeded : GoError
  wrap : String → GoError → GoError
  join : GoError → GoError → GoError
  code_exit_error : GoError → ℕ → GoError

-- errors.Join of two errors, `nil` being `none`.
abbrev pub join_errors : Option GoError → Option GoError → Option GoError
join_errors none e = e
join_errors (some d) none = some d
join_errors (some d) (some e) = some (join d e)

-- The text of an error, its `Error()`.
abbrev pub error_text : GoError → String
error_text (text s) = s
error_text (not_found s) = s
error_text (invalid_input e) = error_text e
error_text canceled = "context canceled"
error_text deadline_exceeded = "context deadline exceeded"
error_text (wrap s e) = s <> ": " <> error_text e
error_text (join d e) = error_text d <> "\n" <> error_text e
error_text (code_exit_error e code) = error_text e

-- What the verb %v prints of an error value.
abbrev pub format_error : Option GoError → String
format_error none = "<nil>"
format_error (some e) = error_text e
