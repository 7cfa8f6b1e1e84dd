-- ===== src/PostStart.antt =====
-- pkg/resourcemanager/macos_poststart.go: the wait until the guest accepts SSH sessions, and the
-- post-start hook behind it.
pub mod Polling
mod Examples
use mac_os_vz_kubelet.Common.{
  String, ◌<>◌, Bool, true, false, ◌||◌, Option, none, some, List, [], ◌∷◌, is_some, if◌then◌else◌,
  GoError, canceled, deadline_exceeded, wrap, join,
}

-- What wait.PollUntilContextTimeout meets next: a round of its condition function, with what the
-- probe returns, or the end of its context, by the cap or by the removal of the pod.
pub data Round : Type 0 where
  probe : Option GoError → Round
  expired removed : Round

-- `is_invalid_input` is errdefs.IsInvalidInput, `contains` strings.Contains of the text of an error,
-- `is` errors.Is, and `cap` the printed cap.
pub record Library : Type 0 where
  pub is_invalid_input : GoError → Bool
  pub contains : GoError → String → Bool
  pub is : GoError → GoError → Bool
  pub cap : String

-- The variable `lastErr` and the error of the poll.
pub record Polled : Type 0 where
  pub last_err : Option GoError
  pub err : Option GoError

module _ (lib : Library) where
  abbrev pub is_ssh_auth_failure : GoError → Bool
  is_ssh_auth_failure e = lib.contains e "unable to authenticate"

  abbrev pub is_terminal : GoError → Bool
  is_terminal e = lib.is_invalid_input e || is_ssh_auth_failure e

  -- The rounds of the poll; `none` is a poll that goes on after them.
  unfoldable pub poll_rounds : Option GoError → List Round → Option Polled
  poll_rounds last [] = none
  poll_rounds last (expired ∷ rounds) =
      some (record { last_err = last; err = some deadline_exceeded })
  poll_rounds last (removed ∷ rounds) = some (record { last_err = last; err = some canceled })
  poll_rounds last (probe none ∷ rounds) = some (record { last_err = none; err = none })
  poll_rounds last (probe (some e) ∷ rounds) =
      let rest = poll_rounds (some e) rounds in
      if is_terminal e then some (record { last_err = some e; err = some e }) else rest

  -- The code below the poll.
  abbrev pub named_cap : Option GoError → Option GoError
  named_cap none = none
  named_cap (some e) =
      if lib.is e deadline_exceeded
      then some (wrap ("SSH readiness wait expired after " <> lib.cap) e)
      else some e

  abbrev pub joined_error : Option GoError → Option GoError → Option GoError
  joined_error (some l) (some e) = if lib.is e l then some e else some (join l e)
  joined_error _ err = err

  abbrev pub after_poll : Option Polled → Option (Option GoError)
  after_poll none = none
  after_poll (some p) = some (joined_error p.last_err (named_cap p.err))

  unfoldable pub poll_ssh_ready : List Round → Option (Option GoError)
  unfolding poll_rounds
  poll_ssh_ready rounds = after_poll (poll_rounds none rounds)

  -- What the wait and the hook give: the error, and whether the hook was run. `ended` is the error of
  -- the context of the hook once it has returned.
  unfoldable pub exec_post_start_action :
      List Round → Option GoError → Option GoError → Option (Option GoError × Bool)
  unfolding poll_ssh_ready
  exec_post_start_action rounds hook ended = elim (poll_ssh_ready rounds) [
    | none ↦ none
    | some (some e) ↦ some (some e, false)
    | some none ↦ some (if is_some ended then ended else hook, true)
  ]
