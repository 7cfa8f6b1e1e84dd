-- ===== src/SshConn.antt =====
-- internal/sshconn/connection.go: the one SSH connection of a virtual machine, shared by all its
-- sessions. A *ssh.Client and a dialOp are numbers. Each function below is one section under the
-- mutex; what it does outside the Connection is listed as effects, in order.
pub mod Lifecycle
pub mod Sessions
pub mod Dialing
mod Examples
use mac_os_vz_kubelet.Common.{
  ℕ, Bool, true, false, not, ◌&&◌, Option, none, some, is_some, List, [], ◌∷◌, ◌++◌, GoError, text,
  nat_eq, if◌then◌else◌, ◌⊎◌, inl, inr,
}

abbrev pub err_closed : GoError
err_closed = text "ssh connection closed"

-- `keepalive` is `kaCancel`: the client whose keepalive it stops.
pub record Connection : Type 0 where
  pub client : Option ℕ
  pub keepalive : Option ℕ
  pub closed : Bool
  pub pending : Option ℕ

pub data Effect : Type 0 where
  close_client stop_keepalive start_keepalive cancel_dial start_dial : ℕ → Effect

abbrev pub new_connection : Connection
new_connection = record { client = none; keepalive = none; closed = false; pending = none }

-- Go's `==` on two pointers to a client.
abbrev pub same_client : Option ℕ → Option ℕ → Bool
same_client none none = true
same_client (some a) (some b) = nat_eq a b
same_client _ _ = false

abbrev pub effect_on : (ℕ → Effect) → Option ℕ → List Effect
effect_on e none = []
effect_on e (some n) = e n ∷ []

-- stopKeepaliveLocked, with the effects that come before it.
unfoldable pub stop_keepalive_locked : List Effect → Connection → List Effect × Connection
stop_keepalive_locked effects c =
    (effects ++ effect_on stop_keepalive c.keepalive, record c { keepalive = none })

abbrev pub drop_client : List Effect × Connection → List Effect × Connection
drop_client (effects, c) = (effects, record c { client = none })

-- The three lines that retire the cached client.
unfoldable pub retire_cached : Connection → List Effect × Connection
unfolding stop_keepalive_locked
retire_cached c = drop_client (stop_keepalive_locked (effect_on close_client c.client) c)

unfoldable pub retire : ℕ → Connection → List Effect × Connection
unfolding retire_cached
retire n c =
    if c.closed then ([], c) else if same_client c.client (some n) then retire_cached c else ([], c)

-- What clientForSession returns, or the dial that it waits for.
pub data Wanted : Type 0 where
  refused : GoError → Wanted
  ready wait_for : ℕ → Wanted

-- The code that joins the dial in flight, or starts the dial `fresh`.
unfoldable pub join_dial : ℕ → List Effect × Connection → Wanted × List Effect × Connection
join_dial fresh (effects, c) = elim c.pending [
  | some op ↦ (wait_for op, effects, c)
  | none ↦ (wait_for fresh, effects ++ (start_dial fresh ∷ []), record c { pending = some fresh })
]

-- The code below the use of a cached client.
unfoldable pub replace_client : Option ℕ → ℕ → Connection → Wanted × List Effect × Connection
unfolding join_dial retire_cached
replace_client stale fresh c =
    join_dial fresh
      (if is_some stale && same_client c.client stale then retire_cached c else ([], c))

unfoldable pub client_for_session : Option ℕ → ℕ → Connection → Wanted × List Effect × Connection
unfolding replace_client
client_for_session stale fresh c = if c.closed then (refused err_closed, [], c) else elim c.client [
  | none ↦ replace_client stale fresh c
  | some n ↦ if same_client (some n) stale then replace_client stale fresh c else (ready n, [], c)
]

abbrev pub dialed_client : GoError ⊎ ℕ → Option ℕ
dialed_client (inl _) = none
dialed_client (inr n) = some n

-- runDial after the dial, which has returned an error or a client; the first part of the result is
-- what the waiters of the operation read.
unfoldable pub run_dial : ℕ → GoError ⊎ ℕ → Connection → (GoError ⊎ ℕ) × List Effect × Connection
run_dial op result c =
    if c.closed
    then (
      inl err_closed,
      effect_on close_client (dialed_client result) ++ (cancel_dial op ∷ []),
      record c { pending = none },
    )
    else elim result [
      | inl e ↦ (inl e, cancel_dial op ∷ [], record c { pending = none })
      | inr n ↦ (
        inr n,
        start_keepalive n ∷ cancel_dial op ∷ [],
        record c { client = some n; keepalive = some n; pending = none },
      )
    ]

-- The effects of Close below the test of `closed`.
unfoldable pub close_open : Connection → List Effect × Connection
unfolding stop_keepalive_locked
close_open c =
    let (effects, d) =
      stop_keepalive_locked (effect_on cancel_dial c.pending) (record c { closed = true }) in
    (effects ++ effect_on close_client c.client, record d { client = none })

unfoldable pub close : Connection → List Effect × Connection
unfolding close_open
close c = if c.closed then ([], c) else close_open c

-- How openSession ends: a session, the server's refusal of the channel, another error of the
-- transport, or the end of the caller's context, after which the client is retired.
pub data Opened : Type 0 where
  session : ℕ → Opened
  channel_refused transport_error context_ended : GoError → Opened

abbrev pub open_result : Opened → GoError ⊎ ℕ
open_result (session s) = inr s
open_result (channel_refused e) = inl e
open_result (transport_error e) = inl e
open_result (context_ended e) = inl e

-- The calls of NewSession: clientForSession with its `stale`, and openSession.
pub data Call : Type 0 where
  ask_client : Option ℕ → Call
  open_session : ℕ → Call

-- The code of NewSession that asks for a client and opens a session on it, with what follows.
abbrev pub try_client :
    Option ℕ → GoError ⊎ ℕ → (ℕ → (GoError ⊎ ℕ) × List Call) → (GoError ⊎ ℕ) × List Call
try_client stale (inl e) next = (inl e, ask_client stale ∷ [])
try_client stale (inr n) next =
    let (r, calls) = next n in (r, ask_client stale ∷ open_session n ∷ calls)

-- The end of NewSession, from the first openSession on; `ended` is ctx.Err() after it.
unfoldable pub after_open :
    ℕ → Opened → Option GoError → GoError ⊎ ℕ → Opened → (GoError ⊎ ℕ) × List Call
after_open n (session s) ended second reopened = (inr s, [])
after_open n (channel_refused e) ended second reopened = (inl e, [])
after_open n (context_ended e) ended second reopened = (inl e, [])
after_open n (transport_error e) (some _) second reopened = (inl e, [])
after_open n (transport_error e) none second reopened =
    try_client (some n) second (λ k. (open_result reopened, []))

-- NewSession over the results of its calls; `before` is ctx.Err() on entry.
unfoldable pub new_session :
    Option GoError
    → GoError ⊎ ℕ
    → Opened
    → Option GoError
    → GoError ⊎ ℕ
    → Opened
    → (GoError ⊎ ℕ) × List Call
unfolding after_open
new_session (some e) first opened ended second reopened = (inl e, [])
new_session none first opened ended second reopened =
    try_client none first (λ n. after_open n opened ended second reopened)
