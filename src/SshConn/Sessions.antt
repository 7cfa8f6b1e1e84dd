-- ===== src/SshConn/Sessions.antt =====
-- When NewSession gives a session, and when it dials again.
use mac_os_vz_kubelet.Common.{
  ℕ, ◌≡◌, ◌↔◌, ◌≤◌, Bool, true, false, Option, none, GoError, arith, count, ◌⊎◌, inr,
}
use mac_os_vz_kubelet.SshConn.{
  Opened, session, transport_error, Call, ask_client, new_session, after_open,
}

abbrev pub is_ask : Call → Bool
is_ask (ask_client _) = true
is_ask _ = false

-- The second attempt of NewSession is made at all.
abbrev pub Retries : Opened → Option GoError → Type 0
Retries opened ended = ((e : GoError) × (opened ≡ transport_error e)) × (ended ≡ none)

-- NewSession gives a session exactly if its context is live on entry, it gets a client, and either
-- the first channel opens, or the transport fails with the context still live and a session opens
-- on a second client.
new_session-success :
    (before : Option GoError) (first : GoError ⊎ ℕ) (opened : Opened) (ended : Option GoError)
    (second : GoError ⊎ ℕ) (reopened : Opened) (s : ℕ)
    → ((new_session before first opened ended second reopened).0 ≡ inr s) ↔ (
        (before ≡ none)
        × ((n : ℕ) × (first ≡ inr n))
        × ((opened ≡ session s)
            ⊎ (Retries opened ended × ((k : ℕ) × (second ≡ inr k)) × (reopened ≡ session s))))
unfolding new_session after_open
new_session-success before first opened ended second reopened s = ground arith

-- NewSession asks for a client at most twice: a second time exactly where its context was live on
-- entry, it got a client, the transport failed and the context was live after that, so never after
-- the server's refusal of a channel.
new_session-asks :
    (before : Option GoError) (first : GoError ⊎ ℕ) (opened : Opened) (ended : Option GoError)
    (second : GoError ⊎ ℕ) (reopened : Opened)
    → let asks = count is_ask (new_session before first opened ended second reopened).1 in
      (asks ≤ 2)
      × ((asks ≡ 2) ↔ ((before ≡ none) × ((n : ℕ) × (first ≡ inr n)) × Retries opened ended))
unfolding new_session after_open
new_session-asks before first opened ended second reopened = ground arith
