-- ===== src/SshConn/Lifecycle.antt =====
-- What holds of a connection however its users, its dials and its end interleave.
use mac_os_vz_kubelet.Common.{
  ℕ, ◌≡◌, true, false, not, Option, none, some, List, [], ◌∷◌, ◌++◌, GoError, arith, nat_eq, keep,
  ◌⊎◌, inl, inr, ◌≢◌, or_else, is_some, if◌then◌else◌,
}
use mac_os_vz_kubelet.SshConn.{
  Connection, Effect, close_client, stop_keepalive, start_keepalive, cancel_dial, start_dial,
  new_connection, retire, client_for_session, run_dial, close, refused, ready, wait_for, err_closed,
  effect_on, dialed_client, stop_keepalive_locked, retire_cached, join_dial, replace_client,
  close_open,
}

-- The connection with the clients that are open, the clients that a keepalive runs for, and the
-- dials in flight.
pub record World : Type 0 where
  pub conn : Connection
  pub clients : List ℕ
  pub keepalives : List ℕ
  pub dials : List ℕ

abbrev without : ℕ → List ℕ → List ℕ
without n xs = keep (λ k. not (nat_eq k n)) xs

-- A dial ends where runDial does, so a cancellation leaves it in flight.
abbrev pub apply : Effect → World → World
apply (close_client n) w = record w { clients = without n w.clients }
apply (stop_keepalive n) w = record w { keepalives = without n w.keepalives }
apply (start_keepalive n) w = record w { keepalives = n ∷ w.keepalives }
apply (cancel_dial op) w = w
apply (start_dial op) w = record w { dials = op ∷ w.dials }

abbrev pub apply_all : List Effect → World → World
apply_all [] w = w
apply_all (e ∷ es) w = apply_all es (apply e w)

abbrev pub enter : List Effect × Connection → World → World
enter (effects, c) w = apply_all effects (record w { conn = c })

-- The effects and the connection of a section that has a result too.
abbrev pub section_of {ℓ} : {A : Type ℓ} → A × List Effect × Connection → List Effect × Connection
section_of (x, effects, c) = (effects, c)

abbrev pub opened_by : GoError ⊎ ℕ → List ℕ
opened_by (inl _) = []
opened_by (inr n) = n ∷ []

-- One section under the mutex by some goroutine, or a keepalive that ends by itself.
pub data Step (w : World) : World → Type 0 where
  asked :
      (stale : Option ℕ) (fresh : ℕ)
      → Step w (enter (section_of (client_for_session stale fresh w.conn)) w)
  dialed :
      (op : ℕ) (result : GoError ⊎ ℕ)
      → w.dials ≡ op ∷ []
      → Step w (
          enter
            (section_of (run_dial op result w.conn))
            (record w { clients = opened_by result ++ w.clients; dials = [] }))
  retired : (n : ℕ) → Step w (enter (retire n w.conn) w)
  closed : Step w (enter (close w.conn) w)
  faded : (n : ℕ) → Step w (record w { keepalives = without n w.keepalives })

pub data Reach : World → Type 0 where
  start : Reach (record { conn = new_connection; clients = []; keepalives = []; dials = [] })
  next : {w v : World} → Reach w → Step w v → Reach v

abbrev pub listed : Option ℕ → List ℕ
listed none = []
listed (some n) = n ∷ []

-- The open clients are the cached one, the dials in flight the pending one, a keepalive runs for
-- the cached client at most, and there is no cached client during a dial or after the end.
pub record IsTidy (w : World) : Type 0 where
  pub clients_are : w.clients ≡ listed w.conn.client
  pub dials_are : w.dials ≡ listed w.conn.pending
  pub keepalive_is : w.conn.keepalive ≡ w.conn.client
  pub keepalives_are : (w.keepalives ≡ []) ⊎ (w.keepalives ≡ listed w.conn.client)
  pub dial_alone : (w.conn.pending ≡ none) ⊎ (w.conn.client ≡ none)
  pub closed_alone : (w.conn.closed ≡ false) ⊎ (w.conn.client ≡ none)

asked-IsTidy :
    (stale : Option ℕ) (fresh : ℕ) (w : World)
    → IsTidy w
    → IsTidy (enter (section_of (client_for_session stale fresh w.conn)) w)
unfolding client_for_session replace_client join_dial retire_cached stop_keepalive_locked
asked-IsTidy stale fresh w h = ground arith

dialed-IsTidy :
    (op : ℕ) (result : GoError ⊎ ℕ) (w : World)
    → w.dials ≡ op ∷ []
    → IsTidy w
    → IsTidy (
        enter
          (section_of (run_dial op result w.conn))
          (record w { clients = opened_by result ++ w.clients; dials = [] }))
unfolding run_dial
dialed-IsTidy op result w e h = ground arith

retired-IsTidy : (n : ℕ) (w : World) → IsTidy w → IsTidy (enter (retire n w.conn) w)
unfolding retire retire_cached stop_keepalive_locked
retired-IsTidy n w h = ground arith

closed-IsTidy : (w : World) → IsTidy w → IsTidy (enter (close w.conn) w)
unfolding close close_open stop_keepalive_locked
closed-IsTidy w h = ground arith

faded-IsTidy :
    (n : ℕ) (w : World) → IsTidy w → IsTidy (record w { keepalives = without n w.keepalives })
faded-IsTidy n w h = ground arith

step-IsTidy : {w v : World} → Step w v → IsTidy w → IsTidy v
step-IsTidy {w} (asked stale fresh) h = asked-IsTidy stale fresh w h
step-IsTidy {w} (dialed op result e) h = dialed-IsTidy op result w e h
step-IsTidy {w} (retired n) h = retired-IsTidy n w h
step-IsTidy {w} closed h = closed-IsTidy w h
step-IsTidy {w} (faded n) h = faded-IsTidy n w h

pub Reach-IsTidy : {w : World} → Reach w → IsTidy w
Reach-IsTidy start = ground arith
Reach-IsTidy (next r s) = step-IsTidy s (Reach-IsTidy r)

-- However sessions, dials, retirements and the end of the connection interleave: the clients that
-- are open are the cached one and no other, at most one dial is in flight, a keepalive runs for the
-- cached client or not at all, and after the end no client is open.
pub Reach-clients :
    {w : World}
    → Reach w
    → (w.clients ≡ listed w.conn.client)
      × (w.dials ≡ listed w.conn.pending)
      × ((w.keepalives ≡ []) ⊎ (w.keepalives ≡ w.clients))
      × (w.conn.closed ≡ true → w.clients ≡ [])
Reach-clients r = let h = Reach-IsTidy r in ground (arith, h)

-- A connection that has been closed stays so: closing it again does nothing, clientForSession
-- refuses with ErrClosed and changes nothing, and a dial that ends caches no client, closes the
-- client that it got, and tells its waiters ErrClosed.
close-lasting :
    (stale : Option ℕ) (fresh op : ℕ) (result : GoError ⊎ ℕ) (c : Connection)
    → let d = (close c).1 in
      (d.closed ≡ true)
      × (close d ≡ ([], d))
      × (client_for_session stale fresh d ≡ (refused err_closed, [], d))
      × (run_dial op result d ≡ (
        inl err_closed,
        effect_on close_client (dialed_client result) ++ (cancel_dial op ∷ []),
        record d { pending = none },
      ))
unfolding close close_open stop_keepalive_locked client_for_session run_dial
close-lasting stale fresh op result c = ground arith

-- clientForSession on an open connection gives a cached client that is not the stale one, and
-- changes nothing. Without such a client it waits for the dial in flight, or for the dial that it
-- starts if there is none; the stale client is then closed and no client is cached.
client_for_session_lem :
    (stale : Option ℕ) (fresh : ℕ) (c : Connection)
    → c.closed ≡ false
    → ((n : ℕ)
        → c.client ≡ some n
        → stale ≢ some n
        → client_for_session stale fresh c ≡ (ready n, [], c))
      × ((c.client ≡ none) ⊎ (c.client ≡ stale)
          → client_for_session stale fresh c ≡ (
            wait_for (or_else c.pending fresh),
            effect_on close_client c.client
                ++ effect_on stop_keepalive (if is_some c.client then c.keepalive else none)
                ++ (if is_some c.pending then [] else start_dial fresh ∷ []),
            record c {
              client = none;
              keepalive = if is_some c.client then none else c.keepalive;
              pending = some (or_else c.pending fresh);
            },
          ))
unfolding client_for_session replace_client join_dial retire_cached stop_keepalive_locked
client_for_session_lem stale fresh c h = (λ n e ne. ground arith, λ k. ground arith)
