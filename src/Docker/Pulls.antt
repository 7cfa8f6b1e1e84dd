-- ===== src/Docker/Pulls.antt =====
-- pullImage and execPostStartAction of pkg/resourcemanager/docker.go: two loops whose rounds are
-- arguments.
use mac_os_vz_kubelet.Common.{
  ℕ, String, ◌≡◌, refl, Bool, true, false, Option, none, some, List, [], ◌∷◌, map, take,
  if◌then◌else◌, GoError, wrap, ◌⊎◌, inl, inr, All, ◌++◌,
}
use mac_os_vz_kubelet.Credentials.{RegistryCredentials, is_empty}

-- registrytypes.AuthConfig, as far as it is set.
pub record AuthConfig : Type 0 where
  pub username : String
  pub password : String
  pub server_address : String
  pub identity_token : String

abbrev pub auth_config_of : RegistryCredentials → AuthConfig
auth_config_of c = record {
  username = c.username;
  password = c.password;
  server_address = c.server;
  identity_token = c.identity_token;
}

-- `encode` is registrytypes.EncodeAuthConfig.
unfoldable pub encode_registry_auth :
    (AuthConfig → GoError ⊎ String) → RegistryCredentials → GoError ⊎ String
encode_registry_auth encode c = if is_empty c then inr "" else encode (auth_config_of c)

-- What a pull that Docker accepts sends: its lines, the error that ends them, if it is not the end of
-- the stream, and the error of the close of the reader.
pub record Stream : Type 0 where
  pub lines : List String
  pub broken : Option GoError
  pub closed : Option GoError

-- One call of the condition: whether it is done, its error, and the error that FailedToPullImage is
-- told of. The lines are logged.
abbrev pub is_nil : Option GoError → Bool
is_nil none = true
is_nil (some e) = false

unfoldable pub pull_round : GoError ⊎ Stream → Bool × Option GoError × Option GoError
pull_round (inl e) = (false, none, some e)
pull_round (inr s) = (is_nil s.broken, s.closed, none)

abbrev pub events_of : List (Bool × Option GoError × Option GoError) → List GoError
events_of [] = []
events_of ((b, e, none) ∷ rounds) = events_of rounds
events_of ((b, e, some f) ∷ rounds) = f ∷ events_of rounds

-- The steps, the delays in nanoseconds, and the factor and the jitter in tenths.
abbrev pub pull_backoff : ℕ × ℕ × ℕ × ℕ × ℕ
pull_backoff = (5, 2000000000, 60000000000, 16, 2)

-- `retry` is wait.ExponentialBackoffWithContext: of the outcomes that the calls of the condition would
-- have in turn, it tells how many it makes, and returns its error. The result is the error, and the
-- errors that FailedToPullImage is told of.
unfoldable pub pull_image :
    (ℕ × ℕ × ℕ × ℕ × ℕ → List (Bool × Option GoError) → Option GoError × ℕ)
    → (AuthConfig → GoError ⊎ String)
    → (String → List (GoError ⊎ Stream))
    → RegistryCredentials
    → Option GoError × List GoError
unfolding encode_registry_auth pull_round
pull_image retry encode replies creds = elim (encode_registry_auth encode creds) [
  | inl e ↦ (some (wrap "failed to encode registry auth" e), [])
  | inr header ↦
      let rounds = map pull_round (replies header) in
      let loop = retry pull_backoff (map (λ r. (r.0, r.1)) rounds) in
      (loop.0, events_of (take loop.1 rounds))
]

-- One round of the wait for a container: a tick, with what ContainerInspect answers (whether the
-- container runs, if it has a state), or the end of the context.
pub data Wait : Type 0 where
  ticked : GoError ⊎ Option Bool → Wait
  context_ended : GoError → Wait

-- The result, and how often the command is executed; `none` waits on. `exec` is what ExecInContainer
-- returns.
unfoldable pub exec_post_start_action : Option GoError → List Wait → Option (Option GoError × ℕ)
exec_post_start_action exec [] = none
exec_post_start_action exec (context_ended e ∷ rounds) = some (some e, 0)
exec_post_start_action exec (ticked (inl e) ∷ rounds) = some (some e, 0)
exec_post_start_action exec (ticked (inr (some true)) ∷ rounds) = some (exec, 1)
exec_post_start_action exec (ticked (inr (some false)) ∷ rounds) =
    exec_post_start_action exec rounds
exec_post_start_action exec (ticked (inr none) ∷ rounds) = exec_post_start_action exec rounds

-- A tick that finds the container not running, as it does before the start and after the exit.
abbrev IsIdle : Wait → Type 0
IsIdle (ticked (inr (some true))) = ⊥
IsIdle (ticked (inr _)) = Unit
IsIdle _ = ⊥

-- A wait goes on however often the container is found not running: a container that has exited before
-- the first tick is waited for until the context ends.
exec_post_start_action-IsIdle :
    (exec : Option GoError) (idle rounds : List Wait)
    → All IsIdle idle
    → exec_post_start_action exec (idle ++ rounds) ≡ exec_post_start_action exec rounds
unfolding exec_post_start_action
exec_post_start_action-IsIdle exec [] rounds h = refl
exec_post_start_action-IsIdle exec (ticked (inr (some true)) ∷ idle) rounds (h, k) = absurd h
exec_post_start_action-IsIdle exec (ticked (inr (some false)) ∷ idle) rounds (h, k) =
    exec_post_start_action-IsIdle exec idle rounds k
exec_post_start_action-IsIdle exec (ticked (inr none) ∷ idle) rounds (h, k) =
    exec_post_start_action-IsIdle exec idle rounds k
exec_post_start_action-IsIdle exec (ticked (inl e) ∷ idle) rounds (h, k) = absurd h
exec_post_start_action-IsIdle exec (context_ended e ∷ idle) rounds (h, k) = absurd h
