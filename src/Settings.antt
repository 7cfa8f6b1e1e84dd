-- ===== src/Settings.antt =====
-- internal/envcfg: the durations that are read from the environment, and the test of
-- internal/podstatus on a container. os.Getenv, strings.TrimSpace, time.ParseDuration and the verb %q
-- are parameters; durations are in nanoseconds.
use mac_os_vz_kubelet.Common.{
  ℕ, ◌*◌, ◌-◌, String, ◌<>◌, Bool, false, Option, none, some, List, is_blank, is_some,
  if◌then◌else◌, GoError, text, wrap, ◌⊎◌, inl, inr, Bool-cases,
}

-- A time.Duration: `positive n` is n + 1 nanoseconds, `not_positive n` is n nanoseconds before zero.
pub data Duration : Type 0 where
  positive : ℕ → Duration
  not_positive : ℕ → Duration

-- What the code takes from elsewhere.
pub record Texts : Type 0 where
  pub getenv : String → String
  pub trim_space : String → String
  pub quote : String → String
  pub parse_duration : String → GoError ⊎ Duration

abbrev pub positive_or : String → Duration → GoError ⊎ Duration → Duration × Option GoError
positive_or v preset (inl e) = (preset, some (wrap ("invalid duration " <> v) e))
positive_or v preset (inr (not_positive n)) =
    (preset, some (text ("duration " <> v <> " must be positive")))
positive_or v preset (inr (positive n)) = (positive n, none)

unfoldable pub resolve_duration : Texts → String → Duration → Duration × Option GoError
resolve_duration t env_value preset =
    let v = t.trim_space env_value in
    if is_blank v then (preset, none) else positive_or (t.quote v) preset (t.parse_duration v)

-- A number of seconds that is not zero.
abbrev pub seconds : ℕ → Duration
seconds n = positive (n * 1000000000 - 1)

unfoldable pub post_start_timeout_checked : Texts → Duration × Option GoError
unfolding resolve_duration
post_start_timeout_checked t = resolve_duration t (t.getenv "VZ_POSTSTART_TIMEOUT") (seconds 10)

unfoldable pub ssh_dial_timeout : Texts → Duration
unfolding resolve_duration
ssh_dial_timeout t = (resolve_duration t (t.getenv "VZ_SSH_DIAL_TIMEOUT") (seconds 5)).0

unfoldable pub ssh_readiness_timeout : Texts → Duration
unfolding resolve_duration
ssh_readiness_timeout t = (resolve_duration t (t.getenv "VZ_SSH_READINESS_TIMEOUT") (seconds 60)).0

-- corev1.Container, as far as its hook is read: each pointer on the way may be nil.
pub record Lifecycle : Type 0 where
  pub post_start : Option (Option (List String))

abbrev pub has_exec : Option (Option (List String)) → Bool
has_exec none = false
has_exec (some exec) = is_some exec

unfoldable pub has_exec_post_start_hook : Option Lifecycle → Bool
has_exec_post_start_hook none = false
has_exec_post_start_hook (some l) = has_exec l.post_start

abbrev pub IsPositive : Duration → Type 0
IsPositive (positive n) = Unit
IsPositive (not_positive n) = ⊥

positive_or-IsPositive :
    (v : String) (preset : Duration) (d : GoError ⊎ Duration)
    → IsPositive preset
    → IsPositive (positive_or v preset d).0
positive_or-IsPositive v preset (inl e) h = h
positive_or-IsPositive v preset (inr (not_positive n)) h = h
positive_or-IsPositive v preset (inr (positive n)) h = tt

-- Whatever the environment holds, the duration that is used is positive if the preset is.
resolve_duration-IsPositive :
    (t : Texts) (env_value : String) (preset : Duration)
    → IsPositive preset
    → IsPositive (resolve_duration t env_value preset).0
unfolding resolve_duration
resolve_duration-IsPositive t env_value preset h =
    elim (Bool-cases (is_blank (t.trim_space env_value))) [
      | inl k ↦ rw k h
      | inr k ↦ rw k (positive_or-IsPositive _ preset (t.parse_duration (t.trim_space env_value)) h)
    ]
