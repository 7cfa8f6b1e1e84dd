-- ===== src/Credentials/Pull.antt =====
-- pkg/provider/image_pull_credentials.go: the credentials of a pod, from its image pull secrets and
-- those of its service account. A Go map is a list of entries without a key twice.
use mac_os_vz_kubelet.Common.{
  String, ◌<>◌, ◌==◌, text_comparable, Bool, true, false, none, some, List, [], ◌∷◌, ◌++◌, map, any,
  is_blank, or_else, if◌then◌else◌, GoError, text, wrap, ◌⊎◌, inl, inr,
}
use mac_os_vz_kubelet.Store.Assoc.{load_entry}
use mac_os_vz_kubelet.Credentials.{DockerConfigEntry, Keyring, RegistryCredentialStore}

pub data SecretType : Type 0 where
  docker_config_json dockercfg : SecretType
  other_type : String → SecretType

pub record Secret : Type 0 where
  pub type : SecretType
  pub data_of : List (String × String)

abbrev pub DockerConfig : Type 0
DockerConfig = List (String × DockerConfigEntry)

abbrev pub Tokens : Type 0
Tokens = List (String × String)

-- The library functions that the code calls: json.Unmarshal into the three types, sort.Strings, the
-- verb %q of fmt, and apierrors.IsNotFound.
pub record Library : Type 0 where
  pub decode_json : String → GoError ⊎ DockerConfig
  pub decode_tokens : String → GoError ⊎ Tokens
  pub decode_config : String → GoError ⊎ DockerConfig
  pub sort_strings : List String → List String
  pub quoted : String → String
  pub is_not_found : GoError → Bool

abbrev pub err_empty_docker_config : GoError
err_empty_docker_config = text "docker config has no auth entries"

-- The first loops: names that are there already are skipped.
unfoldable pub add_refs : List String → List String → List String
add_refs [] refs = refs
add_refs (name ∷ names) refs =
    add_refs names (if any (λ r. r == name) refs then refs else refs ++ name ∷ [])

unfoldable pub secret_refs : List String → List String → List String
unfolding add_refs
secret_refs pod account = add_refs account (add_refs pod [])

-- What one secret gives: the errors that end the resolution, the warning that goes on, or entries.
pub data SecretResult : Type 0 where
  failed ignored : GoError → SecretResult
  parsed : DockerConfig → Tokens → SecretResult

-- The two keyrings, and `hasCredentials`.
pub record Rings : Type 0 where
  pub keyring : Keyring
  pub token_keyring : Keyring
  pub has_credentials : Bool

abbrev pub no_entry : DockerConfigEntry
no_entry = record { username = ""; password = "" }

abbrev pub keep_tokens : Tokens → Tokens
keep_tokens [] = []
keep_tokens ((r, t) ∷ ts) = if is_blank t then keep_tokens ts else (r, t) ∷ keep_tokens ts

abbrev pub unless_empty : DockerConfig → Tokens → GoError ⊎ (DockerConfig × Tokens)
unless_empty [] tokens = inl err_empty_docker_config
unless_empty (e ∷ es) tokens = inr (e ∷ es, tokens)

-- One Add to both keyrings.
abbrev pub add_registry : DockerConfig → Tokens → String → Rings → Rings
add_registry config tokens r x = record x {
  keyring = x.keyring ++ (r, or_else (load_entry r config) no_entry) ∷ [];
  token_keyring =
      x.token_keyring
      ++ (r, record { username = ""; password = or_else (load_entry r tokens) "" }) ∷ [];
}

unfoldable pub add_registries : List String → DockerConfig → Tokens → Rings → Rings
add_registries [] config tokens x = x
add_registries (r ∷ rs) config tokens x =
    add_registries rs config tokens (add_registry config tokens r x)

abbrev pub no_rings : Rings
no_rings = record { keyring = []; token_keyring = []; has_credentials = false }

module _ (lib : Library) where
  unfoldable pub identity_tokens : String → Tokens
  identity_tokens raw = elim (lib.decode_tokens raw) [ inl _ ↦ [] | inr ts ↦ keep_tokens ts ]

  unfoldable pub parse_docker_config_json : String → GoError ⊎ (DockerConfig × Tokens)
  unfolding identity_tokens
  parse_docker_config_json raw =
      if is_blank raw then inl err_empty_docker_config else elim (lib.decode_json raw) [
        | inl e ↦ inl (wrap "invalid docker config json" e)
        | inr auths ↦ unless_empty auths (identity_tokens raw)
      ]

  unfoldable pub parse_docker_config : String → GoError ⊎ (DockerConfig × Tokens)
  parse_docker_config raw =
      if is_blank raw then inl err_empty_docker_config else elim (lib.decode_config raw) [
        | inl e ↦ inl (wrap "invalid dockercfg" e)
        | inr config ↦ unless_empty config []
      ]

  abbrev pub data_at : String → Secret → String
  data_at key s = or_else (load_entry key s.data_of) ""

  abbrev pub parse_dockercfg : Secret → GoError ⊎ (DockerConfig × Tokens)
  parse_dockercfg s =
      if is_blank (data_at ".dockerconfigjson" s)
      then parse_docker_config (data_at ".dockercfg" s)
      else parse_docker_config_json (data_at ".dockerconfigjson" s)

  abbrev pub parse_as : SecretType → Secret → GoError ⊎ (DockerConfig × Tokens)
  parse_as docker_config_json s = parse_docker_config_json (data_at ".dockerconfigjson" s)
  parse_as dockercfg s = parse_dockercfg s
  parse_as (other_type t) s = inl (text ("unsupported secret type " <> lib.quoted t))

  unfoldable pub parse_image_pull_secret : Secret → GoError ⊎ (DockerConfig × Tokens)
  unfolding parse_docker_config_json parse_docker_config
  parse_image_pull_secret s = parse_as s.type s

  abbrev pub parse_result : String → GoError ⊎ (DockerConfig × Tokens) → SecretResult
  parse_result name (inl e) =
      failed (wrap ("failed to parse imagePullSecret " <> lib.quoted name) e)
  parse_result name (inr (config, tokens)) = parsed config tokens

  abbrev pub read_supported : String → SecretType → Secret → SecretResult
  read_supported name (other_type t) s = ignored (
      text
        ("ignoring imagePullSecret " <> lib.quoted name <> ": unsupported type " <> lib.quoted t))
  read_supported name _ s = parse_result name (parse_image_pull_secret s)

  -- The body of the loop over the secrets, up to the keyrings.
  unfoldable pub read_secret : String → GoError ⊎ Secret → SecretResult
  unfolding parse_image_pull_secret
  read_secret name (inl e) =
      if lib.is_not_found e
      then failed (wrap ("imagePullSecret " <> lib.quoted name <> " not found") e)
      else failed (wrap ("failed to fetch imagePullSecret " <> lib.quoted name) e)
  read_secret name (inr s) = read_supported name s.type s

  abbrev pub add_parsed : DockerConfig → Tokens → Rings → Rings
  add_parsed config tokens x =
      record (add_registries (lib.sort_strings (map (λ e. e.0) config)) config tokens x) {
        has_credentials = true;
      }

  -- The loop over the secrets, with the warnings that it records.
  unfoldable pub resolve_refs :
      (String → GoError ⊎ Secret) → List String → Rings → (GoError ⊎ Rings) × List GoError
  unfolding read_secret add_registries
  resolve_refs get [] x = (inr x, [])
  resolve_refs get (name ∷ names) x = elim (read_secret name (get name)) [
    | failed e ↦ (inl e, [])
    | ignored w ↦ let (r, ws) = resolve_refs get names x in (r, w ∷ ws)
    | parsed config tokens ↦ resolve_refs get names (add_parsed config tokens x)
  ]

  abbrev pub store_of : Rings → RegistryCredentialStore
  store_of x =
      if x.has_credentials
      then record { keyring = some x.keyring; token_keyring = some x.token_keyring }
      else record { keyring = none; token_keyring = none }

  abbrev pub account_name : String → String
  account_name name = if is_blank name then "default" else name

  -- `accounts` gives the image pull secrets of a service account, and `get` a secret.
  unfoldable pub resolve_image_pull_credentials :
      (String → GoError ⊎ List String)
      → (String → GoError ⊎ Secret)
      → List String
      → String
      → (GoError ⊎ RegistryCredentialStore) × List GoError
  unfolding resolve_refs secret_refs
  resolve_image_pull_credentials accounts get pod_refs account =
      let name = account_name account in
      elim (accounts name) [
        | inl e ↦ (
          inl (
              if lib.is_not_found e
              then wrap ("service account " <> lib.quoted name <> " not found") e
              else wrap ("failed to fetch service account " <> lib.quoted name) e),
          [],
        )
        | inr refs ↦
            let (result, warnings) = resolve_refs get (secret_refs pod_refs refs) no_rings in
            elim result [ inl e ↦ (inl e, warnings) | inr x ↦ (inr (store_of x), warnings) ]
      ]
