-- ===== src/SshConn/Dialing.antt =====
-- pkg/resourcemanager/macos_ssh.go: with what the SSH connection of a virtual machine is dialed.
pub mod Methods
use mac_os_vz_kubelet.Common.{
  String, ◌<>◌, ◌≡◌, ◌≢◌, Option, none, some, List, [], ◌∷◌, ◌++◌, NamespacedName,
  namespaced_name_comparable, text_comparable, is_blank, if◌then◌else◌, GoError, text, not_found,
  invalid_input, error_text, ◌⊎◌, inl, inr, Bool, true, arith, Bool-cases, refl, ap, sym, ◌∙◌,
}
use mac_os_vz_kubelet.Settings.{Texts, Duration, ssh_dial_timeout}
use mac_os_vz_kubelet.Resource.VirtualMachine.{ip_address}
use mac_os_vz_kubelet.MacosClient.VmData.{VmMap, VirtualMachineInfo, load}

-- ssh.PublicKeys of a signer, and ssh.Password.
pub data AuthMethod : Type 0 where
  public_keys : String → AuthMethod
  password : String → AuthMethod

-- The environment, the decoding of base64, os.ReadFile, ssh.ParsePrivateKey and its variant with a
-- passphrase, and strings.Split at a comma.
pub record SshLibrary : Type 0 where
  pub texts : Texts
  pub decode_base64 : String → GoError ⊎ String
  pub read_file : String → GoError ⊎ String
  pub parse_private_key : String → GoError ⊎ String
  pub parse_private_key_with_passphrase : String → String → GoError ⊎ String
  pub split_comma : String → List String

-- errdefs.InvalidInputf with %v of an error.
abbrev pub or_invalid : {A : Type 0} → String → GoError ⊎ A → GoError ⊎ A
or_invalid s (inl e) = inl (invalid_input (text (s <> ": " <> error_text e)))
or_invalid s (inr a) = inr a

infixl 5 ◌>>=◌
abbrev pub ◌>>=◌ : {A B : Type 0} → GoError ⊎ A → (A → GoError ⊎ B) → GoError ⊎ B
inl e >>= f = inl e
inr a >>= f = f a

pub record ClientConfig : Type 0 where
  pub user : String
  pub auth : List AuthMethod
  pub timeout : Duration
  pub key_exchanges : Option (List String)

module _ (lib : SshLibrary) where
  abbrev pub getenv : String → String
  getenv = lib.texts.getenv

  abbrev pub trimmed : String → String
  trimmed variable = lib.texts.trim_space (getenv variable)

  -- The variable `privateKey`.
  unfoldable pub private_key : GoError ⊎ String
  private_key =
      let key_base64 = trimmed "VZ_SSH_PRIVATE_KEY_BASE64" in
      let key_path = trimmed "VZ_SSH_PRIVATE_KEY_PATH" in
      if is_blank key_base64
      then if is_blank key_path
        then inr ""
        else or_invalid "failed to read VZ_SSH_PRIVATE_KEY_PATH" (lib.read_file key_path)
      else or_invalid "failed to decode VZ_SSH_PRIVATE_KEY_BASE64" (lib.decode_base64 key_base64)

  abbrev pub parse_key : String → GoError ⊎ String
  parse_key key =
      let passphrase = getenv "VZ_SSH_PRIVATE_KEY_PASSPHRASE" in
      if is_blank passphrase
      then lib.parse_private_key key
      else lib.parse_private_key_with_passphrase key passphrase

  unfoldable pub key_methods : String → GoError ⊎ List AuthMethod
  key_methods key = if is_blank key then inr [] else (do
    signer ← or_invalid "failed to parse VZ_SSH_PRIVATE_KEY" (parse_key key)
    inr (public_keys signer ∷ []))

  abbrev pub password_methods : List AuthMethod
  password_methods =
      let value = getenv "VZ_SSH_PASSWORD" in if is_blank value then [] else password value ∷ []

  abbrev pub if_any : String → List AuthMethod → GoError ⊎ (String × List AuthMethod)
  if_any user [] = inl (
      invalid_input (
        text
          "VZ_SSH_PRIVATE_KEY_BASE64, VZ_SSH_PRIVATE_KEY_PATH, or VZ_SSH_PASSWORD env variable is required"))
  if_any user (a ∷ auth) = inr (user, a ∷ auth)

  unfoldable pub get_ssh_auth_methods : GoError ⊎ (String × List AuthMethod)
  unfolding private_key key_methods
  get_ssh_auth_methods =
      let user = getenv "VZ_SSH_USER" in
      if is_blank user
      then inl (invalid_input (text "VZ_SSH_USER env variable is required"))
      else (do
        key ← private_key
        methods ← key_methods key
        if_any user (methods ++ password_methods))

  abbrev pub key_exchanges : Option (List String)
  key_exchanges =
      let kex_list = trimmed "VZ_SSH_KEX_ALGORITHMS" in
      if is_blank kex_list then none else some (lib.split_comma kex_list)

  abbrev pub dial_at : String → GoError ⊎ (String × ClientConfig)
  dial_at ip_addr =
      if is_blank ip_addr
      then inl (invalid_input (text "virtual machine does not have an IP address"))
      else (do
        (user, auth) ← get_ssh_auth_methods
        inr (
          ip_addr <> ":22",
          record {
            user = user;
            auth = auth;
            timeout = ssh_dial_timeout lib.texts;
            key_exchanges = key_exchanges;
          },
        ))

  -- The address and the configuration that DialContext is called with.
  unfoldable pub ssh_dial_func :
      (m : VmMap) → NamespacedName → m.Map → GoError ⊎ (String × ClientConfig)
  unfolding get_ssh_auth_methods
  ssh_dial_func m key vms = elim (load m key vms) [
    | none ↦ inl (not_found "virtual machine not found")
    | some info ↦ dial_at (ip_address info.resource)
  ]
