-- ===== src/SshConn/Dialing/Methods.antt =====
-- When the SSH connection of a virtual machine is dialed, and what stops the wait for it.
use mac_os_vz_kubelet.Common.{
  String, ◌<>◌, ◌≡◌, ◌≢◌, Option, some, List, [], ◌∷◌, ◌++◌, NamespacedName,
  namespaced_name_comparable, text_comparable, is_blank, GoError, invalid_input, ◌⊎◌, inl, inr,
  true, false, sym, ◌∙◌, arith, Bool-cases, refl,
}
use mac_os_vz_kubelet.Resource.VirtualMachine.{ip_address}
use mac_os_vz_kubelet.MacosClient.VmData.{VmMap, VirtualMachineInfo, load}
use mac_os_vz_kubelet.PostStart.{Library, probe, Round, poll_rounds}
use mac_os_vz_kubelet.SshConn.Dialing.{
  AuthMethod, public_keys, password, SshLibrary, ClientConfig, or_invalid, ◌>>=◌, getenv, trimmed,
  private_key, parse_key, key_methods, password_methods, if_any, get_ssh_auth_methods, dial_at,
  ssh_dial_func,
}

-- An error for which errdefs.IsInvalidInput holds.
abbrev pub IsInvalid : GoError → Type 0
IsInvalid e = (x : GoError) × (e ≡ invalid_input x)

-- A result whose error is of that kind and whose value has a property.
abbrev pub Fails : {A : Type 0} → (A → Type 0) → GoError ⊎ A → Type 0
Fails P (inl e) = IsInvalid e
Fails P (inr a) = P a

Fails-bind :
    {A B : Type 0} (P : A → Type 0) (Q : B → Type 0) (m : GoError ⊎ A) (f : A → GoError ⊎ B)
    → Fails P m
    → ((a : A) → P a → Fails Q (f a))
    → Fails Q (m >>= f)
Fails-bind P Q (inl e) f h k = h
Fails-bind P Q (inr a) f h k = k a h

Fails-map :
    {A : Type 0} (P Q : A → Type 0) (m : GoError ⊎ A)
    → Fails P m
    → ((a : A) → P a → Q a)
    → Fails Q m
Fails-map P Q (inl e) h k = h
Fails-map P Q (inr a) h k = k a h

blank_or_not : (s : String) → ((is_blank s ≡ true) × (s ≡ "")) ⊎ ((is_blank s ≡ false) × (s ≢ ""))
blank_or_not s = elim (Bool-cases (is_blank s)) [
  | inl h ↦ inl (h, (text_comparable.same_iff s "").0 h)
  | inr h ↦ inr (h, λ e. cc ((text_comparable.same_iff s "").1 e))
]

or_invalid-Fails :
    {A : Type 0} (s : String) (r : GoError ⊎ A) → Fails (λ a. r ≡ inr a) (or_invalid s r)
or_invalid-Fails s (inl e) = (_, refl)
or_invalid-Fails s (inr a) = refl

module _ (lib : SshLibrary) where
  abbrev pub env : String → String
  env v = lib.texts.getenv v

  abbrev pub trimmed_env : String → String
  trimmed_env v = lib.texts.trim_space (env v)

  -- The text of a private key: what VZ_SSH_PRIVATE_KEY_BASE64 encodes, else what the file at
  -- VZ_SSH_PRIVATE_KEY_PATH has, else nothing. Both variables are read without the spaces around.
  abbrev pub HasKey : String → Type 0
  HasKey key =
      ((trimmed_env "VZ_SSH_PRIVATE_KEY_BASE64" ≢ "")
        × (lib.decode_base64 (trimmed_env "VZ_SSH_PRIVATE_KEY_BASE64") ≡ inr key))
      ⊎ ((trimmed_env "VZ_SSH_PRIVATE_KEY_BASE64" ≡ "")
          × (((trimmed_env "VZ_SSH_PRIVATE_KEY_PATH" ≢ "")
                × (lib.read_file (trimmed_env "VZ_SSH_PRIVATE_KEY_PATH") ≡ inr key))
              ⊎ ((trimmed_env "VZ_SSH_PRIVATE_KEY_PATH" ≡ "") × (key ≡ ""))))

  -- The signer of a key: parsed with the passphrase if there is one.
  abbrev pub Parses : String → String → Type 0
  Parses key signer =
      ((env "VZ_SSH_PRIVATE_KEY_PASSPHRASE" ≡ "") × (lib.parse_private_key key ≡ inr signer))
      ⊎ ((env "VZ_SSH_PRIVATE_KEY_PASSPHRASE" ≢ "")
          × (lib.parse_private_key_with_passphrase key (env "VZ_SSH_PRIVATE_KEY_PASSPHRASE")
              ≡ inr signer))

  -- The methods of the private key: none if there is no key, else the one that it is parsed to.
  abbrev pub KeyMethods : List AuthMethod → Type 0
  KeyMethods methods =
      (key : String) × HasKey key
      × (((key ≡ "") × (methods ≡ []))
          ⊎ ((key ≢ "")
              × ((signer : String) × Parses key signer × (methods ≡ public_keys signer ∷ []))))

  -- The method of the password: none if it is empty.
  abbrev pub PasswordMethods : List AuthMethod → Type 0
  PasswordMethods methods =
      ((env "VZ_SSH_PASSWORD" ≡ "") × (methods ≡ []))
      ⊎ ((env "VZ_SSH_PASSWORD" ≢ "") × (methods ≡ password (env "VZ_SSH_PASSWORD") ∷ []))

  abbrev pub Authenticates : String × List AuthMethod → Type 0
  Authenticates (user, auth) =
      (user ≡ env "VZ_SSH_USER")
      × (user ≢ "")
      × (auth ≢ [])
      × ((keys : List AuthMethod) × (passwords : List AuthMethod) × KeyMethods keys
          × PasswordMethods passwords
          × (auth ≡ keys ++ passwords))

  private_key-HasKey : Fails HasKey (private_key lib)
  unfolding private_key
  private_key-HasKey = elim (blank_or_not (trimmed lib "VZ_SSH_PRIVATE_KEY_BASE64")) [
    | inl (h, e) ↦ elim (blank_or_not (trimmed lib "VZ_SSH_PRIVATE_KEY_PATH")) [
      | inl (k, f) ↦ rw (h, k) (inr (e, inr (f, refl)))
      | inr (k, f) ↦
          rw (h, k)
            (Fails-map (λ key. lib.read_file (trimmed_env "VZ_SSH_PRIVATE_KEY_PATH") ≡ inr key)
              HasKey _ (or_invalid-Fails _ (lib.read_file (trimmed_env "VZ_SSH_PRIVATE_KEY_PATH")))
              (λ key g. inr (e, inl (f, g))))
    ]
    | inr (h, e) ↦ rw h (
        Fails-map (λ key. lib.decode_base64 (trimmed_env "VZ_SSH_PRIVATE_KEY_BASE64") ≡ inr key)
          HasKey _
          (or_invalid-Fails _ (lib.decode_base64 (trimmed_env "VZ_SSH_PRIVATE_KEY_BASE64")))
          (λ key g. inl (e, g)))
  ]

  parse_key-Parses : (key signer : String) → parse_key lib key ≡ inr signer → Parses key signer
  parse_key-Parses key signer g = elim (blank_or_not (env "VZ_SSH_PRIVATE_KEY_PASSPHRASE")) [
    | inl (h, e) ↦ inl (e, sym (rw h refl) ∙ g)
    | inr (h, e) ↦ inr (e, sym (rw h refl) ∙ g)
  ]

  password_methods-PasswordMethods : PasswordMethods (password_methods lib)
  password_methods-PasswordMethods = elim (blank_or_not (env "VZ_SSH_PASSWORD")) [
    | inl (h, e) ↦ inl (e, rw h refl)
    | inr (h, e) ↦ inr (e, rw h refl)
  ]

  key_methods-Fails : (key : String) → HasKey key → Fails KeyMethods (key_methods lib key)
  unfolding key_methods
  key_methods-Fails key h = elim (blank_or_not key) [
    | inl (k, e) ↦ rw k (key, h, inl (e, refl))
    | inr (k, e) ↦ rw k (
        Fails-bind _ KeyMethods
          (or_invalid "failed to parse VZ_SSH_PRIVATE_KEY" (parse_key lib key)) _
          (or_invalid-Fails _ (parse_key lib key))
          (λ signer parsed. (key, h, inr (e, (signer, parse_key-Parses key signer parsed, refl)))))
  ]

  module _ (user : String) (methods : List AuthMethod) (from_env : user ≡ getenv lib "VZ_SSH_USER")
      (named : user ≢ "") (keys : KeyMethods methods) where
    if_any-Fails :
        (auth : List AuthMethod)
        → auth ≡ methods ++ (password_methods lib)
        → Fails Authenticates (if_any lib user auth)
    if_any-Fails [] split = (_, refl)
    if_any-Fails (a ∷ auth) split = (
      from_env,
      named,
      λ e. cc,
      (methods, password_methods lib, keys, password_methods-PasswordMethods, split),
    )

  -- Either the user and the methods come from the environment, or the error is InvalidInput.
  get_ssh_auth_methods_lem : Fails Authenticates (get_ssh_auth_methods lib)
  unfolding get_ssh_auth_methods
  get_ssh_auth_methods_lem = elim (Bool-cases (is_blank (getenv lib "VZ_SSH_USER"))) [
    | inl h ↦ rw h (_, refl)
    | inr h ↦ rw h (
        Fails-bind _ Authenticates (private_key lib) _ private_key-HasKey (λ key got.
          Fails-bind KeyMethods Authenticates (key_methods lib key) _ (key_methods-Fails key got)
            (λ methods keys.
              if_any-Fails (getenv lib "VZ_SSH_USER") methods refl
                (λ e. cc ((text_comparable.same_iff (getenv lib "VZ_SSH_USER") "").1 e)) keys
                (methods ++ (password_methods lib)) refl)))
  ]

  -- A dial at an address that is not empty, with what the environment says.
  abbrev pub Dials : String → String × ClientConfig → Type 0
  Dials ip (addr, config) =
      (ip ≢ "") × (addr ≡ ip <> ":22") × Authenticates (config.user, config.auth)

  dial_at-Fails : (ip : String) → Fails (Dials ip) (dial_at lib ip)
  dial_at-Fails ip = elim (Bool-cases (is_blank ip)) [
    | inl h ↦ rw h (_, refl)
    | inr h ↦ rw h (
        Fails-bind Authenticates (Dials ip) (get_ssh_auth_methods lib) _ get_ssh_auth_methods_lem
          (λ found auth. (λ e. cc ((text_comparable.same_iff ip "").1 e), refl, auth)))
  ]

  known :
      (m : VmMap) (key : NamespacedName) (vms : m.Map) (info : VirtualMachineInfo)
      → load m key vms ≡ some info
      → ssh_dial_func lib m key vms ≡ dial_at lib (ip_address info.resource)
  unfolding ssh_dial_func
  known m key vms info h = rw (h, ssh_dial_func) refl

  -- How a dial ends: with an error that ends the wait for SSH at the probe that gives it, or with what
  -- is dialed at an address.
  abbrev pub DialResult : Library → String → GoError ⊎ (String × ClientConfig) → Type 0
  DialResult polls ip (inl e) =
      (last : Option GoError) (rounds : List Round)
      → poll_rounds polls last (probe (some e) ∷ rounds)
        ≡ some (record { last_err = some e; err = some e })
  DialResult polls ip (inr dialed) = Dials ip dialed

  module _ (polls : Library)
      (knows : (x : GoError) → polls.is_invalid_input (invalid_input x) ≡ true) where
    Fails-DialResult :
        (ip : String) (r : GoError ⊎ (String × ClientConfig))
        → Fails (Dials ip) r
        → DialResult polls ip r
    unfolding poll_rounds
    Fails-DialResult ip (inl e) (x, h) = λ last rounds. ground (arith, knows x)
    Fails-DialResult ip (inr dialed) h = h

    -- The connection of a virtual machine that is known is dialed only at its address, which is not
    -- empty, as VZ_SSH_USER and with at least one method: the key that VZ_SSH_PRIVATE_KEY_BASE64
    -- encodes, or if that is empty the one in the file at VZ_SSH_PRIVATE_KEY_PATH, parsed with
    -- VZ_SSH_PRIVATE_KEY_PASSPHRASE if that is set, and then VZ_SSH_PASSWORD, each if not empty. Whatever else keeps it from
    -- being dialed, a virtual machine without an address too, is an error that ends the wait for SSH at
    -- the first probe that gives it, where errdefs.IsInvalidInput knows the errors of
    -- errdefs.InvalidInputf.
    pub ssh_dial_func_lem :
        (m : VmMap) (key : NamespacedName) (vms : m.Map) (info : VirtualMachineInfo)
        → load m key vms ≡ some info
        → DialResult polls (ip_address info.resource) (ssh_dial_func lib m key vms)
    ssh_dial_func_lem m key vms info h = rw (known m key vms info h) (
        Fails-DialResult (ip_address info.resource) (dial_at lib (ip_address info.resource))
          (dial_at-Fails (ip_address info.resource)))
