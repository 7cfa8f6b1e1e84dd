-- ===== src/Downloader/Download.antt =====
-- pkg/downloader/download.go: one download of an image into the store of pkg/oci.
use mac_os_vz_kubelet.Common.{
  not, is_some, ℕ, String, ◌<>◌, Bool, true, false, ◌||◌, Option, none, some, List, [], ◌∷◌, map,
  take, length, ltb, nat_eq, if◌then◌else◌, GoError, wrap, join_errors, ◌⊎◌, inl, inr,
}
use mac_os_vz_kubelet.Credentials.{RegistryCredentials, is_empty}
use mac_os_vz_kubelet.Network.Text.{split, join_at}
use mac_os_vz_kubelet.Oci.Processing.{Paths, OciStore}
use mac_os_vz_kubelet.Oci.{
  get_file_path_for_media_type, close, media_type_disk_image, media_type_aux_image,
}
use mac_os_vz_kubelet.Oci.Lookup.{get_config}
use mac_os_vz_kubelet.Vm.Platform.{MacPlatformConfigurationOptions}

-- The parameters of a download, the reference as its ASCII codes; times are in nanoseconds.
pub record Params : Type 0 where
  pub ref : List ℕ
  pub store_path : String
  pub ignore_existing : Bool
  pub credentials : RegistryCredentials
  pub min_retry_delay : ℕ
  pub max_delay : ℕ
  pub max_attempts : ℕ

abbrev pub or_default : ℕ → ℕ → ℕ
or_default value preset = if nat_eq value 0 then preset else value

unfoldable pub with_defaults : Params → Params
with_defaults p = record p {
  min_retry_delay = or_default p.min_retry_delay 2000000000;
  max_delay = or_default p.max_delay 60000000000;
  max_attempts = or_default p.max_attempts 5;
}

-- wait.Backoff, its factor and jitter in tenths.
pub record Backoff : Type 0 where
  pub duration : ℕ
  pub factor : ℕ
  pub jitter : ℕ
  pub steps : ℕ
  pub cap : ℕ

abbrev pub backoff_of : Params → Backoff
backoff_of p = record {
  duration = p.min_retry_delay;
  factor = 16;
  jitter = 2;
  steps = p.max_attempts;
  cap = p.max_delay;
}

-- auth.Credential
pub record Credential : Type 0 where
  pub username : String
  pub password : String
  pub refresh_token : String

unfoldable pub to_oras_credential : RegistryCredentials → Credential
to_oras_credential c = record {
  username = c.username;
  password = c.password;
  refresh_token = c.identity_token;
}

-- ":" becomes "/".
unfoldable pub convert_to_path : List ℕ → List ℕ
unfolding split join_at
convert_to_path s = let parts = split 58 s in if ltb (length parts) 2 then s else join_at 47 parts

abbrev pub first_part : List (List ℕ) → List ℕ
first_part [] = []
first_part (p ∷ ps) = p

-- A host without its port, and what net.ParseIP finds of it: whether it is a loopback address, and
-- whether it is private.
abbrev pub is_local_ip : Option (Bool × Bool) → Bool
is_local_ip none = false
is_local_ip (some (loopback, private)) = loopback || private

abbrev pub localhost : List ℕ
localhost = 108 ∷ 111 ∷ 99 ∷ 97 ∷ 108 ∷ 104 ∷ 111 ∷ 115 ∷ 116 ∷ []

abbrev pub codes_equal : List ℕ → List ℕ → Bool
codes_equal [] [] = true
codes_equal (a ∷ as') (b ∷ bs) = if nat_eq a b then codes_equal as' bs else false
codes_equal _ _ = false

unfoldable pub is_localhost_or_local_ip : (List ℕ → Option (Bool × Bool)) → List ℕ → Bool
unfolding split
is_localhost_or_local_ip parse_ip host =
    let name = first_part (split 58 host) in
    if codes_equal name localhost then true else is_local_ip (parse_ip name)

-- What a copy is asked for: the parsed reference, whether over plain HTTP, and the credential for its
-- registry.
pub record CopyRequest : Type 0 where
  pub registry : List ℕ
  pub reference : List ℕ
  pub plain_http : Bool
  pub credential : Option (List ℕ × Credential)

abbrev pub request_for :
    (List ℕ → Option (Bool × Bool)) → List ℕ → List ℕ → RegistryCredentials → CopyRequest
request_for parse_ip registry reference creds = record {
  registry = registry;
  reference = reference;
  plain_http = is_localhost_or_local_ip parse_ip registry;
  credential = if is_empty creds then none else some (registry, to_oras_credential creds);
}

-- What the code takes from elsewhere: Go's string of codes, filepath.Join with "blobs", net.ParseIP,
-- and remote.NewRepository, which splits a reference into the registry and the tag or digest.
pub record Library : Type 0 where
  pub to_text : List ℕ → String
  pub blobs_path : String → String → String
  pub parse_ip : List ℕ → Option (Bool × Bool)
  pub new_repository : List ℕ → GoError ⊎ (List ℕ × List ℕ)

unfoldable pub pull :
    Library → List ℕ → RegistryCredentials → (CopyRequest → Option GoError) → Option GoError
pull lib ref creds copy = elim (lib.new_repository ref) [
  | inl e ↦ some (wrap ("failed to create repository from reference " <> lib.to_text ref) e)
  | inr (registry, reference) ↦ copy (request_for lib.parse_ip registry reference creds)
]

-- oci.Config, the two fields that a download reads.
pub record OciConfig : Type 0 where
  pub hardware_model_data : String
  pub machine_id_data : String

abbrev pub zero_options : MacPlatformConfigurationOptions
zero_options = record {
  block_storage_path = "";
  auxiliary_storage_path = "";
  hardware_model_data = "";
  machine_identifier_data = "";
}

-- What the condition of the loop returns after a pull: whether the loop is done, and its error.
unfoldable pub condition : Option GoError → Bool × Option GoError
condition err = (not (is_some err), none)

module _ (m : Paths) where
  -- The answers in one download: of oci.New; of the copies, in turn; of the file system; and the
  -- store as the copies leave it.
  pub record Answers : Type 0 where
    pub new_store : Option GoError
    pub copies : List (CopyRequest → Option GoError)
    pub store : OciStore m
    pub open_file : String → Option GoError
    pub decode : String → GoError ⊎ OciConfig
    pub close_file : Option GoError
    pub removed : List (Option GoError)

module _ (m : Paths) (join_path : String → String) where
  abbrev pub with_config :
      String
      → String
      → OciConfig × Option GoError
      → MacPlatformConfigurationOptions × Option GoError
  with_config disk aux (c, some e) = (zero_options, some (wrap "failed to get config" e))
  with_config disk aux (c, none) = (
    record {
      block_storage_path = disk;
      auxiliary_storage_path = aux;
      hardware_model_data = c.hardware_model_data;
      machine_identifier_data = c.machine_id_data;
    },
    none,
  )

  abbrev pub from_paths :
      GoError ⊎ String
      → GoError ⊎ String
      → OciConfig × Option GoError
      → MacPlatformConfigurationOptions × Option GoError
  from_paths (inl e) aux c = (
    zero_options,
    some (wrap ("failed to get file path for media type " <> media_type_disk_image) e),
  )
  from_paths (inr disk) (inl e) c = (
    zero_options,
    some (wrap ("failed to get file path for media type " <> media_type_aux_image) e),
  )
  from_paths (inr disk) (inr aux) c = with_config disk aux c

  -- The paths and the configuration of an image that is in the store.
  unfoldable pub read_store : Answers m → MacPlatformConfigurationOptions × Option GoError
  read_store a =
      from_paths (get_file_path_for_media_type m join_path media_type_disk_image a.store)
        (get_file_path_for_media_type m join_path media_type_aux_image a.store)
        (get_config m join_path a.open_file a.decode
          (record { hardware_model_data = ""; machine_id_data = "" }) a.close_file a.store)

  abbrev pub failures : List (Option GoError) → List GoError
  failures [] = []
  failures (none ∷ os) = failures os
  failures (some e ∷ os) = e ∷ failures os

  abbrev pub after_retries :
      Option GoError → Answers m → MacPlatformConfigurationOptions × Option GoError
  after_retries (some e) a = (zero_options, some e)
  after_retries none a = read_store a

  -- The deferred close of the store.
  abbrev pub close_store :
      Answers m
      → MacPlatformConfigurationOptions × Option GoError
      → MacPlatformConfigurationOptions × Option GoError
  close_store a (c, err) = (c, join_errors err (close m join_path a.removed a.store).0)

  -- What is left to do once there is a store, or none: the result, and the errors of which
  -- FailedToPullImage is told, those of the pulls that are made.
  abbrev pub with_store :
      Answers m
      → Option GoError
      → Option GoError × ℕ
      → List (Option GoError)
      → (MacPlatformConfigurationOptions × Option GoError) × List GoError
  with_store a (some e) loop outcomes =
      ((zero_options, some (wrap "failed to initialize store" e)), [])
  with_store a none (err, made) outcomes =
      (close_store a (after_retries err a), failures (take made outcomes))

  -- `retry` is wait.ExponentialBackoffWithContext: of what the calls of its condition would return in
  -- turn, it tells how many calls it makes, and returns its own error.
  unfoldable pub download :
      (Backoff → List (Bool × Option GoError) → Option GoError × ℕ)
      → Library
      → Answers m
      → Params
      → (MacPlatformConfigurationOptions × Option GoError) × List GoError
  unfolding pull read_store condition
  download retry lib a params =
      let p = with_defaults params in
      let outcomes = map (pull lib p.ref p.credentials) a.copies in
      with_store a a.new_store (retry (backoff_of p) (map condition outcomes)) outcomes
