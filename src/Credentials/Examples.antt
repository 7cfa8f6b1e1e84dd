-- ===== src/Credentials/Examples.antt =====
-- The theorems on credentials at a pod with a secret of two registries, and a keyring whose matches
-- are the registries of the image's text.
use mac_os_vz_kubelet.Common.{
  String, ◌==◌, text_comparable, ◌≡◌, refl, Bool, true, false, some, List, [], ◌∷◌, map, any, keep,
  All, is_blank, or_else, if◌then◌else◌, GoError, text, ◌⊎◌, inl, inr, arith, Bool-cases,
}
use mac_os_vz_kubelet.Store.Assoc.{load_entry}
use mac_os_vz_kubelet.Credentials.{
  DockerConfigEntry, AuthConfig, Keyring, RegistryCredentials, for_image,
}
use mac_os_vz_kubelet.Credentials.Pull.{
  Library, Secret, docker_config_json, DockerConfig, Tokens, read_secret, parsed, no_entry,
  secret_refs, resolve_image_pull_credentials,
}
use mac_os_vz_kubelet.Credentials.Binding.{
  Pair, entry_half, token_half, KeyringLaws, resolve-for_image,
}

abbrev auth : DockerConfigEntry → AuthConfig
auth e = record {
  username = e.username;
  password = e.password;
  identity_token = "";
  server_address = "";
}

abbrev at_image : {V : Type 0} → String → String × V → Bool
at_image image e = e.0 == image

abbrev exact : String → Keyring → List AuthConfig × Bool
exact image ring = (map (λ e. auth e.1) (keep (at_image image) ring), true)

entries_exact :
    (image : String) (ps : List Pair)
    → (exact image (map entry_half ps)).0 ≡ map (λ p. auth p.1.0) (keep (at_image image) ps)
entries_exact image [] = refl
entries_exact image (p ∷ ps) = ground (arith, entries_exact image ps)

tokens_exact :
    (image : String) (ps : List Pair)
    → (exact image (map token_half ps)).0 ≡ map (λ p. auth p.1.1) (keep (at_image image) ps)
tokens_exact image [] = refl
tokens_exact image (p ∷ ps) = ground (arith, tokens_exact image ps)

All-exact :
    (P : Pair → Type 0) (image : String) (ps : List Pair)
    → All P ps
    → All P (keep (at_image image) ps)
All-exact P image [] h = h
All-exact P image (p ∷ ps) (q, h) = elim (Bool-cases (at_image image p)) [
  | inl e ↦ rw e (q, All-exact P image ps h)
  | inr e ↦ rw e (All-exact P image ps h)
]

abbrev exact_laws : KeyringLaws exact
exact_laws = record {
  auth = auth;
  matched = λ image ps. keep (at_image image) ps;
  entries-matched = entries_exact;
  tokens-matched = tokens_exact;
  All-matched = All-exact;
  auth_password = λ e. refl;
}

abbrev entry : String → DockerConfigEntry
entry user = record { username = user; password = "pw" }

abbrev library : Library
library = record {
  decode_json = λ raw. inr (("ghcr.io", entry "ci") ∷ ("quay.io", entry "") ∷ []);
  decode_tokens = λ raw. inr (("quay.io", "refresh") ∷ []);
  decode_config = λ raw. inl (text "unused");
  sort_strings = λ names. names;
  quoted = λ s. s;
  is_not_found = λ e. false;
}

abbrev accounts : String → GoError ⊎ List String
accounts name = inr ("regcred" ∷ [])

abbrev secrets : String → GoError ⊎ Secret
secrets name =
    inr (record { type = docker_config_json; data_of = (".dockerconfigjson", "{}") ∷ [] })

abbrev ring : Keyring
ring = ("ghcr.io", entry "ci") ∷ ("quay.io", entry "") ∷ []

abbrev token_ring : Keyring
token_ring =
    ("ghcr.io", record { username = ""; password = "" })
    ∷ ("quay.io", record { username = ""; password = "refresh" })
    ∷ []

abbrev found : RegistryCredentials
found = record { server = "quay.io"; username = ""; password = "pw"; identity_token = "refresh" }

resolve-for_image_example :
    (name : String) × (config : DockerConfig) × (tokens : Tokens) × (registry : String) × (any
        (λ n. n == name)
        (secret_refs ("regcred" ∷ []) ("regcred" ∷ []))
      ≡ true)
    × (read_secret library name (secrets name) ≡ parsed config tokens)
    × (let found_auth = auth (or_else (load_entry registry config) no_entry) in
        ("" ≡ found_auth.username)
        × ("pw" ≡ found_auth.password)
        × ("refresh" ≡ (
            if is_blank found_auth.identity_token
            then or_else (load_entry registry tokens) ""
            else found_auth.identity_token)))
unfolding resolve_image_pull_credentials for_image
resolve-for_image_example =
    resolve-for_image exact exact_laws (λ image. some image) library accounts secrets
      ("regcred" ∷ []) ("regcred" ∷ []) ""
      (record { keyring = some ring; token_keyring = some token_ring }) "quay.io" found refl refl
      refl
