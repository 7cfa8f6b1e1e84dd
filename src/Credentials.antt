-- ===== src/Credentials.antt =====
-- pkg/resource/registry_credentials.go: the credentials that the pull of an image uses. A docker
-- keyring of Kubernetes is the sequence of the Adds that made it, of one registry each.
pub mod Pull
mod Binding
mod Refs
mod Examples
use mac_os_vz_kubelet.Common.{
  String, ◌<>◌, Bool, true, false, not, ◌&&◌, Option, none, some, List, [], ◌∷◌, is_blank, or_else,
  if◌then◌else◌,
}

pub record RegistryCredentials : Type 0 where
  pub server : String
  pub username : String
  pub password : String
  pub identity_token : String

abbrev pub is_empty : RegistryCredentials → Bool
is_empty c = is_blank c.username && is_blank c.password && is_blank c.identity_token

abbrev pub redact_secret : String → String
redact_secret s = if is_blank s then "" else "<redacted>"

-- RegistryCredentials.String
unfoldable pub to_string : RegistryCredentials → String
to_string c =
    "{Server:"
    <> c.server
    <> " Username:"
    <> c.username
    <> " Password:"
    <> redact_secret c.password
    <> " IdentityToken:"
    <> redact_secret c.identity_token
    <> "}"

-- RegistryCredentials.GoString; `quoted` is the verb %q of fmt.
unfoldable pub go_string : (String → String) → RegistryCredentials → String
go_string quoted c =
    "resource.RegistryCredentials{Server:"
    <> quoted c.server
    <> ", Username:"
    <> quoted c.username
    <> ", Password:"
    <> quoted (redact_secret c.password)
    <> ", IdentityToken:"
    <> quoted (redact_secret c.identity_token)
    <> "}"

-- The types of k8s.io/kubernetes/pkg/credentialprovider.
pub record DockerConfigEntry : Type 0 where
  pub username : String
  pub password : String

pub record AuthConfig : Type 0 where
  pub username : String
  pub password : String
  pub identity_token : String
  pub server_address : String

abbrev pub Keyring : Type 0
Keyring = List (String × DockerConfigEntry)

pub record RegistryCredentialStore : Type 0 where
  pub keyring : Option Keyring
  pub token_keyring : Option Keyring

-- The credentials of one match, with the token at its index.
abbrev pub credentials_of : AuthConfig → String → RegistryCredentials
credentials_of auth token = record {
  server = auth.server_address;
  username = auth.username;
  password = auth.password;
  identity_token = if is_blank auth.identity_token then token else auth.identity_token;
}

abbrev pub first_password : List AuthConfig → String
first_password [] = ""
first_password (a ∷ rest) = a.password

abbrev pub rest_of : List AuthConfig → List AuthConfig
rest_of [] = []
rest_of (a ∷ rest) = rest

-- `domain` is the domain of the image reference, if it can be parsed.
abbrev pub with_server : Option String → RegistryCredentials → RegistryCredentials
with_server domain c = if is_blank c.server then record c { server = or_else domain "" } else c

-- The loop over the matches.
unfoldable pub choose :
    Option String → List AuthConfig → List AuthConfig → Option RegistryCredentials
choose domain [] tokens = none
choose domain (auth ∷ auths) tokens =
    let rest = choose domain auths (rest_of tokens) in
    let creds = credentials_of auth (first_password tokens) in
    if is_empty creds then rest else some (with_server domain creds)

-- `lookup` is the Lookup of a keyring, and `domain_of` gives the domain of an image reference.
module _ (lookup : String → Keyring → List AuthConfig × Bool)
    (domain_of : String → Option String) where
  abbrev tokens_of : String → Option Keyring → List AuthConfig
  tokens_of image none = []
  tokens_of image (some ring) = (lookup image ring).0

  unfoldable pub for_image : RegistryCredentialStore → String → Option RegistryCredentials
  unfolding choose
  for_image store image = elim store.keyring [
    | none ↦ none
    | some ring ↦
        let (auths, ok) = lookup image ring in
        if ok then choose (domain_of image) auths (tokens_of image store.token_keyring) else none
  ]
