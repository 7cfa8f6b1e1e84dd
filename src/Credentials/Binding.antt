-- ===== src/Credentials/Binding.antt =====
-- The credentials that an image gets, from its secrets: each identity token stays with its registry.
use mac_os_vz_kubelet.Common.{
  String, ◌==◌, text_comparable, same_refl, ◌≡◌, refl, sym, ap, ◌∙◌, subst, Bool, true, Option,
  some, List, [], ◌∷◌, ◌++◌, map, any, All, is_blank, or_else, if◌then◌else◌, GoError, ◌⊎◌, inl,
  inr, arith, Bool-cases, Sum-cases,
}
use mac_os_vz_kubelet.Store.Assoc.{load_entry}
use mac_os_vz_kubelet.Credentials.{
  DockerConfigEntry, AuthConfig, Keyring, RegistryCredentials, RegistryCredentialStore, choose,
  for_image, is_empty, credentials_of, with_server,
}
use mac_os_vz_kubelet.Credentials.Pull.{
  Library, Secret, DockerConfig, Tokens, SecretResult, Rings, read_secret, resolve_refs,
  secret_refs, add_registries, resolve_image_pull_credentials, failed, ignored, parsed, no_entry,
  store_of, account_name, no_rings, add_parsed,
}

-- One Add to the keyring with that to the keyring of the tokens.
abbrev pub Pair : Type 0
Pair = String × (DockerConfigEntry × DockerConfigEntry)

abbrev pub entry_half : Pair → String × DockerConfigEntry
entry_half (r, (e, t)) = (r, e)

abbrev pub token_half : Pair → String × DockerConfigEntry
token_half (r, (e, t)) = (r, t)

-- What the code relies on: two keyrings of the same registries have aligned matches, which are among
-- what was added, and the password of an entry is that of its match.
pub record KeyringLaws (lookup : String → Keyring → List AuthConfig × Bool) : Type 1 where
  pub auth : DockerConfigEntry → AuthConfig
  pub matched : String → List Pair → List Pair
  pub entries-matched :
      (image : String) (ps : List Pair)
      → (lookup image (map entry_half ps)).0 ≡ map (λ p. auth p.1.0) (matched image ps)
  pub tokens-matched :
      (image : String) (ps : List Pair)
      → (lookup image (map token_half ps)).0 ≡ map (λ p. auth p.1.1) (matched image ps)
  pub All-matched :
      (P : Pair → Type 0) (image : String) (ps : List Pair) → All P ps → All P (matched image ps)
  pub auth_password : (e : DockerConfigEntry) → (auth e).password ≡ e.password

map-append {ℓ} :
    {A B : Type ℓ} (f : A → B) (xs ys : List A) → map f (xs ++ ys) ≡ map f xs ++ map f ys
map-append f [] ys = refl
map-append f (x ∷ xs) ys = ap (λ l. f x ∷ l) (map-append f xs ys)

All-append {ℓ κ} :
    {A : Type ℓ} (P : A → Type κ) (xs ys : List A) → All P xs → All P ys → All P (xs ++ ys)
All-append P [] ys h k = k
All-append P (x ∷ xs) ys (p, h) k = (p, All-append P xs ys h k)

module _ (lib : Library) (get : String → GoError ⊎ Secret) (refs : List String) where
  -- Both halves stand for one registry of one secret among `refs`.
  abbrev IsSourced : Pair → Type 0
  IsSourced (r, (e, t)) =
      (name : String) × (config : DockerConfig) × (tokens : Tokens) × (any (λ n. n == name) refs
        ≡ true)
      × (read_secret lib name (get name) ≡ parsed config tokens)
      × (e ≡ or_else (load_entry r config) no_entry)
      × (t.password ≡ or_else (load_entry r tokens) "")

  abbrev IsPaired : Rings → Type 0
  IsPaired x =
      (ps : List Pair) × (x.keyring ≡ map entry_half ps)
      × (x.token_keyring ≡ map token_half ps)
      × All IsSourced ps

  add_registries-IsPaired :
      (rs : List String) (name : String) (config : DockerConfig) (tokens : Tokens) (x : Rings)
      → any (λ n. n == name) refs ≡ true
      → read_secret lib name (get name) ≡ parsed config tokens
      → IsPaired x
      → IsPaired (add_registries rs config tokens x)
  unfolding add_registries
  add_registries-IsPaired [] name config tokens x i e h = h
  add_registries-IsPaired (r ∷ rs) name config tokens x i e (ps, k, t, a) =
      let p : Pair = (
        r,
        (
          or_else (load_entry r config) no_entry,
          record { username = ""; password = or_else (load_entry r tokens) "" },
        ),
      ) in
      add_registries-IsPaired rs name config tokens _ i e (
        ps ++ p ∷ [],
        ap (λ l. l ++ entry_half p ∷ []) k ∙ sym (map-append entry_half ps (p ∷ [])),
        ap (λ l. l ++ token_half p ∷ []) t ∙ sym (map-append token_half ps (p ∷ [])),
        All-append IsSourced ps (p ∷ []) a ((name, config, tokens, i, e, refl, refl), tt),
      )

  SecretResult-cases :
      (s : SecretResult)
      → ((e : GoError) × (s ≡ failed e))
        ⊎ (((e : GoError) × (s ≡ ignored e))
            ⊎ ((c : DockerConfig) × (t : Tokens) × (s ≡ parsed c t)))
  SecretResult-cases (failed e) = inl (e, refl)
  SecretResult-cases (ignored e) = inr (inl (e, refl))
  SecretResult-cases (parsed c t) = inr (inr (c, t, refl))

  resolve_refs-IsPaired :
      (names : List String) (x y : Rings)
      → All (λ name. any (λ n. n == name) refs ≡ true) names
      → IsPaired x
      → (resolve_refs lib get names x).0 ≡ inr y
      → IsPaired y
  unfolding resolve_refs
  resolve_refs-IsPaired [] x y a h e = let q : x ≡ y = ground arith in subst IsPaired q h
  resolve_refs-IsPaired (n ∷ ns) x y (i, a) h e =
      elim (SecretResult-cases (read_secret lib n (get n))) [
        | inl (d, f) ↦ absurd (ground arith)
        | inr (inl (d, f)) ↦ resolve_refs-IsPaired ns x y a h (ground arith)
        | inr (inr (c, t, f)) ↦
            resolve_refs-IsPaired ns (add_parsed lib c t x) y a
              (add_registries-IsPaired (lib.sort_strings (map (λ e. e.0) c)) n c t x i f h)
              (ground arith)
      ]

-- What is chosen is one of the matches, with the token at its index.
choose-matched :
    (P : Pair → Type 0) (auth : DockerConfigEntry → AuthConfig) (domain : Option String)
    (ps : List Pair) (c : RegistryCredentials)
    → All P ps
    → choose domain (map (λ p. auth p.1.0) ps) (map (λ p. auth p.1.1) ps) ≡ some c
    → (p : Pair) × P p
      × (with_server domain (credentials_of (auth p.1.0) (auth p.1.1).password) ≡ c)
unfolding choose
choose-matched P auth domain [] c a e = absurd (ground arith)
choose-matched P auth domain (p ∷ ps) c (h, a) e =
    elim (Bool-cases (is_empty (credentials_of (auth p.1.0) (auth p.1.1).password))) [
      | inl f ↦ choose-matched P auth domain ps c a (ground arith)
      | inr f ↦ (p, h, ground arith)
    ]

any-All :
    (xs ys : List String)
    → ((n : String) → any (λ m. m == n) xs ≡ true → any (λ m. m == n) ys ≡ true)
    → All (λ n. any (λ m. m == n) ys ≡ true) xs
any-All [] ys h = tt
any-All (x ∷ xs) ys h =
    (h x (ground (arith, same_refl x)), any-All xs ys (λ n e. h n (ground arith)))

module _ (lookup : String → Keyring → List AuthConfig × Bool) (laws : KeyringLaws lookup)
    (domain_of : String → Option String) (lib : Library) where
  -- The credentials that `for_image` finds in two keyrings of the same registries.
  for_image-IsPaired :
      (get : String → GoError ⊎ Secret) (refs : List String) (x : Rings) (image : String)
      (c : RegistryCredentials)
      → IsPaired lib get refs x
      → for_image lookup domain_of (store_of lib x) image ≡ some c
      → (p : Pair) × IsSourced lib get refs p
        × (with_server
              (domain_of image)
              (credentials_of (laws.auth p.1.0) (laws.auth p.1.1).password)
            ≡ c)
  unfolding for_image
  for_image-IsPaired get refs x image c (ps, k, t, a) e =
      let entries = ap (λ r. (lookup image r).0) k ∙ laws.entries-matched image ps in
      let tokens = ap (λ r. (lookup image r).0) t ∙ laws.tokens-matched image ps in
      choose-matched (IsSourced lib get refs) laws.auth (domain_of image) (laws.matched image ps) c
        (laws.All-matched (IsSourced lib get refs) image ps a) (ground (arith, entries, tokens))

  -- The credentials of an image are those of one registry of one secret that the pod or its service
  -- account names, and of a type that is read: its user name, its password, and for the identity
  -- token, unless the match has one itself, the token of the same registry in the same secret.
  pub resolve-for_image :
      (accounts : String → GoError ⊎ List String) (get : String → GoError ⊎ Secret)
      (pod_refs account_refs : List String) (account : String) (store : RegistryCredentialStore)
      (image : String) (c : RegistryCredentials)
      → accounts (account_name lib account) ≡ inr account_refs
      → (resolve_image_pull_credentials lib accounts get pod_refs account).0 ≡ inr store
      → for_image lookup domain_of store image ≡ some c
      → (name : String) × (config : DockerConfig) × (tokens : Tokens) × (registry : String) × (any
            (λ n. n == name)
            (secret_refs pod_refs account_refs)
          ≡ true)
        × (read_secret lib name (get name) ≡ parsed config tokens)
        × (let auth = laws.auth (or_else (load_entry registry config) no_entry) in
            (c.username ≡ auth.username)
            × (c.password ≡ auth.password)
            × (c.identity_token ≡ (
                if is_blank auth.identity_token
                then or_else (load_entry registry tokens) ""
                else auth.identity_token)))
  unfolding resolve_image_pull_credentials
  resolve-for_image accounts get pod_refs account_refs account store image c a e f =
      let refs = secret_refs pod_refs account_refs in
      elim (Sum-cases (resolve_refs lib get refs no_rings).0) [
        | inl (d, q) ↦ absurd (ground arith)
        | inr (x, q) ↦
            let whole = any-All refs refs (λ n h. h) in
            let paired =
              resolve_refs-IsPaired lib get refs refs no_rings x whole ([], refl, refl, tt) q in
            let ((r, (e', t')), (name, config, tokens, i, read, q1, q2), w) =
              for_image-IsPaired get refs x image c paired (ground arith) in
            (
              name,
              config,
              tokens,
              r,
              i,
              read,
              (
                ground (arith, w, q1),
                ground (arith, w, q1),
                ground (arith, w, q1, q2, laws.auth_password t'),
              ),
            )
      ]
