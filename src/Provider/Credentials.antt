-- ===== src/Provider/Credentials.antt =====
-- pkg/provider/pod_credentials.go: the token and the config map that a pod's projected volumes name.
use mac_os_vz_kubelet.Common.{
  ℕ, String, Bool, true, false, ◌&&◌, ◌||◌, ◌≡◌, refl, ◌∙◌, Option, none, some, List, [], ◌∷◌, any,
  is_some, or_else, not, ◌++◌, Sum-cases, Bool-cases, is_blank, if◌then◌else◌, GoError, ◌⊎◌, inl,
  inr, arith,
}

pub record TokenProjection : Type 0 where
  pub audience : String
  pub expiration_seconds : Option ℕ

-- A source of a projected volume; the config map is its name.
pub record Source : Type 0 where
  pub service_account_token : Option TokenProjection
  pub config_map : Option String

-- The sources of each volume, or `none` where it is not projected.
abbrev pub Volumes : Type 0
Volumes = List (Option (List Source))

-- The two variables of findProjections.
pub record Found : Type 0 where
  pub svc_proj : Option TokenProjection
  pub cm_proj : Option String

abbrev pub or_found {ℓ} : {A : Type ℓ} → Option A → Option A → Option A
or_found none old = old
or_found (some a) old = some a

-- The loop over the sources of one volume; its `break` does not end the loop over the volumes.
unfoldable pub find_sources : List Source → Found → Found
find_sources [] f = f
find_sources (s ∷ ss) f =
    let g : Found = record {
      svc_proj = or_found s.service_account_token f.svc_proj;
      cm_proj = or_found s.config_map f.cm_proj;
    } in
    let rest = find_sources ss g in if is_some g.svc_proj && is_some g.cm_proj then g else rest

unfoldable pub find_volumes : Volumes → Found → Found
unfolding find_sources
find_volumes [] f = f
find_volumes (none ∷ vs) f = find_volumes vs f
find_volumes (some ss ∷ vs) f = find_volumes vs (find_sources ss f)

unfoldable pub find_projections : Volumes → Found
unfolding find_volumes
find_projections vs = find_volumes vs (record { svc_proj = none; cm_proj = none })

-- The calls of the Kubernetes client.
pub data Call : Type 0 where
  get_config_map : String → Call
  create_token : List String → Option ℕ → Call

abbrev pub is_token_call : Call → Bool
is_token_call (get_config_map _) = false
is_token_call (create_token _ _) = true

abbrev pub is_config_map_call : Call → Bool
is_config_map_call c = not (is_token_call c)

abbrev pub is_empty {ℓ} : {A : Type ℓ} → List A → Bool
is_empty [] = true
is_empty (x ∷ xs) = false

abbrev pub audiences : TokenProjection → List String
audiences p = if is_blank p.audience then [] else p.audience ∷ []

abbrev pub config_map_calls : Option String → List Call
config_map_calls none = []
config_map_calls (some name) = get_config_map name ∷ []

abbrev pub token_calls : Option TokenProjection → List Call
token_calls none = []
token_calls (some p) = create_token (audiences p) p.expiration_seconds ∷ []

-- A Go map has at most one entry here. `token` is the token of a TokenRequest.
module _ {C : Type 0} (config_maps : String → GoError ⊎ C) where
  unfoldable pub populate_config_maps : Option String → GoError ⊎ List (String × C)
  populate_config_maps none = inr []
  populate_config_maps (some name) = elim (config_maps name) [
    | inl e ↦ inl e
    | inr c ↦ inr ((name, c) ∷ [])
  ]

  module _ (token : List String → Option ℕ → GoError ⊎ String) where
    unfoldable pub create_service_account_token : Option TokenProjection → GoError ⊎ String
    create_service_account_token none = inr ""
    create_service_account_token (some p) = token (audiences p) p.expiration_seconds

    -- With the calls that are made, in order.
    unfoldable pub extract_found :
        Option TokenProjection
        → Option String
        → (GoError ⊎ (List (String × C) × String)) × List Call
    unfolding populate_config_maps create_service_account_token
    extract_found svc cm = elim (populate_config_maps cm) [
      | inl e ↦ (inl e, config_map_calls cm)
      | inr maps ↦ (
        elim (create_service_account_token svc) [ inl e ↦ inl e | inr t ↦ inr (maps, t) ],
        config_map_calls cm ++ token_calls svc,
      )
    ]

    unfoldable pub extract_pod_credentials :
        Option Bool → Volumes → (GoError ⊎ (List (String × C) × String)) × List Call
    unfolding extract_found find_projections
    extract_pod_credentials automount vs =
        if or_else automount true
        then extract_found (find_projections vs).svc_proj (find_projections vs).cm_proj
        else (inr ([], ""), [])

    -- The calls that a success has made.
    extract_found_lem :
        (svc : Option TokenProjection) (cm : Option String) (maps : List (String × C)) (t : String)
        → (extract_found svc cm).0 ≡ inr (maps, t)
        → let calls = (extract_found svc cm).1 in
          (any is_token_call calls ≡ is_some svc)
          × (any is_config_map_call calls ≡ is_some cm)
          × (is_some cm ≡ not (is_empty maps))
    unfolding extract_found populate_config_maps create_service_account_token
    extract_found_lem none none maps t e = (refl, refl, ground arith)
    extract_found_lem (some p) none maps t e =
        elim (Sum-cases (token (audiences p) p.expiration_seconds)) [
          | inl (d, f) ↦ absurd (ground arith)
          | inr (u, f) ↦ (refl, refl, ground arith)
        ]
    extract_found_lem svc (some n) maps t e = elim (Sum-cases (config_maps n)) [
      | inl (d, f) ↦ absurd (ground arith)
      | inr (c, f) ↦ (ground arith, ground arith, ground arith)
    ]

find_sources_lem :
    (ss : List Source) (f : Found)
    → (is_some (find_sources ss f).svc_proj
        ≡ (is_some f.svc_proj || any (λ s. is_some s.service_account_token) ss))
      × (is_some (find_sources ss f).cm_proj
          ≡ (is_some f.cm_proj || any (λ s. is_some s.config_map) ss))
unfolding find_sources
find_sources_lem [] f = (ground arith, ground arith)
find_sources_lem (s ∷ ss) f =
    let g : Found = record {
      svc_proj = or_found s.service_account_token f.svc_proj;
      cm_proj = or_found s.config_map f.cm_proj;
    } in
    let (h, k) = find_sources_lem ss g in (ground (arith, h), ground (arith, k))

-- A test on every source of the projected volumes.
abbrev pub any_source : (Source → Bool) → Volumes → Bool
any_source p [] = false
any_source p (none ∷ vs) = any_source p vs
any_source p (some ss ∷ vs) = any p ss || any_source p vs

find_volumes_lem :
    (vs : Volumes) (f : Found)
    → (is_some (find_volumes vs f).svc_proj
        ≡ (is_some f.svc_proj || any_source (λ s. is_some s.service_account_token) vs))
      × (is_some (find_volumes vs f).cm_proj
          ≡ (is_some f.cm_proj || any_source (λ s. is_some s.config_map) vs))
unfolding find_volumes
find_volumes_lem [] f = (ground arith, ground arith)
find_volumes_lem (none ∷ vs) f = find_volumes_lem vs f
find_volumes_lem (some ss ∷ vs) f =
    let (h, k) = find_volumes_lem vs (find_sources ss f) in
    let (i, j) = find_sources_lem ss f in (ground (arith, h, i), ground (arith, k, j))

-- A pod gets a token exactly where the mount of the token is not turned off and one of the sources
-- of its projected volumes, whichever the volume, asks for one; the same holds of the config map.
-- With the mount turned off, no call is made and both are empty.
extract_pod_credentials_lem :
    {C : Type 0} (config_maps : String → GoError ⊎ C)
    (token : List String → Option ℕ → GoError ⊎ String) (automount : Option Bool) (vs : Volumes)
    (maps : List (String × C)) (t : String)
    → (extract_pod_credentials config_maps token automount vs).0 ≡ inr (maps, t)
    → let calls = (extract_pod_credentials config_maps token automount vs).1 in
      (any is_token_call calls
        ≡ (or_else automount true && any_source (λ s. is_some s.service_account_token) vs))
      × (any is_config_map_call calls
          ≡ (or_else automount true && any_source (λ s. is_some s.config_map) vs))
      × (any is_config_map_call calls ≡ not (is_empty maps))
unfolding extract_pod_credentials find_projections
extract_pod_credentials_lem config_maps token automount vs maps t e =
    let f = find_projections vs in
    let (h, k) = find_volumes_lem vs (record { svc_proj = none; cm_proj = none }) in
    elim (Bool-cases (or_else automount true)) [
      | inl o ↦
          let (i, j, l) =
            extract_found_lem config_maps token f.svc_proj f.cm_proj maps t (ground arith) in
          rw o (i ∙ h, j ∙ k, j ∙ l)
      | inr o ↦ rw o (refl, refl, ground arith)
    ]
