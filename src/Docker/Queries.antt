-- ===== src/Docker/Queries.antt =====
-- The queries of pkg/resourcemanager/docker.go about the containers of a pod, and All of
-- internal/data/container.
use mac_os_vz_kubelet.Common.{
  ℕ, ◌-◌, String, Bool, Option, none, some, List, map, ltb, nat_eq, is_some, if◌then◌else◌, GoError,
  wrap, not_found, join_errors, ◌⊎◌, inl, inr, NamespacedName, namespaced_name_comparable,
  text_comparable,
}
use mac_os_vz_kubelet.Store.{SyncMap}
use mac_os_vz_kubelet.Resource.Container.{Container}
use mac_os_vz_kubelet.Docker.ContainerData.{
  ContainerInfo, InnerMap, load_container, load_all_containers,
}
use mac_os_vz_kubelet.Docker.Reports.{
  DockerState, get_containers_wrapped, DockerStats, StatsReport, docker_container_stats,
}

module _ (i : InnerMap) (m : SyncMap NamespacedName i.Map) where
  -- Every pod with its containers.
  unfoldable pub all_containers : m.Map → List (NamespacedName × List (String × ContainerInfo))
  all_containers d = map (λ (p : NamespacedName × i.Map). (p.0, i.entries p.1)) (m.entries d)

  -- `parse_time` is time.Parse, `inspect` what ContainerInspect answers for an identifier.
  unfoldable pub get_containers :
      (String → Option ℕ)
      → (String → GoError ⊎ Option DockerState)
      → NamespacedName
      → m.Map
      → GoError ⊎ List Container
  unfolding load_all_containers
  get_containers parse_time inspect key d = elim (load_all_containers i m key d) [
    | none ↦ inl (not_found "containers not found")
    | some infos ↦ inr (get_containers_wrapped parse_time inspect infos)
  ]

  unfoldable pub get_containers_list_result :
      (String → Option ℕ)
      → (String → GoError ⊎ Option DockerState)
      → m.Map
      → List (NamespacedName × List Container)
  unfolding all_containers
  get_containers_list_result parse_time inspect d =
      map
        (λ (p : NamespacedName × List (String × ContainerInfo)).
          (p.0, get_containers_wrapped parse_time inspect p.1))
        (all_containers d)

  unfoldable pub is_container_present : NamespacedName → String → m.Map → Bool
  unfolding load_container
  is_container_present key name d = is_some (load_container i m key name d)

  -- What ContainerStats answers for an identifier: an error, or what the decoding of the body gives,
  -- and the error of its close.
  abbrev pub close_body :
      GoError ⊎ StatsReport → Option GoError → Option StatsReport × Option GoError
  close_body (inl e) closed = (none, join_errors (some (wrap "failed to decode stats" e)) closed)
  close_body (inr s) closed = (some s, closed)

  abbrev pub decoded : (ℕ → ℕ → ℕ → ℕ) → GoError ⊎ DockerStats → GoError ⊎ StatsReport
  decoded rate (inl e) = inl e
  decoded rate (inr s) = inr (docker_container_stats rate s)

  abbrev pub close_error : Option GoError → Option GoError
  close_error none = none
  close_error (some e) = some (wrap "failed to close stats response body" e)

  unfoldable pub get_container_stats :
      (ℕ → ℕ → ℕ → ℕ)
      → (String → GoError ⊎ ((GoError ⊎ DockerStats) × Option GoError))
      → NamespacedName
      → String
      → m.Map
      → Option StatsReport × Option GoError
  unfolding load_container
  get_container_stats rate ask_stats key name d = elim (load_container i m key name d) [
    | none ↦ (none, some (not_found "container not found"))
    | some info ↦ elim (ask_stats info.id) [
      | inl e ↦ (none, some (wrap "failed to get container stats" e))
      | inr (body, closed) ↦ close_body (decoded rate body) (close_error closed)
    ]
  ]

-- api.ContainerLogOpts; the times in seconds, 0 being the zero time.
pub record LogOpts : Type 0 where
  pub tail : ℕ
  pub since_seconds : ℕ
  pub since_time : ℕ
  pub timestamps : Bool
  pub follow : Bool

-- dockercontainer.LogsOptions, as far as they differ from call to call.
pub record LogsOptions : Type 0 where
  pub since : String
  pub timestamps : Bool
  pub follow : Bool
  pub tail : String

-- `itoa` is strconv.Itoa and `rfc3339` the format of a time.
unfoldable pub logs_options : (ℕ → String) → (ℕ → String) → ℕ → LogOpts → LogsOptions
logs_options itoa rfc3339 now o = record {
  since =
      if ltb 0 o.since_seconds
      then rfc3339 (now - o.since_seconds)
      else (if nat_eq o.since_time 0 then "" else rfc3339 o.since_time);
  timestamps = o.timestamps;
  follow = o.follow;
  tail = itoa o.tail;
}
