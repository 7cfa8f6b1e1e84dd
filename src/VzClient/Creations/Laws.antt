-- ===== src/VzClient/Creations/Laws.antt =====
-- Which pods CreateVirtualizationGroup accepts, and what it leaves.
use mac_os_vz_kubelet.Common.{
  ℕ, String, ◌≡◌, ◌≢◌, ◌↔◌, ◌≤◌, Bool, true, Option, none, some, List, [], ◌∷◌, map, GoError, arith,
  ◌⊎◌, NamespacedName, namespaced_name_comparable, key_eq_iff, same_refl, All,
}
use mac_os_vz_kubelet.VzClient.Deletions.{new_extras, ExtrasMap}
use mac_os_vz_kubelet.VzClient.Creations.{
  Limits, ContainerRequest, PodRequest, create_vm, create_container, extract_cpu_request,
  extract_memory_request, validate_cpu_count, validate_memory_size, check_request, check_image,
  first_error, check_sidecars, check_pod, start_group, create_virtualization_group,
}

-- A request that stands and lies within two limits.
abbrev pub IsWithin : ℕ → ℕ → Option ℕ → Type 0
IsWithin low high request = (n : ℕ) × (request ≡ some n) × (low ≤ n) × (n ≤ high)

first_error-none : (es : List (Option GoError)) → (first_error es ≡ none) ↔ All (λ e. e ≡ none) es
first_error-none [] = ground arith
first_error-none (none ∷ es) = ground (arith, first_error-none es)
first_error-none (some e ∷ es) = ground arith

module _ (decimal : ℕ → String) (limits : Limits) where
  check_cpu :
      (request : Option ℕ)
      → (check_request (validate_cpu_count decimal limits) (extract_cpu_request request) ≡ none)
        ↔ IsWithin limits.min_cpu_count limits.max_cpu_count request
  unfolding check_request extract_cpu_request validate_cpu_count
  check_cpu none = ground arith
  check_cpu (some n) = ground arith

  check_memory :
      (request : Option ℕ)
      → (check_request (validate_memory_size decimal limits) (extract_memory_request request)
          ≡ none)
        ↔ IsWithin limits.min_memory_size limits.max_memory_size request
  unfolding check_request extract_memory_request validate_memory_size
  check_memory none = ground arith
  check_memory (some n) = ground arith

  module _ (quoted : String → String) (parse_reference : String → Option GoError) where
    check_image-accepts :
        (image : String)
        → (check_image quoted parse_reference image ≡ none) ↔ (parse_reference image ≡ none)
    unfolding check_image
    check_image-accepts image = ground arith

    check_sidecars-accepts :
        (has_client : Bool) (cs : List ContainerRequest)
        → (check_sidecars has_client cs ≡ none) ↔ ((cs ≡ []) ⊎ (has_client ≡ true))
    check_sidecars-accepts has_client [] = ground arith
    check_sidecars-accepts has_client (c ∷ cs) = ground arith

    -- The checks before a group is stored pass exactly if there are no sidecars or there is a
    -- client for them, the requests of the first container for cores and for memory can be read and
    -- lie within the limits of the framework, and its image reference parses.
    check_pod-accepts :
        (has_client : Bool) (pod : PodRequest)
        → (check_pod decimal limits quoted parse_reference has_client pod ≡ none) ↔ (
            ((pod.sidecars ≡ []) ⊎ (has_client ≡ true))
            × IsWithin limits.min_cpu_count limits.max_cpu_count pod.cpu
            × IsWithin limits.min_memory_size limits.max_memory_size pod.memory
            × (parse_reference pod.macos_container.image ≡ none))
    unfolding check_pod
    check_pod-accepts has_client pod =
        let a = check_cpu pod.cpu in
        let b = check_memory pod.memory in
        let c = check_image-accepts pod.macos_container.image in
        let d = check_sidecars-accepts has_client pod.sidecars in
        let e = first_error-none (
          check_sidecars has_client pod.sidecars
          ∷ check_request (validate_cpu_count decimal limits) (extract_cpu_request pod.cpu)
          ∷ check_request (validate_memory_size decimal limits) (extract_memory_request pod.memory)
          ∷ check_image quoted parse_reference pod.macos_container.image
          ∷ []) in
        (
          (λ h. let (p, (q, (r, (t, u)))) = e.0 h in (d.0 p, a.0 q, b.0 r, c.0 t)),
          (λ (p, q, r, t). e.1 (d.1 p, (a.1 q, (b.1 r, (c.1 t, tt))))),
        )

    module _ (m : ExtrasMap) where
      -- CreateVirtualizationGroup succeeds exactly if the checks pass and no goroutine fails; the
      -- goroutines for the virtual machine and for every sidecar have then run, and the group is
      -- stored. Where it fails, the directory is removed, and no group stays stored under the key,
      -- not even one that stood there before. Other keys are never touched.
      create_virtualization_group_lem :
          (has_client : Bool) (pod : PodRequest) (root : String) (wait : Option GoError) (d : m.Map)
          → let check = check_pod decimal limits quoted parse_reference has_client pod in
            let r =
              create_virtualization_group decimal limits quoted parse_reference m has_client pod
                root wait d in
            ((r.0 ≡ none) ↔ ((check ≡ none) × (wait ≡ none)))
            × (r.0 ≡ none
                → (r.1 ≡ create_vm pod.macos_container ∷ map create_container pod.sidecars)
                  × (m.load pod.key r.2 ≡ some (record (new_extras root) { has_cancel = true })))
            × (r.0 ≢ none → m.load pod.key r.2 ≡ none)
            × ((j : NamespacedName) → j ≢ pod.key → m.load j r.2 ≡ m.load j d)
      unfolding create_virtualization_group start_group
      create_virtualization_group_lem has_client pod root wait d =
          let x = record (new_extras root) { has_cancel = true } in
          let stored = m.store pod.key x d in
          (
            ground arith,
            ground (arith, m.load-store pod.key pod.key x d, same_refl pod.key),
            ground (
              arith,
              m.load-delete pod.key pod.key d,
              m.load-delete pod.key pod.key stored,
              same_refl pod.key,
            ),
            λ j n. ground (
              arith,
              m.load-delete j pod.key d,
              m.load-delete j pod.key stored,
              m.load-store j pod.key x d,
              key_eq_iff pod.key j,
            ),
          )
