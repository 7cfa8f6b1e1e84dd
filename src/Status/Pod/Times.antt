-- ===== src/Status/Pod/Times.antt =====
-- The reports and the times that buildPodStatus collects over the containers of the pod.
use mac_os_vz_kubelet.Common.{
  ℕ, zero, suc, ◌≤◌, ◌<◌, ◌≡◌, sym, ◌∙◌, ◌⊎◌, inl, inr, ◌≢◌, String, Bool, true, false, Option,
  none, some, List, [], ◌∷◌, ◌++◌, map, keep, any, All, is_some, or_else, nat_eq, if◌then◌else◌,
  arith, Option-cases, ◌||◌,
}
use mathlib.Core.List.{map-append, append_assoc, append-nil}
use mac_os_vz_kubelet.Resource.VirtualMachine as Vm
use mac_os_vz_kubelet.Resource.VirtualMachine.{VirtualMachineState}
use mac_os_vz_kubelet.Resource.Container.{Container}
use mac_os_vz_kubelet.Status.Types.{VirtualizationGroup, Pod, ContainerSpec}
use mac_os_vz_kubelet.Status.ContainerStates.{get_container_with_name}
use mac_os_vz_kubelet.Status.Pod.{
  LoopState, macos_round, sidecar_round, sidecar_rounds, container_rounds, loop_start,
  build_pod_status,
}

abbrev start_of_container : Option Container → ℕ
start_of_container none = 0
start_of_container (some k) = k.state.started_at

-- When the container of that name started, 0 if it did not or is not in the group.
abbrev pub start_of : VirtualizationGroup → ContainerSpec → ℕ
start_of vg c = start_of_container (get_container_with_name c.name vg.containers)

abbrev finish_of_container : Option Container → ℕ
finish_of_container none = 0
finish_of_container (some k) = k.state.finished_at

abbrev pub finish_of : VirtualizationGroup → ContainerSpec → ℕ
finish_of vg c = finish_of_container (get_container_with_name c.name vg.containers)

-- The group has a container of that name.
abbrev pub is_present : VirtualizationGroup → ContainerSpec → Bool
is_present vg c = is_some (get_container_with_name c.name vg.containers)

-- From the bounds on the first start `r` to the two cases of the reported start time.
abbrev StartBound : (ContainerSpec → ℕ) → ℕ → ContainerSpec → Type 0
StartBound start r c = start c ≢ 0 → (0 < r) × (r ≤ start c)

none_started :
    (start : ContainerSpec → ℕ) (cs : List ContainerSpec)
    → All (StartBound start 0) cs
    → All (λ k. start k ≡ 0) cs
none_started start [] h = tt
none_started start (c ∷ cs) h = (ground (arith, h.0), none_started start cs h.1)

some_started :
    (start : ContainerSpec → ℕ) (r : ℕ) (cs : List ContainerSpec)
    → All (StartBound start r) cs
    → All (λ k. start k ≢ 0 → r ≤ start k) cs
some_started start r [] h = tt
some_started start r (c ∷ cs) h = ((λ e. (h.0 e).1), some_started start r cs h.1)

-- What the first start `r` is, `v` being the start of the virtual machine.
abbrev pub IsEarliest : (ContainerSpec → ℕ) → ℕ → List ContainerSpec → Option ℕ → Type 0
IsEarliest start v cs none = (v ≡ 0) × All (λ k. start k ≡ 0) cs
IsEarliest start v cs (some t) =
    (0 < t)
    × (v ≢ 0 → t ≤ v)
    × All (λ k. start k ≢ 0 → t ≤ start k) cs
    × ((t ≡ v) ⊎ (any (λ k. nat_eq (start k) t) cs ≡ true))

IsEarliest-of_bounds :
    (start : ContainerSpec → ℕ) (v r : ℕ) (cs : List ContainerSpec)
    → All (StartBound start r) cs
    → (0 < v → (0 < r) × (r ≤ v))
    → ((r ≡ v) ⊎ (any (λ k. nat_eq (start k) r) cs ≡ true))
    → IsEarliest start v cs (if nat_eq r 0 then none else some r)
IsEarliest-of_bounds start v zero cs h b o = (ground (arith, b), none_started start cs h)
IsEarliest-of_bounds start v (suc r) cs h b o =
    let e : nat_eq (suc r) 0 ≡ false = ground arith in
    rw e (omega arith, (λ n. ground (arith, b)), some_started start (suc r) cs h, o)

module _ (hash : String → String) (vg : VirtualizationGroup) (pod : Pod) where
  sidecar_round_start :
      (c : ContainerSpec) (s : LoopState)
      → let r = (sidecar_round hash vg pod c s).first_start in
        (start_of vg c ≢ 0 → (0 < r) × (r ≤ start_of vg c))
        × (0 < s.first_start → (0 < r) × (r ≤ s.first_start))
        × ((r ≡ s.first_start) ⊎ (r ≡ start_of vg c))
  unfolding sidecar_round
  sidecar_round_start c s = ground arith

  -- The start after the loop is below every start met in it and the one before it, all of them
  -- that are not zero, and it is one of those.
  sidecar_rounds_start :
      (cs : List ContainerSpec) (s : LoopState)
      → let r = (sidecar_rounds hash vg pod cs s).first_start in
        All (λ c. start_of vg c ≢ 0 → (0 < r) × (r ≤ start_of vg c)) cs
        × (0 < s.first_start → (0 < r) × (r ≤ s.first_start))
        × ((r ≡ s.first_start) ⊎ (any (λ c. nat_eq (start_of vg c) r) cs ≡ true))
  unfolding sidecar_rounds
  sidecar_rounds_start [] s = ground arith
  sidecar_rounds_start (c ∷ cs) s =
      let h = sidecar_round_start c s in
      let ih = sidecar_rounds_start cs (sidecar_round hash vg pod c s) in
      (
        (λ e. ground (arith, h.0 e, ih.1), ih.0),
        ground (arith, h.1, ih.1),
        ground (arith, h.2, ih.2),
      )

  sidecar_round_update :
      (c : ContainerSpec) (s : LoopState)
      → let r = (sidecar_round hash vg pod c s).last_update in
        (s.last_update ≤ r)
        × (start_of vg c ≤ r)
        × (finish_of vg c ≤ r)
        × ((r ≡ s.last_update) ⊎ ((r ≡ start_of vg c) ⊎ (r ≡ finish_of vg c)))
  unfolding sidecar_round
  sidecar_round_update c s = ground arith

  -- The update time after the loop is the latest time met in it and the one before it.
  sidecar_rounds_update :
      (cs : List ContainerSpec) (s : LoopState)
      → let r = (sidecar_rounds hash vg pod cs s).last_update in
        (s.last_update ≤ r)
        × All (λ c. (start_of vg c ≤ r) × (finish_of vg c ≤ r)) cs
        × ((r ≡ s.last_update)
            ⊎ (any (λ c. nat_eq (start_of vg c) r || nat_eq (finish_of vg c) r) cs ≡ true))
  unfolding sidecar_rounds
  sidecar_rounds_update [] s = ground arith
  sidecar_rounds_update (c ∷ cs) s =
      let h = sidecar_round_update c s in
      let ih = sidecar_rounds_update cs (sidecar_round hash vg pod c s) in
      (omega (arith, h.0, ih.0), (omega (arith, h.1, h.2, ih.0), ih.1), ground (arith, h.3, ih.2))

  abbrev report_names : LoopState → List String
  report_names s = map (λ r. r.name) s.statuses

  sidecar_round_names :
      (c : ContainerSpec) (s : LoopState)
      → report_names (sidecar_round hash vg pod c s)
        ≡ report_names s ++ map (λ k. k.name) (keep (is_present vg) (c ∷ []))
  unfolding sidecar_round
  sidecar_round_names c s = elim (Option-cases (get_container_with_name c.name vg.containers)) [
    | inl e ↦ rw (e, sidecar_round) (sym (append-nil _))
    | inr (k, e) ↦ rw (e, sidecar_round) (map-append _ s.statuses _)
  ]

  sidecar_rounds_names :
      (cs : List ContainerSpec) (s : LoopState)
      → report_names (sidecar_rounds hash vg pod cs s)
        ≡ report_names s ++ map (λ k. k.name) (keep (is_present vg) cs)
  unfolding sidecar_rounds
  sidecar_rounds_names [] s = sym (append-nil _)
  sidecar_rounds_names (c ∷ cs) s =
      sidecar_rounds_names cs (sidecar_round hash vg pod c s)
      ∙ rw (sidecar_round_names c s) (
          ground (
            arith,
            append_assoc (report_names s) (c.name ∷ [])
                (map (λ k. k.name) (keep (is_present vg) cs)),
            append-nil (report_names s),
          ))

  -- A pod's report lists its macOS container first, and then those of its other containers that
  -- the group has, in the order of the pod's specification; the others are left out.
  build_pod_status-names :
      (node_ip : String) (c : ContainerSpec) (cs : List ContainerSpec)
      → pod.containers ≡ c ∷ cs
      → map (λ r. r.name) (build_pod_status hash node_ip vg pod).container_statuses
        ≡ c.name ∷ map (λ k. k.name) (keep (is_present vg) cs)
  unfolding build_pod_status container_rounds macos_round
  build_pod_status-names node_ip c cs e =
      rw (e, container_rounds)
        (sidecar_rounds_names cs (macos_round hash vg.macos_virtual_machine pod c loop_start))

  -- The start of the virtual machine, 0 if it has none.
  abbrev vm_start : ℕ
  vm_start = or_else (Vm.started_at vg.macos_virtual_machine) 0

  -- The start time of the pod is absent exactly when neither the virtual machine nor a container
  -- of the pod has started. Otherwise it is the earliest of their starts: no start is before it,
  -- and it is one of them.
  build_pod_status-IsEarliest :
      (node_ip : String) (c : ContainerSpec) (cs : List ContainerSpec)
      → pod.containers ≡ c ∷ cs
      → IsEarliest (start_of vg) vm_start cs (build_pod_status hash node_ip vg pod).start_time
  unfolding build_pod_status container_rounds macos_round
  build_pod_status-IsEarliest node_ip c cs e =
      let h =
        sidecar_rounds_start cs (macos_round hash vg.macos_virtual_machine pod c loop_start) in
      rw (e, container_rounds) (IsEarliest-of_bounds (start_of vg) vm_start _ cs h.0 h.1 h.2)
