-- ===== src/Provider/Statuses.antt =====
-- What the queries of the provider answer and delete.
use mac_os_vz_kubelet.Common.{
  String, ◌≡◌, refl, sym, ap, ◌∙◌, Bool, true, false, ◌&&◌, not, Option, none, some, List, [], ◌∷◌,
  all, is_some, All, GoError, arith, Option-cases, ◌⊎◌, inl, inr, if◌then◌else◌, NamespacedName,
  namespaced_name_comparable,
}
use mac_os_vz_kubelet.Store.Assoc.{load_entry}
use mac_os_vz_kubelet.Resource.VirtualMachine.{MacOsVirtualMachine, VirtualMachineState}
use mac_os_vz_kubelet.Resource.VirtualMachine as Vm
use mac_os_vz_kubelet.Resource.Container.{Container}
use mac_os_vz_kubelet.Status.Types.{VirtualizationGroup, Pod, PodStatus}
use mac_os_vz_kubelet.Status.Pod.{build_pod_status}
use mac_os_vz_kubelet.Status.Phase.Ended.{group_ended, has_ended-get_pod_phase}
use mac_os_vz_kubelet.VzClient.Groups.{
  Groups, listed_containers, get_virtualization_group_list_result,
}
use mac_os_vz_kubelet.VzClient.Groups.Listing.{IsMap, get_virtualization_group_list_result_lem}
use mac_os_vz_kubelet.Provider.{
  ListedPod, get_pod_status, listed_to_pod, range_groups, get_pods, virtualization_group_to_pod,
}

module _ (hash : String → String) (node_ip : String) where
  -- A query of the status of a known pod answers with the status of its group, and deletes the group,
  -- with a grace period of ten seconds, exactly where the pod is not being deleted and its group has
  -- ended: its virtual machine has terminated or failed, or is up while the first container whose
  -- status decides the phase has failed.
  pub get_pod_status_lem :
      (vg : VirtualizationGroup) (p : ListedPod)
      → ((get_pod_status hash node_ip (inr vg) (inr p)).0
          ≡ inr (build_pod_status hash node_ip vg p.pod))
        × ((get_pod_status hash node_ip (inr vg) (inr p)).1 ≡ (
            if not (is_some p.deletion_timestamp)
              && group_ended (Vm.state vg.macos_virtual_machine) vg.containers
            then 10 ∷ []
            else []))
  unfolding get_pod_status build_pod_status
  get_pod_status_lem vg p = (
    refl,
    ap (λ b. if not (is_some p.deletion_timestamp) && b then 10 ∷ [] else [])
        (has_ended-get_pod_phase vg),
  )

  -- A key that the list has, with a pod that the lister knows.
  abbrev IsListed : (NamespacedName → GoError ⊎ Pod) → Groups → NamespacedName → Type 0
  IsListed lister groups k =
      (is_some (load_entry k groups) ≡ true) × ((pod : Pod) × (lister k ≡ inr pod))

  abbrev has_vm : Groups → NamespacedName → Bool
  has_vm groups k = elim (load_entry k groups) [ none ↦ false | some g ↦ is_some g.virtual_machine ]

  range_groups_lem :
      (lister : NamespacedName → GoError ⊎ Pod) (groups : Groups) (keys : List NamespacedName)
      → All (IsListed lister groups) keys
      → ((range_groups hash node_ip lister groups keys ≡ none) × (all (has_vm groups) keys ≡ false))
        ⊎ ((ps : List (Pod × PodStatus)) × (range_groups hash node_ip lister groups keys
              ≡ some (inr ps))
            × (all (has_vm groups) keys ≡ true))
  unfolding range_groups listed_to_pod virtualization_group_to_pod
  range_groups_lem lister groups [] h = inr ([], refl, refl)
  range_groups_lem lister groups (k ∷ ks) ((a, (pod, l)), h) =
      elim (Option-cases (load_entry k groups)) [
        | inl e ↦ absurd (ground (arith, a, e))
        | inr (g, e) ↦ elim (Option-cases g.virtual_machine) [
          | inl v ↦ inl (ground (arith, e, l, v), ground (arith, e, v))
          | inr (vm, v) ↦ elim (range_groups_lem lister groups ks h) [
            | inl (r, q) ↦ inl (ground (arith, e, l, v, r), ground (arith, e, v, q))
            | inr (ps, r, q) ↦ inr (
              (
                pod,
                build_pod_status hash node_ip
                    (record { containers = g.containers; macos_virtual_machine = vm }) pod,
              )
                  ∷ ps,
              ground (arith, e, l, v, r),
              ground (arith, e, v, q),
            )
          ]
        ]
      ]

  has_vm-joined :
      (vms : List (NamespacedName × MacOsVirtualMachine)) (vm_err : Option GoError)
      (cs : Option (List (NamespacedName × List Container) × Option GoError))
      (keys : List NamespacedName)
      → IsMap vms
      → IsMap (listed_containers cs)
      → all (has_vm (get_virtualization_group_list_result (vms, vm_err) cs).0) keys
        ≡ all (λ k. is_some (load_entry k vms)) keys
  has_vm-joined vms vm_err cs [] h i = refl
  has_vm-joined vms vm_err cs (k ∷ keys) h i =
      let e = get_virtualization_group_list_result_lem vms vm_err cs k h i in
      ground (arith, e, has_vm-joined vms vm_err cs keys h i)

  -- Without an error of the two clients, and with pods that the lister knows, the list of the pods
  -- panics exactly where one of its groups is known to the client of the containers only, as while a
  -- group is being deleted; otherwise it has pods.
  pub get_pods_lem :
      (lister : NamespacedName → GoError ⊎ Pod) (vms : List (NamespacedName × MacOsVirtualMachine))
      (cs : Option (List (NamespacedName × List Container) × Option GoError))
      (keys : List NamespacedName)
      → IsMap vms
      → IsMap (listed_containers cs)
      → (get_virtualization_group_list_result (vms, none) cs).1 ≡ none
      → All (IsListed lister (get_virtualization_group_list_result (vms, none) cs).0) keys
      → let listed = get_virtualization_group_list_result (vms, none) cs in
        let known = all (λ k. is_some (load_entry k vms)) keys in
        ((get_pods hash node_ip lister listed keys ≡ none) × (known ≡ false))
        ⊎ ((ps : List (Pod × PodStatus)) × (get_pods hash node_ip lister listed keys
              ≡ some (inr ps))
            × (known ≡ true))
  unfolding get_pods
  get_pods_lem lister vms cs keys h i e l =
      let listed = get_virtualization_group_list_result (vms, none) cs in
      let same = has_vm-joined vms none cs keys h i in
      elim (range_groups_lem lister listed.0 keys l) [
        | inl (r, q) ↦ inl (ground (arith, r, e), sym same ∙ q)
        | inr (ps, r, q) ↦ inr (ps, ground (arith, r, e), sym same ∙ q)
      ]
