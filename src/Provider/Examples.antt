-- ===== src/Provider/Examples.antt =====
-- The theorems on the provider at concrete pods and groups.
use mac_os_vz_kubelet.Common.{
  ℕ, String, ◌≡◌, ◌==◌, text_comparable, refl, true, false, ◌&&◌, not, Option, none, some, List, [],
  ◌∷◌, ◌++◌, all, is_some, GoError, text, ◌⊎◌, inr, if◌then◌else◌, NamespacedName,
  namespaced_name_comparable, arith,
}
use mac_os_vz_kubelet.Store.Assoc.{load_entry}
use mac_os_vz_kubelet.Resource.VirtualMachine.{
  MacOsVirtualMachine, new_macos_virtual_machine, set_error, VirtualMachineState,
}
use mac_os_vz_kubelet.Resource.VirtualMachine as Vm
use mac_os_vz_kubelet.Resource.Container.{Container}
use mac_os_vz_kubelet.Status.Types.{VirtualizationGroup, Pod, PodStatus}
use mac_os_vz_kubelet.Status.Pod.{build_pod_status}
use mac_os_vz_kubelet.Status.Phase.Ended.{group_ended}
use mac_os_vz_kubelet.VzClient.Groups.{get_virtualization_group_list_result}
use mac_os_vz_kubelet.Provider.{
  ListedPod, Hook, PodDeletion, DeletionAct, delete_group, delete_pod, hooks_of, handle_delete_pod,
  get_pod_status, get_pods,
}
use mac_os_vz_kubelet.Provider.Credentials.{Volumes}
use mac_os_vz_kubelet.Provider.Deletions.{HooksRun, Succeed, handle_delete_pod_lem}
use mac_os_vz_kubelet.Provider.Statuses.{get_pod_status_lem, get_pods_lem}

abbrev drain : Hook
drain = record { container = "macos"; command = "drain" ∷ [] }

abbrev flush : Hook
flush = record { container = "redis"; command = "flush" ∷ [] }

abbrev leaving : PodDeletion
leaving = record {
  is_running = true;
  grace_period = some 30;
  containers =
      ("macos", some ("drain" ∷ [])) ∷ ("proxy", none) ∷ ("redis", some ("flush" ∷ [])) ∷ [];
}

abbrev run : Hook → Option GoError
run h = if h.container == "macos" then none else some (text "exit status 1")

-- The hooks end in the other order, and the first to end fails.
handle_delete_pod_lem_example :
    (before : List DeletionAct) × (last : List DeletionAct) × (handle_delete_pod run leaving
        (flush ∷ drain ∷ [])
        none
      ≡ before ++ delete_group 30 ∷ last)
    × HooksRun run (drain ∷ flush ∷ []) before
    × ((Succeed run none (drain ∷ flush ∷ []) × (last ≡ delete_pod ∷ []))
        ⊎ ((Succeed run none (drain ∷ flush ∷ []) → ⊥) × (last ≡ [])))
unfolding hooks_of
handle_delete_pod_lem_example =
    handle_delete_pod_lem run leaving (flush ∷ drain ∷ []) none (λ p. ground arith)

abbrev broken : MacOsVirtualMachine
broken = set_error (text "no space left on device") (new_macos_virtual_machine [])

abbrev group : VirtualizationGroup
group = record { containers = []; macos_virtual_machine = broken }

abbrev spec : Pod
spec = record { creation_timestamp = 3; containers = record { name = "macos"; image = "i" } ∷ [] }

abbrev web : ListedPod
web = record { pod = spec; deletion_timestamp = none }

abbrev hash : String → String
hash s = s

get_pod_status_lem_example :
    ((get_pod_status hash "10.0.0.1" (inr group) (inr web)).0
      ≡ inr (build_pod_status hash "10.0.0.1" group spec))
    × ((get_pod_status hash "10.0.0.1" (inr group) (inr web)).1 ≡ (
        if not (is_some web.deletion_timestamp) && group_ended (Vm.state broken) []
        then 10 ∷ []
        else []))
get_pod_status_lem_example = get_pod_status_lem hash "10.0.0.1" group web

abbrev key : String → NamespacedName
key name = record { namespace = "default"; name = name }

abbrev vms : List (NamespacedName × MacOsVirtualMachine)
vms = (key "a", broken) ∷ []

-- The virtual machine of the second pod is gone, its containers are not.
abbrev sidecars : Option (List (NamespacedName × List Container) × Option GoError)
sidecars = some ((key "b", []) ∷ [], none)

abbrev keys : List NamespacedName
keys = key "a" ∷ key "b" ∷ []

abbrev lister : NamespacedName → GoError ⊎ Pod
lister k = inr spec

get_pods_lem_example :
    let listed = get_virtualization_group_list_result (vms, none) sidecars in
    let known = all (λ k. is_some (load_entry k vms)) keys in
    ((get_pods hash "10.0.0.1" lister listed keys ≡ none) × (known ≡ false))
    ⊎ ((ps : List (Pod × PodStatus)) × (get_pods hash "10.0.0.1" lister listed keys ≡ some (inr ps))
        × (known ≡ true))
unfolding get_virtualization_group_list_result
get_pods_lem_example =
    get_pods_lem hash "10.0.0.1" lister vms sidecars keys (refl, tt) (refl, tt) refl
      ((refl, (spec, refl)), ((refl, (spec, refl)), tt))

abbrev volumes : Volumes
volumes =
    none
    ∷ some (
        record {
          service_account_token = some (record { audience = ""; expiration_seconds = some 3607 });
          config_map = none;
        }
        ∷ record { service_account_token = none; config_map = some "kube-root-ca.crt" }
        ∷ [])
    ∷ []

abbrev config_maps : String → GoError ⊎ String
config_maps name = inr "ca"

abbrev token : List String → Option ℕ → GoError ⊎ String
token audiences expiration = inr "jwt"

abbrev maps : List (String × String)
maps = ("kube-root-ca.crt", "ca") ∷ []
