-- ===== src/VzClient/Examples.antt =====
-- The theorem on the routing of commands at a concrete table of containers.
use mac_os_vz_kubelet.Common.{
  String, ◌<>◌, ◌≡◌, none, some, List, [], ◌∷◌, GoError, ◌⊎◌, inr, NamespacedName,
  namespaced_name_comparable, text_comparable, arith, key_eq_iff,
}
use mac_os_vz_kubelet.Store.{SyncMap}
use mac_os_vz_kubelet.Store.Assoc.{assoc_map}
use mac_os_vz_kubelet.Docker.ContainerData.{ContainerInfo, InnerMap, store_container}
use mac_os_vz_kubelet.VzClient.Routing.{
  execute_container_command, attach_to_container, get_container_logs, removed, routing_lem,
  ToDocker, ToVm,
}

abbrev inner : InnerMap
inner = assoc_map

abbrev table : SyncMap NamespacedName inner.Map
table = assoc_map

abbrev key : String → NamespacedName
key name = record { namespace = "default"; name = name }

abbrev info : ContainerInfo
info = record { id = "c1"; err = none }

-- Of each call it is said where it went.
abbrev in_docker : NamespacedName → String → List String → String
in_docker k name cmd = "docker " <> name

abbrev attached : NamespacedName → String → String
attached k name = "attached to " <> name

abbrev logs_of : NamespacedName → String → GoError ⊎ String
logs_of k name = inr ("logs of " <> name)

abbrev in_vm : NamespacedName → List String → String
in_vm k cmd = "virtual machine of " <> k.name

abbrev pods : table.Map
pods = (key "b", ("proxy", info) ∷ []) ∷ []

routing_lem_example :
    let exec = execute_container_command inner table in_docker in_vm in
    let attach = attach_to_container inner table attached in_vm in
    let logs = get_container_logs inner table logs_of in
    let left = removed inner table (λ id. none) (key "a") pods in
    ToDocker inner table
      (λ id. none)
      logs_of
      in_docker
      attached
      in_vm
      (some (store_container inner table (key "a") "redis" info pods))
      (key "a")
      "redis"
      ("ls" ∷ [])
    × ToVm inner table
        (λ id. none)
        logs_of
        in_docker
        attached
        in_vm
        none
        (key "a")
        "redis"
        ("ls" ∷ [])
    × ToVm inner table
        (λ id. none)
        logs_of
        in_docker
        attached
        in_vm
        left
        (key "a")
        "redis"
        ("ls" ∷ [])
    × (exec left (key "b") "redis" ("ls" ∷ []) ≡ exec (some pods) (key "b") "redis" ("ls" ∷ []))
    × (attach left (key "b") "redis" ≡ attach (some pods) (key "b") "redis")
    × (logs left (key "b") "redis" ≡ logs (some pods) (key "b") "redis")
routing_lem_example =
    routing_lem inner table (λ id. none) logs_of in_docker attached in_vm (key "a") (key "b")
      "redis" ("ls" ∷ []) info pods (ground (arith, key_eq_iff (key "b") (key "a")))
