-- ===== src/VzClient/Routing.antt =====
-- GetContainerLogs, ExecuteContainerCommand and AttachToContainer of pkg/client/vz.go: which of the two
-- clients a call goes to. What the clients give back is an argument; `none` is the client of the
-- containers that is nil.
use mac_os_vz_kubelet.Common.{
  String, ◌≡◌, ◌≢◌, refl, ap, Bool, true, false, Option, none, some, List, [], NamespacedName,
  namespaced_name_comparable, text_comparable, GoError, text, invalid_input, ◌⊎◌, inl, is_some,
  if◌then◌else◌, arith, same_refl,
}
use mac_os_vz_kubelet.Store.{SyncMap}
use mac_os_vz_kubelet.Docker.ContainerData.{
  ContainerInfo, InnerMap, load_container, store_container, load_and_delete_containers,
  load_container-store_container,
}
use mac_os_vz_kubelet.Docker.Queries.{is_container_present}
use mac_os_vz_kubelet.Docker.Removal.{remove_containers, remove_containers_lem}

module _ (i : InnerMap) (m : SyncMap NamespacedName i.Map) where
  -- The test of the three methods.
  unfoldable pub is_docker_container : Option m.Map → NamespacedName → String → Bool
  is_docker_container none key name = false
  is_docker_container (some d) key name = is_container_present i m key name d

  module _ {R : Type 0} where
    unfoldable pub get_container_logs :
        (NamespacedName → String → GoError ⊎ R)
        → Option m.Map
        → NamespacedName
        → String
        → GoError ⊎ R
    unfolding is_docker_container
    get_container_logs docker_logs client key name =
        if is_docker_container client key name
        then docker_logs key name
        else inl
            (invalid_input (text "container logs are not supported for macOS virtual machines"))

    unfoldable pub execute_container_command :
        (NamespacedName → String → List String → R)
        → (NamespacedName → List String → R)
        → Option m.Map
        → NamespacedName
        → String
        → List String
        → R
    unfolding is_docker_container
    execute_container_command exec_in_container exec_in_vm client key name cmd =
        if is_docker_container client key name
        then exec_in_container key name cmd
        else exec_in_vm key cmd

    unfoldable pub attach_to_container :
        (NamespacedName → String → R)
        → (NamespacedName → List String → R)
        → Option m.Map
        → NamespacedName
        → String
        → R
    unfolding is_docker_container
    attach_to_container attach_docker exec_in_vm client key name =
        if is_docker_container client key name then attach_docker key name else exec_in_vm key []

  present_stored :
      (key : NamespacedName) (name : String) (info : ContainerInfo) (d : m.Map)
      → is_docker_container (some (store_container i m key name info d)) key name ≡ true
  unfolding is_docker_container is_container_present
  present_stored key name info d = ground (
    arith,
    load_container-store_container i m key key name name info d,
    same_refl key,
    same_refl name,
  )

  module _ (remove : String → Option GoError) where
    abbrev pub removed : NamespacedName → m.Map → Option m.Map
    removed key d = some (remove_containers remove i m key d).1

    absent_removed :
        (key : NamespacedName) (name : String) (d : m.Map)
        → is_docker_container (removed key d) key name ≡ false
    unfolding is_docker_container is_container_present remove_containers load_container
        load_and_delete_containers
    absent_removed key name d =
        ground (arith, m.load_and_delete_lem key d, m.load-delete key key d, same_refl key)

    kept_removed :
        (key j : NamespacedName) (name : String) (d : m.Map)
        → j ≢ key
        → is_docker_container (removed key d) j name ≡ is_docker_container (some d) j name
    unfolding is_docker_container is_container_present
    kept_removed key j name d n = ap is_some ((remove_containers_lem remove i m key d).3 j name n)

    module _ {R : Type 0} (docker_logs : NamespacedName → String → GoError ⊎ R)
        (exec_in_container : NamespacedName → String → List String → R)
        (attach_docker : NamespacedName → String → R)
        (exec_in_vm : NamespacedName → List String → R) where
      -- The calls for a container go to Docker, and they do not.
      abbrev pub ToDocker : Option m.Map → NamespacedName → String → List String → Type 0
      ToDocker client key name cmd =
          (execute_container_command exec_in_container exec_in_vm client key name cmd
            ≡ exec_in_container key name cmd)
          × (attach_to_container attach_docker exec_in_vm client key name ≡ attach_docker key name)
          × (get_container_logs docker_logs client key name ≡ docker_logs key name)

      abbrev pub ToVm : Option m.Map → NamespacedName → String → List String → Type 0
      ToVm client key name cmd =
          (execute_container_command exec_in_container exec_in_vm client key name cmd
            ≡ exec_in_vm key cmd)
          × (attach_to_container attach_docker exec_in_vm client key name ≡ exec_in_vm key [])
          × ((e : GoError) × (get_container_logs docker_logs client key name
                ≡ inl (invalid_input e)))

      absent-ToVm :
          (client : Option m.Map) (key : NamespacedName) (name : String) (cmd : List String)
          → is_docker_container client key name ≡ false
          → ToVm client key name cmd
      unfolding execute_container_command attach_to_container get_container_logs
      absent-ToVm client key name cmd h = rw h (refl, refl, (_, refl))

      -- Commands, attachments and logs of a container go to Docker from the moment that it is stored in
      -- the table of the containers. Where there is no client of the containers, and once the
      -- containers of its pod have been removed, its logs are refused, while a command with its name is
      -- carried out in the virtual machine of the pod, whatever the name, and an attachment as an empty
      -- command. The calls for a container of another pod go where they went before the removal.
      pub routing_lem :
          (key j : NamespacedName) (name : String) (cmd : List String) (info : ContainerInfo)
          (d : m.Map)
          → j ≢ key
          → ToDocker (some (store_container i m key name info d)) key name cmd
            × ToVm none key name cmd
            × ToVm (removed key d) key name cmd
            × (execute_container_command exec_in_container exec_in_vm (removed key d) j name cmd
                ≡ execute_container_command exec_in_container exec_in_vm (some d) j name cmd)
            × (attach_to_container attach_docker exec_in_vm (removed key d) j name
                ≡ attach_to_container attach_docker exec_in_vm (some d) j name)
            × (get_container_logs docker_logs (removed key d) j name
                ≡ get_container_logs docker_logs (some d) j name)
      unfolding execute_container_command attach_to_container get_container_logs
      routing_lem key j name cmd info d other = (
        rw (present_stored key name info d) (refl, refl, refl),
        absent-ToVm none key name cmd (unfold is_docker_container in refl),
        absent-ToVm (removed key d) key name cmd (absent_removed key name d),
        rw (kept_removed key j name d other) refl,
        rw (kept_removed key j name d other) refl,
        rw (kept_removed key j name d other) refl,
      )
