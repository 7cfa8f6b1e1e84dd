-- ===== src/Docker/Configs.antt =====
-- What pkg/resourcemanager/docker.go asks of Docker: the configurations of containers and of exec,
-- and the clean-up at the start.
use mac_os_vz_kubelet.Common.{
  ℕ, String, ◌<>◌, ◌==◌, Bool, true, false, Option, none, some, List, [], ◌∷◌, ◌++◌, map, concat,
  if◌then◌else◌, GoError, ◌⊎◌, inl, inr, NamespacedName, namespaced_name_comparable, text,
}
use mac_os_vz_kubelet.Resource.VirtualMachine.{EnvVar}
use mac_os_vz_kubelet.Volumes.{Mount}
use mac_os_vz_kubelet.Docker.Names.{container_name_prefix, extract_namespaced_name}

-- The fields of ContainerParams that are only handed on to Docker.
pub record HandedParams : Type 0 where
  pub pod_name : String
  pub image : String
  pub env : List EnvVar
  pub mounts : List Mount
  pub command : List String
  pub args : List String
  pub working_dir : String
  pub tty : Bool
  pub stdin : Bool
  pub stdin_once : Bool

-- dockercontainer.Config; the volumes are the keys of the map, in the order of the mounts.
pub record Config : Type 0 where
  pub hostname : String
  pub env : List String
  pub entrypoint : List String
  pub cmd : List String
  pub image : String
  pub volumes : List String
  pub working_dir : String
  pub tty : Bool
  pub open_stdin : Bool
  pub stdin_once : Bool

unfoldable pub create_docker_container_config : HandedParams → Config
create_docker_container_config p = record {
  hostname = p.pod_name;
  env = map (λ (e : EnvVar). e.name <> "=" <> e.value) p.env;
  entrypoint = p.command;
  cmd = p.args;
  image = p.image;
  volumes = map (λ (m : Mount). m.container_path) p.mounts;
  working_dir = p.working_dir;
  tty = p.tty;
  open_stdin = p.stdin;
  stdin_once = p.stdin_once;
}

abbrev pub access : Bool → String
access read_only = if read_only then "ro" else "rw"

-- The binds of dockercontainer.HostConfig.
unfoldable pub create_docker_host_config_from_mounts : List Mount → List String
create_docker_host_config_from_mounts mounts =
    map (λ (m : Mount). m.host_path <> ":" <> m.container_path <> ":" <> access m.read_only) mounts

-- api.AttachIO, as far as it is read: which streams there are, and whether there is a terminal.
pub record AttachIo : Type 0 where
  pub has_stdin : Bool
  pub has_stdout : Bool
  pub has_stderr : Bool
  pub tty : Bool

pub record ExecConfig : Type 0 where
  pub cmd : List String
  pub console_size : Option (ℕ × ℕ)
  pub attach_stdin : Bool
  pub attach_stdout : Bool
  pub attach_stderr : Bool
  pub tty : Bool

unfoldable pub exec_config_from_attach_io :
    List String → Option (ℕ × ℕ) → Option AttachIo → ExecConfig
exec_config_from_attach_io cmd size none = record {
  cmd = cmd;
  console_size = size;
  attach_stdin = false;
  attach_stdout = false;
  attach_stderr = false;
  tty = false;
}
exec_config_from_attach_io cmd size (some io) = record {
  cmd = cmd;
  console_size = size;
  attach_stdin = io.has_stdin;
  attach_stdout = io.has_stdout;
  attach_stderr = io.has_stderr;
  tty = io.tty;
}

-- A container in Docker's list.
pub record Listed : Type 0 where
  pub id : String
  pub names : List String

-- The append to an entry of the map.
abbrev pub append_id :
    NamespacedName
    → String
    → List (NamespacedName × List String)
    → List (NamespacedName × List String)
append_id key id [] = (key, id ∷ []) ∷ []
append_id key id ((k, ids) ∷ rest) =
    if k == key then (k, ids ++ id ∷ []) ∷ rest else (k, ids) ∷ append_id key id rest

abbrev pub add_name :
    String
    → GoError ⊎ NamespacedName
    → List (NamespacedName × List String)
    → List (NamespacedName × List String)
add_name id (inl e) found = found
add_name id (inr key) found = append_id key id found

abbrev pub add_names :
    String → List String → List (NamespacedName × List String) → List (NamespacedName × List String)
add_names id [] found = found
add_names id (n ∷ names) found = add_names id names (add_name id (extract_namespaced_name n) found)

unfoldable pub active_containers :
    List Listed → List (NamespacedName × List String) → List (NamespacedName × List String)
active_containers [] found = found
active_containers (c ∷ cs) found = active_containers cs (add_names c.id c.names found)

-- The options of ContainerList that are set: stopped containers too, and the filter on names.
pub record ListOptions : Type 0 where
  pub all : Bool
  pub name : String

abbrev pub list_options : ListOptions
list_options = record { all = true; name = container_name_prefix <> "_*" }

abbrev pub found_in : GoError ⊎ List Listed → GoError ⊎ List (NamespacedName × List String)
found_in (inl e) = inl e
found_in (inr listed) = inr (active_containers listed [])

-- `list` is ContainerList, which applies the filter.
unfoldable pub get_active_containers :
    (ListOptions → GoError ⊎ List Listed) → GoError ⊎ List (NamespacedName × List String)
unfolding active_containers
get_active_containers list = found_in (list list_options)

-- The error, and the containers whose forced removal is asked for, by pod as they were first found;
-- their errors are dropped. The
-- client of Docker may be nil.
abbrev pub removals : GoError ⊎ List (NamespacedName × List String) → Option GoError × List String
removals (inl e) = (some e, [])
removals (inr found) = (none, concat (map (λ (f : NamespacedName × List String). f.1) found))

unfoldable pub new_docker_client :
    Bool → (ListOptions → GoError ⊎ List Listed) → Option GoError × List String
unfolding get_active_containers
new_docker_client false list = (some (text "must provide a containers client"), [])
new_docker_client true list = removals (get_active_containers list)
