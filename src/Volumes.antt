-- ===== src/Volumes.antt =====
-- internal/volumes/mounts.go: the mounts of a container, and the directories and files made for them.
-- The file system's answers are a parameter, and so is filepath.Join.
use mac_os_vz_kubelet.Common.{
  ℕ, String, ◌<>◌, ◌==◌, text_comparable, Bool, true, false, Option, none, some, List, [], ◌∷◌,
  or_else, if◌then◌else◌, GoError, text, wrap,
}
use mac_os_vz_kubelet.Common.Runs.{
  Outcome, done, failed, panicked, Run, return, ◌>>=◌, ◌>>◌, after, fail, panic, perform, or_wrap,
}
pub mod Laws
pub mod Plan
pub mod Execution
mod Examples

pub record Mount : Type 0 where
  pub name : String
  pub host_path : String
  pub container_path : String
  pub read_only : Bool

-- corev1.VolumeMount
pub record VolumeMount : Type 0 where
  pub name : String
  pub mount_path : String
  pub sub_path : String
  pub read_only : Bool

-- corev1.KeyToPath and corev1.DownwardAPIVolumeFile, whose FieldRef may be nil.
pub record KeyToPath : Type 0 where
  pub key : String
  pub path : String
  pub mode : Option ℕ

pub record DownwardFile : Type 0 where
  pub path : String
  pub field_ref : Option String
  pub mode : Option ℕ

-- corev1.VolumeProjection: the path of a token, the name and items of a config map, and the files of
-- the downward API, each where it is not nil.
pub record Projection : Type 0 where
  pub service_account_token : Option String
  pub config_map : Option (String × List KeyToPath)
  pub downward_api : Option (List DownwardFile)

-- corev1.VolumeSource, as far as it is read.
pub record VolumeSource : Type 0 where
  pub host_path : Option String
  pub empty_dir : Bool
  pub projected : Option (List Projection)

pub record Volume : Type 0 where
  pub name : String
  pub source : VolumeSource

pub record Pod : Type 0 where
  pub namespace : String
  pub volumes : List Volume

-- The data of a config map.
abbrev pub Data : Type 0
Data = List (String × String)

abbrev pub find : {A : Type 0} → String → List (String × A) → Option A
find k [] = none
find k ((l, a) ∷ rest) = if l == k then some a else find k rest

pub data FileAction : Type 0 where
  mkdir_all : String → FileAction
  write_file : String → String → ℕ → FileAction

-- PodVolPerms, 0755.
abbrev pub pod_vol_perms : ℕ
pod_vol_perms = 493

unfoldable pub find_pod_volume_spec : List Volume → String → Option VolumeSource
find_pod_volume_spec [] name = none
find_pod_volume_spec (v ∷ vs) name =
    if v.name == name then some v.source else find_pod_volume_spec vs name

module _ (join : String → String → String) where
  abbrev pub new_mount : VolumeMount → String → Mount
  new_mount m host_path = record {
    name = m.name;
    host_path = host_path;
    container_path = join m.mount_path m.sub_path;
    read_only = m.read_only;
  }

  abbrev pub add_mount : VolumeMount → Option String → List Mount → List Mount
  add_mount m none mounts = mounts
  add_mount m (some host_path) mounts = new_mount m host_path ∷ mounts

module _ (join : String → String → String) (world : FileAction → Option GoError) where
  abbrev pub make : String → String → Run FileAction Unit
  make kind path =
      or_wrap ("error making " <> kind <> " for path " <> path) (perform world (mkdir_all path))

  abbrev pub write : String → String → String → Option ℕ → Run FileAction Unit
  write what path content mode =
      or_wrap ("error writing " <> what)
        (perform world (write_file path content (or_else mode pod_vol_perms)))

  unfoldable pub write_items : String → Data → List KeyToPath → Run FileAction Unit
  write_items dir values [] = return tt
  write_items dir values (i ∷ items) = do
    write "config map" (join dir i.path) (or_else (find i.key values) "") i.mode
    write_items dir values items

  abbrev pub write_downward : String → String → DownwardFile → Option String → Run FileAction Unit
  write_downward dir namespace f none = panic
  write_downward dir namespace f (some field) =
      if field == "metadata.namespace"
      then write "downward API" (join dir f.path) namespace f.mode
      else return tt

  unfoldable pub write_downward_files : String → String → List DownwardFile → Run FileAction Unit
  write_downward_files dir namespace [] = return tt
  write_downward_files dir namespace (f ∷ files) = do
    write_downward dir namespace f f.field_ref
    write_downward_files dir namespace files

  abbrev pub write_config_map : String → String → List KeyToPath → Option Data → Run FileAction Unit
  write_config_map dir name items none = fail (text ("config map " <> name <> " not found"))
  write_config_map dir name items (some values) = write_items dir values items

  abbrev pub write_token : String → String → Option String → Run FileAction Unit
  write_token dir token none = return tt
  write_token dir token (some path) = write "service account token" (join dir path) token none

  abbrev pub write_from :
      List (String × Data) → String → Option (String × List KeyToPath) → Run FileAction Unit
  write_from config_maps dir none = return tt
  write_from config_maps dir (some (name, items)) =
      write_config_map dir name items (find name config_maps)

  abbrev pub write_downward_api : String → String → Option (List DownwardFile) → Run FileAction Unit
  write_downward_api dir namespace none = return tt
  write_downward_api dir namespace (some files) = write_downward_files dir namespace files

  -- The sources of a projected volume.
  unfoldable pub write_sources :
      String → List (String × Data) → String → String → List Projection → Run FileAction Unit
  write_sources token config_maps namespace dir [] = return tt
  write_sources token config_maps namespace dir (s ∷ sources) = do
    write_token dir token s.service_account_token
    write_from config_maps dir s.config_map
    write_downward_api dir namespace s.downward_api
    write_sources token config_maps namespace dir sources

  -- The host path of a mount, made ready, or `none` for a kind of volume that is passed over; for the
  -- fields HostPath, EmptyDir and Projected of its volume.
  abbrev pub prepare :
      String
      → String
      → List (String × Data)
      → String
      → String
      → Option String
      → Bool
      → Option (List Projection)
      → Run FileAction (Option String)
  prepare root token config_maps namespace name (some path) empty_dir projected = do
    make "hostPath" path
    return (some path)
  prepare root token config_maps namespace name none true projected = do
    make "emptyDir" (join root name)
    return (some (join root name))
  prepare root token config_maps namespace name none false (some sources) = do
    make "projected" (join root name)
    write_sources token config_maps namespace (join root name) sources
    return (some (join root name))
  prepare root token config_maps namespace name none false none = return none

  -- One round of the loop, before the rounds that are left; the volume of the mount may be missing.
  abbrev pub mount_round :
      String
      → String
      → List (String × Data)
      → String
      → VolumeMount
      → Option VolumeSource
      → Run FileAction (List Mount)
      → Run FileAction (List Mount)
  mount_round root token config_maps namespace m none rest = rest
  mount_round root token config_maps namespace m (some source) rest = do
    host_path ←
        prepare root token config_maps namespace m.name source.host_path source.empty_dir
          source.projected
    mounts ← rest
    return (add_mount join m host_path mounts)

  unfoldable pub create_container_mounts :
      String → String → List (String × Data) → Pod → List VolumeMount → Run FileAction (List Mount)
  create_container_mounts root token config_maps pod [] = return []
  create_container_mounts root token config_maps pod (m ∷ ms) =
      mount_round root token config_maps pod.namespace m (find_pod_volume_spec pod.volumes m.name)
        (create_container_mounts root token config_maps pod ms)
