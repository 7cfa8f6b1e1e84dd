-- ===== src/Volumes/Plan.antt =====
-- The plan of a container's volumes: the mounts, the directories and the files that follow from the
-- pod, the config maps and the token alone.
use mac_os_vz_kubelet.Common.{
  String, ◌==◌, text_comparable, ◌≡◌, Bool, true, false, Option, none, some, List, [], ◌∷◌, ◌++◌,
  map, keep, or_else, All, refl, Bool-cases, inl, inr, if◌then◌else◌, concat,
}
use mac_os_vz_kubelet.Volumes.{
  Mount, VolumeMount, KeyToPath, DownwardFile, Projection, VolumeSource, Pod, Data, find,
  FileAction, mkdir_all, write_file, pod_vol_perms, find_pod_volume_spec, Volume, add_mount,
}

-- What the API server checks of a pod, and the caller of the config maps: every config map that a
-- volume names is given, and every file of the downward API has a field.
abbrev pub HasField : DownwardFile → Type 0
HasField f = (field : String) × (f.field_ref ≡ some field)

abbrev pub HasMap : List (String × Data) → Option (String × List KeyToPath) → Type 0
HasMap config_maps none = Unit
HasMap config_maps (some (name, items)) = (values : Data) × (find name config_maps ≡ some values)

abbrev pub IsProvided : List (String × Data) → Projection → Type 0
IsProvided config_maps s =
    HasMap config_maps s.config_map × All HasField (or_else s.downward_api [])

abbrev pub AreProvided : List (String × Data) → Option VolumeSource → Type 0
AreProvided config_maps none = Unit
AreProvided config_maps (some v) = All (IsProvided config_maps) (or_else v.projected [])

-- The sources of all the volumes of a name, in order.
abbrev pub sources_of : String → List Volume → List VolumeSource
sources_of name volumes = map (λ v. v.source) (keep (λ v. v.name == name) volumes)

abbrev pub first : {A : Type 0} → List A → Option A
first [] = none
first (x ∷ xs) = some x

-- The first of them, which is the one that a mount refers to.
abbrev pub first_named : String → List Volume → Option VolumeSource
first_named name volumes = first (sources_of name volumes)

pub first_named-eq-find_pod_volume_spec :
    (name : String) (volumes : List Volume)
    → first_named name volumes ≡ find_pod_volume_spec volumes name
unfolding find_pod_volume_spec
first_named-eq-find_pod_volume_spec name [] = refl
first_named-eq-find_pod_volume_spec name (v ∷ vs) = elim (Bool-cases (v.name == name)) [
  | inl h ↦ rw h refl
  | inr h ↦ rw h (first_named-eq-find_pod_volume_spec name vs)
]

module _ (join : String → String → String) where
  abbrev pub item_file : String → Data → KeyToPath → FileAction
  item_file dir values i =
      write_file (join dir i.path) (or_else (find i.key values) "") (or_else i.mode pod_vol_perms)

  abbrev pub token_files : String → String → Option String → List FileAction
  token_files dir token none = []
  token_files dir token (some path) = write_file (join dir path) token pod_vol_perms ∷ []

  abbrev pub map_files :
      List (String × Data) → String → Option (String × List KeyToPath) → List FileAction
  map_files config_maps dir none = []
  map_files config_maps dir (some (name, items)) =
      map (item_file dir (or_else (find name config_maps) [])) items

  abbrev pub namespace_file : String → String → DownwardFile → Option String → List FileAction
  namespace_file dir namespace f none = []
  namespace_file dir namespace f (some field) =
      if field == "metadata.namespace"
      then write_file (join dir f.path) namespace (or_else f.mode pod_vol_perms) ∷ []
      else []

  abbrev pub namespace_files : String → String → List DownwardFile → List FileAction
  namespace_files dir namespace fs =
      concat (map (λ f. namespace_file dir namespace f f.field_ref) fs)

  abbrev pub source_files :
      String → List (String × Data) → String → String → Projection → List FileAction
  source_files token config_maps namespace dir s =
      token_files dir token s.service_account_token
      ++ (map_files config_maps dir s.config_map
          ++ namespace_files dir namespace (or_else s.downward_api []))

  -- The host path of a volume: its own, or a directory of the pod that is named after the volume.
  abbrev pub planned_path :
      String → String → Option String → Bool → Option (List Projection) → Option String
  planned_path root name (some path) empty_dir projected = some path
  planned_path root name none true projected = some (join root name)
  planned_path root name none false (some sources) = some (join root name)
  planned_path root name none false none = none

  abbrev pub planned_files :
      String
      → String
      → List (String × Data)
      → String
      → String
      → Option String
      → Bool
      → Option (List Projection)
      → List FileAction
  planned_files root token config_maps namespace name (some path) empty_dir projected =
      mkdir_all path ∷ []
  planned_files root token config_maps namespace name none true projected =
      mkdir_all (join root name) ∷ []
  planned_files root token config_maps namespace name none false (some sources) =
      mkdir_all (join root name)
      ∷ concat (map (source_files token config_maps namespace (join root name)) sources)
  planned_files root token config_maps namespace name none false none = []

  abbrev pub volume_files :
      String
      → String
      → List (String × Data)
      → String
      → String
      → Option VolumeSource
      → List FileAction
  volume_files root token config_maps namespace name none = []
  volume_files root token config_maps namespace name (some v) =
      planned_files root token config_maps namespace name v.host_path v.empty_dir v.projected

  -- The mount of a volume at a path of the host, at the sub path in the container.
  abbrev pub mount_at : VolumeMount → Option String → List Mount
  mount_at m none = []
  mount_at m (some path) =
      record {
        name = m.name;
        host_path = path;
        container_path = join m.mount_path m.sub_path;
        read_only = m.read_only;
      }
      ∷ []

  pub add_mount-eq-mount_at :
      (m : VolumeMount) (o : Option String) (mounts : List Mount)
      → add_mount join m o mounts ≡ mount_at m o ++ mounts
  add_mount-eq-mount_at m none mounts = refl
  add_mount-eq-mount_at m (some path) mounts = refl

  abbrev pub volume_mount : String → VolumeMount → Option VolumeSource → List Mount
  volume_mount root m none = []
  volume_mount root m (some v) =
      mount_at m (planned_path root m.name v.host_path v.empty_dir v.projected)

  abbrev pub plan_files :
      String → String → List (String × Data) → Pod → List VolumeMount → List FileAction
  plan_files root token config_maps pod [] = []
  plan_files root token config_maps pod (m ∷ ms) =
      volume_files root token config_maps pod.namespace m.name (first_named m.name pod.volumes)
      ++ plan_files root token config_maps pod ms

  abbrev pub plan_mounts : String → Pod → List VolumeMount → List Mount
  plan_mounts root pod [] = []
  plan_mounts root pod (m ∷ ms) =
      volume_mount root m (first_named m.name pod.volumes) ++ plan_mounts root pod ms
