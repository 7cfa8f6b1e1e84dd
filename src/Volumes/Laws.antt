-- ===== src/Volumes/Laws.antt =====
-- What is made for the mounts of a container: the plan of a pod, and what stops its execution.
use mac_os_vz_kubelet.Common.{
  ℕ, String, ◌==◌, text_comparable, refl, Bool, true, false, Option, none, some, List, [], ◌∷◌,
  or_else, GoError, Option-cases, Bool-cases, inl, inr,
}
use mac_os_vz_kubelet.Common.Runs.{Run, return, ◌>>=◌, ◌>>◌}
use mac_os_vz_kubelet.Common.Runs.Stops.{Stops, bind-Stops, act-Stops}
use mac_os_vz_kubelet.Volumes.{
  Mount, VolumeMount, KeyToPath, DownwardFile, Projection, VolumeSource, Pod, Data, find,
  FileAction, mkdir_all, mount_round, find_pod_volume_spec, make, write, write_items,
  write_downward, write_downward_files, write_token, write_from, write_downward_api, write_sources,
  prepare, add_mount, create_container_mounts,
}

module _ (join : String → String → String) (world : FileAction → Option GoError) where
  make-Stops : (kind path : String) → Stops world (make join world kind path)
  make-Stops kind path = act-Stops world _ (mkdir_all path)

  write-Stops :
      (what path content : String) (mode : Option ℕ)
      → Stops world (write join world what path content mode)
  write-Stops what path content mode = act-Stops world _ _

  write_items-Stops :
      (dir : String) (values : Data) (items : List KeyToPath)
      → Stops world (write_items join world dir values items)
  unfolding write_items
  write_items-Stops dir values [] = tt
  write_items-Stops dir values (i ∷ items) =
      let w =
        write join world "config map" (join dir i.path) (or_else (find i.key values) "") i.mode in
      bind-Stops world w (λ _. write_items join world dir values items)
        (write-Stops "config map" (join dir i.path) (or_else (find i.key values) "") i.mode)
        (λ _. write_items-Stops dir values items)

  write_downward-Stops :
      (dir namespace : String) (f : DownwardFile) (o : Option String)
      → Stops world (write_downward join world dir namespace f o)
  write_downward-Stops dir namespace f none = ([], [], refl, tt, tt)
  write_downward-Stops dir namespace f (some field) =
      elim (Bool-cases (field == "metadata.namespace")) [
        | inl h ↦ rw h (write-Stops "downward API" (join dir f.path) namespace f.mode)
        | inr h ↦ rw h tt
      ]

  write_downward_files-Stops :
      (dir namespace : String) (files : List DownwardFile)
      → Stops world (write_downward_files join world dir namespace files)
  unfolding write_downward_files
  write_downward_files-Stops dir namespace [] = tt
  write_downward_files-Stops dir namespace (f ∷ files) =
      bind-Stops world (write_downward join world dir namespace f f.field_ref)
        (λ _. write_downward_files join world dir namespace files)
        (write_downward-Stops dir namespace f f.field_ref)
        (λ _. write_downward_files-Stops dir namespace files)

  write_from-Stops :
      (config_maps : List (String × Data)) (dir : String) (o : Option (String × List KeyToPath))
      → Stops world (write_from join world config_maps dir o)
  write_from-Stops config_maps dir none = tt
  write_from-Stops config_maps dir (some (name, items)) =
      elim (Option-cases (find name config_maps)) [
        | inl h ↦ rw h ([], [], refl, tt, tt)
        | inr (values, h) ↦ rw h (write_items-Stops dir values items)
      ]

  write_token-Stops :
      (dir token : String) (o : Option String) → Stops world (write_token join world dir token o)
  write_token-Stops dir token none = tt
  write_token-Stops dir token (some path) =
      write-Stops "service account token" (join dir path) token none

  write_downward_api-Stops :
      (dir namespace : String) (o : Option (List DownwardFile))
      → Stops world (write_downward_api join world dir namespace o)
  write_downward_api-Stops dir namespace none = tt
  write_downward_api-Stops dir namespace (some files) =
      write_downward_files-Stops dir namespace files

  write_sources-Stops :
      (token : String) (config_maps : List (String × Data)) (namespace dir : String)
      (sources : List Projection)
      → Stops world (write_sources join world token config_maps namespace dir sources)
  unfolding write_sources
  write_sources-Stops token config_maps namespace dir [] = tt
  write_sources-Stops token config_maps namespace dir (s ∷ sources) =
      let rest = write_sources join world token config_maps namespace dir sources in
      let api = write_downward_api join world dir namespace s.downward_api in
      let maps = write_from join world config_maps dir s.config_map in
      bind-Stops world (write_token join world dir token s.service_account_token)
        (λ _. maps >> (api >> rest)) (write_token-Stops dir token s.service_account_token)
        (λ _.
          bind-Stops world maps (λ _. api >> rest) (write_from-Stops config_maps dir s.config_map)
            (λ _.
              bind-Stops world api (λ _. rest)
                (write_downward_api-Stops dir namespace s.downward_api)
                (λ _. write_sources-Stops token config_maps namespace dir sources)))

  made-Stops : (kind path : String) → Stops world (do make join world kind path; return (some path))
  made-Stops kind path =
      bind-Stops world (make join world kind path) (λ _. return (some path)) (make-Stops kind path)
        (λ _. tt)

  prepare-Stops :
      (root token : String) (config_maps : List (String × Data)) (namespace name : String)
      (host_path : Option String) (empty_dir : Bool) (projected : Option (List Projection))
      → Stops world
          (prepare join world root token config_maps namespace name host_path empty_dir projected)
  prepare-Stops root token config_maps namespace name (some path) empty_dir projected =
      made-Stops "hostPath" path
  prepare-Stops root token config_maps namespace name none true projected =
      made-Stops "emptyDir" (join root name)
  prepare-Stops root token config_maps namespace name none false (some sources) =
      let dir = join root name in
      let files = write_sources join world token config_maps namespace dir sources in
      bind-Stops world (make join world "projected" dir) (λ _. files >> return (some dir))
        (make-Stops "projected" dir)
        (λ _.
          bind-Stops world files (λ _. return (some dir))
            (write_sources-Stops token config_maps namespace dir sources) (λ _. tt))
  prepare-Stops root token config_maps namespace name none false none = tt

  mount_round-Stops :
      (root token : String) (config_maps : List (String × Data)) (namespace : String)
      (m : VolumeMount) (o : Option VolumeSource) (rest : Run FileAction (List Mount))
      → Stops world rest
      → Stops world (mount_round join world root token config_maps namespace m o rest)
  mount_round-Stops root token config_maps namespace m none rest h = h
  mount_round-Stops root token config_maps namespace m (some source) rest h =
      bind-Stops world
        (prepare join world root token config_maps namespace m.name source.host_path
          source.empty_dir source.projected)
        (λ p. rest >>= λ mounts. return (add_mount join m p mounts))
        (prepare-Stops root token config_maps namespace m.name source.host_path source.empty_dir
          source.projected)
        (λ p. bind-Stops world rest (λ mounts. return (add_mount join m p mounts)) h (λ _. tt))

  -- The directories and the files of a container's volumes are made in order up to the first failure:
  -- every action before the last has succeeded, and where mounts are returned every action has.
  create_container_mounts-Stops :
      (root token : String) (config_maps : List (String × Data)) (pod : Pod) (ms : List VolumeMount)
      → Stops world (create_container_mounts join world root token config_maps pod ms)
  unfolding create_container_mounts
  create_container_mounts-Stops root token config_maps pod [] = tt
  create_container_mounts-Stops root token config_maps pod (m ∷ ms) =
      mount_round-Stops root token config_maps pod.namespace m
        (find_pod_volume_spec pod.volumes m.name)
        (create_container_mounts join world root token config_maps pod ms)
        (create_container_mounts-Stops root token config_maps pod ms)
