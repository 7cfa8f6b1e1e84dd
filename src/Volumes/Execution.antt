-- ===== src/Volumes/Execution.antt =====
-- Where the file system obeys, the volumes of a container are made as planned.
use mac_os_vz_kubelet.Common.{
  ℕ, String, ◌==◌, text_comparable, ◌≡◌, refl, sym, ap, ◌∙◌, subst, Bool, true, false, Option, none,
  some, List, [], ◌∷◌, ◌++◌, map, or_else, All, GoError, Bool-cases, inl, inr, append-nil,
  append_assoc, concat,
}
use mac_os_vz_kubelet.Common.Runs.{done, Run, or_wrap, after-done}
use mac_os_vz_kubelet.Volumes.{
  Mount, VolumeMount, KeyToPath, DownwardFile, Projection, VolumeSource, Pod, Data, find,
  FileAction, mkdir_all, write_file, pod_vol_perms, make, write, write_items, write_downward,
  write_downward_files, write_token, write_from, write_downward_api, write_sources, prepare,
  mount_round, create_container_mounts,
}
use mac_os_vz_kubelet.Volumes.Plan.{
  HasField, HasMap, IsProvided, AreProvided, item_file, token_files, map_files, namespace_file,
  namespace_files, source_files, planned_path, planned_files, volume_files, add_mount-eq-mount_at,
  volume_mount, first_named, first_named-eq-find_pod_volume_spec, plan_files, plan_mounts,
}

module _ (join : String → String → String) (world : FileAction → Option GoError)
    (ok : (a : FileAction) → world a ≡ none) where
  make_ok : (kind path : String) → make join world kind path ≡ (mkdir_all path ∷ [], done tt)
  unfolding or_wrap
  make_ok kind path = rw (ok (mkdir_all path)) refl

  write_ok :
      (what path content : String) (mode : Option ℕ)
      → write join world what path content mode
        ≡ (write_file path content (or_else mode pod_vol_perms) ∷ [], done tt)
  unfolding or_wrap
  write_ok what path content mode =
      rw (ok (write_file path content (or_else mode pod_vol_perms))) refl

  items_ok :
      (dir : String) (values : Data) (items : List KeyToPath)
      → write_items join world dir values items ≡ (map (item_file join dir values) items, done tt)
  unfolding write_items
  items_ok dir values [] = refl
  items_ok dir values (i ∷ items) =
      after-done _ _ _ _ _ _
        (write_ok "config map" (join dir i.path) (or_else (find i.key values) "") i.mode)
        (items_ok dir values items)

  from_ok :
      (config_maps : List (String × Data)) (dir : String) (o : Option (String × List KeyToPath))
      → HasMap config_maps o
      → write_from join world config_maps dir o ≡ (map_files join config_maps dir o, done tt)
  from_ok config_maps dir none h = refl
  from_ok config_maps dir (some (name, items)) (values, h) = rw h (items_ok dir values items)

  downward_ok :
      (dir namespace : String) (f : DownwardFile) (field : String)
      → write_downward join world dir namespace f (some field)
        ≡ (namespace_file join dir namespace f (some field), done tt)
  downward_ok dir namespace f field = elim (Bool-cases (field == "metadata.namespace")) [
    | inl h ↦ rw h (write_ok "downward API" (join dir f.path) namespace f.mode)
    | inr h ↦ rw h refl
  ]

  files_ok :
      (dir namespace : String) (fs : List DownwardFile)
      → All HasField fs
      → write_downward_files join world dir namespace fs
        ≡ (namespace_files join dir namespace fs, done tt)
  unfolding write_downward_files
  files_ok dir namespace [] h = refl
  files_ok dir namespace (f ∷ fs) ((field, h), k) =
      after-done _ _ _ _ _ _
        (subst
          (λ o.
            write_downward join world dir namespace f o
            ≡ (namespace_file join dir namespace f o, done tt))
          (sym h) (downward_ok dir namespace f field))
        (files_ok dir namespace fs k)

  api_ok :
      (dir namespace : String) (o : Option (List DownwardFile))
      → All HasField (or_else o [])
      → write_downward_api join world dir namespace o
        ≡ (namespace_files join dir namespace (or_else o []), done tt)
  api_ok dir namespace none h = refl
  api_ok dir namespace (some fs) h = files_ok dir namespace fs h

  token_ok :
      (dir token : String) (o : Option String)
      → write_token join world dir token o ≡ (token_files join dir token o, done tt)
  token_ok dir token none = refl
  token_ok dir token (some path) = write_ok "service account token" (join dir path) token none

  sources_ok :
      (token : String) (config_maps : List (String × Data)) (namespace dir : String)
      (sources : List Projection)
      → All (IsProvided config_maps) sources
      → write_sources join world token config_maps namespace dir sources
        ≡ (concat (map (source_files join token config_maps namespace dir) sources), done tt)
  unfolding write_sources
  sources_ok token config_maps namespace dir [] h = refl
  sources_ok token config_maps namespace dir (s ∷ sources) ((h, k), l) =
      let rest = sources_ok token config_maps namespace dir sources l in
      let a = token_files join dir token s.service_account_token in
      let b = map_files join config_maps dir s.config_map in
      let c = namespace_files join dir namespace (or_else s.downward_api []) in
      let d = concat (map (source_files join token config_maps namespace dir) sources) in
      after-done _ _ _ _ _ _ (token_ok dir token s.service_account_token) (
        after-done _ _ _ _ _ _ (from_ok config_maps dir s.config_map h)
          (after-done _ _ _ _ _ _ (api_ok dir namespace s.downward_api k) rest))
      ∙ ap (λ (xs : List FileAction). (xs, done tt))
          (ap (λ xs. a ++ xs) (sym (append_assoc b c d)) ∙ sym (append_assoc a (b ++ c) d))

  prepare_ok :
      (root token : String) (config_maps : List (String × Data)) (namespace name : String)
      (host_path : Option String) (empty_dir : Bool) (projected : Option (List Projection))
      → All (IsProvided config_maps) (or_else projected [])
      → prepare join world root token config_maps namespace name host_path empty_dir projected ≡ (
        planned_files join root token config_maps namespace name host_path empty_dir projected,
        done (planned_path join root name host_path empty_dir projected),
      )
  prepare_ok root token config_maps namespace name (some path) empty_dir projected h =
      after-done _ _ _ _ _ _ (make_ok "hostPath" path) refl
  prepare_ok root token config_maps namespace name none true projected h =
      after-done _ _ _ _ _ _ (make_ok "emptyDir" (join root name)) refl
  prepare_ok root token config_maps namespace name none false none h = refl
  prepare_ok root token config_maps namespace name none false (some sources) h =
      let dir = join root name in
      let files = concat (map (source_files join token config_maps namespace dir) sources) in
      after-done _ _ _ _ _ _ (make_ok "projected" dir)
        (after-done _ _ _ _ _ _ (sources_ok token config_maps namespace dir sources h) refl)
      ∙ ap (λ (xs : List FileAction). (mkdir_all dir ∷ xs, done (some dir))) (append-nil files)

  round_ok :
      (root token : String) (config_maps : List (String × Data)) (namespace : String)
      (m : VolumeMount) (o : Option VolumeSource) (rest : Run FileAction (List Mount))
      (files : List FileAction) (mounts : List Mount)
      → AreProvided config_maps o
      → rest ≡ (files, done mounts)
      → mount_round join world root token config_maps namespace m o rest ≡ (
        volume_files join root token config_maps namespace m.name o ++ files,
        done (volume_mount join root m o ++ mounts),
      )
  round_ok root token config_maps namespace m none rest files mounts h k = k
  round_ok root token config_maps namespace m (some v) rest files mounts h k =
      after-done _ _ _ _ _ _
        (prepare_ok root token config_maps namespace m.name v.host_path v.empty_dir v.projected h)
        (after-done _ _ _ _ _ _ k (
          ap (λ (ms : List Mount). ([], done ms))
            (add_mount-eq-mount_at join m
              (planned_path join root m.name v.host_path v.empty_dir v.projected) mounts)))
      ∙ ap
          (λ (xs : List FileAction). (
            volume_files join root token config_maps namespace m.name (some v) ++ xs,
            done (volume_mount join root m (some v) ++ mounts),
          ))
          (append-nil files)

  -- Where every action succeeds, every config map that a volume of the mounts names is given and
  -- every file of the downward API has a field, the mounts are returned, and they and what is made
  -- are those of the plan: for each mount in order, if the first volume of its name in the pod is of a
  -- supported kind, the path of that volume on the host, at the mount's path and sub path in the
  -- container, read-only where the mount is, and the directories and files of that volume.
  pub create_container_mounts_lem :
      (root token : String) (config_maps : List (String × Data)) (pod : Pod) (ms : List VolumeMount)
      → All (λ m. AreProvided config_maps (first_named m.name pod.volumes)) ms
      → create_container_mounts join world root token config_maps pod ms
        ≡ (plan_files join root token config_maps pod ms, done (plan_mounts join root pod ms))
  unfolding create_container_mounts
  create_container_mounts_lem root token config_maps pod [] h = refl
  create_container_mounts_lem root token config_maps pod (m ∷ ms) (h, k) =
      rw (sym (first_named-eq-find_pod_volume_spec m.name pod.volumes)) (
        round_ok root token config_maps pod.namespace m (first_named m.name pod.volumes)
          (create_container_mounts join world root token config_maps pod ms)
          (plan_files join root token config_maps pod ms) (plan_mounts join root pod ms) h
          (create_container_mounts_lem root token config_maps pod ms k))
