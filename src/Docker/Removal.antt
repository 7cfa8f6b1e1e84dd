-- ===== src/Docker/Removal.antt =====
-- RemoveContainers of pkg/resourcemanager/docker.go. The containers are visited in the order of the
-- table's entries; the errors of the Docker client are those that errors.Join is handed.
use mac_os_vz_kubelet.Common.{
  String, ◌≡◌, ◌≢◌, ◌↔◌, not, Option, none, some, List, [], ◌∷◌, map, NamespacedName,
  namespaced_name_comparable, text_comparable, GoError, not_found, if◌then◌else◌, ◌⊎◌, inl, inr,
  arith, same_refl, is_blank, All, keep, key_eq_iff,
}
use mac_os_vz_kubelet.Store.{SyncMap}
use mac_os_vz_kubelet.Docker.ContainerData.{
  ContainerInfo, InnerMap, load_container, load_all_containers, load_and_delete_containers,
}

-- The containers of a list that have been created.
abbrev pub created_ids : List (String × ContainerInfo) → List String
created_ids infos = keep (λ id. not (is_blank id)) (map (λ x. x.1.id) infos)

-- `remove` is ContainerRemove of the Docker client, with force and the volumes: its error for an id.
module _ (remove : String → Option GoError) where
  -- The loop, with the ids that were asked to be removed and the errors, in order.
  unfoldable pub remove_each : List (String × ContainerInfo) → List String × List GoError
  remove_each [] = ([], [])
  remove_each ((_, info) ∷ infos) =
      let (ids, errs) = remove_each infos in
      if is_blank info.id
      then (ids, errs)
      else (info.id ∷ ids, elim (remove info.id) [ none ↦ errs | some e ↦ e ∷ errs ])

  module _ (i : InnerMap) (m : SyncMap NamespacedName i.Map) where
    unfoldable pub remove_containers :
        NamespacedName → m.Map → (GoError ⊎ (List String × List GoError)) × m.Map
    remove_containers key d =
        let (found, d') = load_and_delete_containers i m key d in
        elim found [
          | none ↦ (inl (not_found "containers not found"), d')
          | some infos ↦ (inr (remove_each infos), d')
        ]

  remove_each_lem :
      (infos : List (String × ContainerInfo))
      → ((remove_each infos).0 ≡ created_ids infos)
        × (((remove_each infos).1 ≡ []) ↔ All (λ id. remove id ≡ none) (created_ids infos))
  unfolding remove_each
  remove_each_lem [] = ground arith
  remove_each_lem ((name, info) ∷ infos) = ground (arith, remove_each_lem infos)

  module _ (i : InnerMap) (m : SyncMap NamespacedName i.Map) where
    -- RemoveContainers of a pod without containers is NotFound. Otherwise it asks once for the
    -- removal of each container that has been created, has no error exactly if no removal has one,
    -- and forgets all the containers of the pod, the ones that could not be removed too. The
    -- containers of other pods stay.
    pub remove_containers_lem :
        (key : NamespacedName) (d : m.Map)
        → (load_all_containers i m key d ≡ none
            → (remove_containers i m key d).0 ≡ inl (not_found "containers not found"))
          × ((infos : List (String × ContainerInfo))
              → load_all_containers i m key d ≡ some infos
              → (errs : List GoError) × ((remove_containers i m key d).0
                  ≡ inr (created_ids infos, errs))
                × ((errs ≡ []) ↔ All (λ id. remove id ≡ none) (created_ids infos)))
          × (load_all_containers i m key (remove_containers i m key d).1 ≡ none)
          × ((j : NamespacedName) (name : String)
              → j ≢ key
              → load_container i m j name (remove_containers i m key d).1
                ≡ load_container i m j name d)
    unfolding remove_containers load_all_containers load_and_delete_containers load_container
    remove_containers_lem key d = (
      ground (arith, m.load_and_delete_lem key d),
      λ infos h. (
        (remove_each infos).1,
        ground (arith, m.load_and_delete_lem key d, remove_each_lem infos),
        (remove_each_lem infos).1,
      ),
      ground (arith, m.load_and_delete_lem key d, m.load-delete key key d, same_refl key),
      λ j name n.
          ground (arith, m.load_and_delete_lem key d, m.load-delete j key d, key_eq_iff key j),
    )
