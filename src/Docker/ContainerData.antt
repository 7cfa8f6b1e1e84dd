-- ===== src/Docker/ContainerData.antt =====
-- internal/data/container: the table of the containers, a concurrent map of pods whose values are
-- concurrent maps of containers. The two steps that a method takes on the maps are taken as one.
use mac_os_vz_kubelet.Common.{
  String, ◌≡◌, Bool, ◌&&◌, Option, none, some, List, NamespacedName, namespaced_name_comparable,
  text_comparable, GoError, ◌==◌, if◌then◌else◌, arith, Option-cases, inl, inr, key_eq_iff,
}
use mac_os_vz_kubelet.Store.{SyncMap}

pub record ContainerInfo : Type 0 where
  pub id : String
  pub err : Option GoError

abbrev pub no_info : ContainerInfo
no_info = record { id = ""; err = none }

abbrev pub with_id : String → ContainerInfo → ContainerInfo
with_id id i = record i { id = id }

abbrev pub with_error : GoError → ContainerInfo → ContainerInfo
with_error e i = record i { err = some e }

abbrev pub InnerMap : Type 1
InnerMap = SyncMap String ContainerInfo

module _ (i : InnerMap) (m : SyncMap NamespacedName i.Map) where
  unfoldable pub load_container : NamespacedName → String → m.Map → Option ContainerInfo
  load_container key name d = elim (m.load key d) [ none ↦ none | some inner ↦ i.load name inner ]

  -- The write to the inner map that LoadOrCompute gives.
  abbrev put_inner : NamespacedName → (i.Map × Bool) × m.Map → i.Map → m.Map
  put_inner key (r, d) inner = m.store key inner d

  unfoldable pub store_container : NamespacedName → String → ContainerInfo → m.Map → m.Map
  store_container key name info d =
      let r = m.load_or_compute key i.new d in put_inner key r (i.store name info r.0.0)

  -- The result of LoadOrStore, `none` where the container was not there.
  unfoldable pub load_or_store_container :
      NamespacedName → String → ContainerInfo → m.Map → Bool × m.Map
  load_or_store_container key name info d =
      let r = m.load_or_compute key i.new d in
      let ((_, loaded), inner) = i.load_or_store name info r.0.0 in (loaded, put_inner key r inner)

  unfoldable pub load_all_containers :
      NamespacedName → m.Map → Option (List (String × ContainerInfo))
  load_all_containers key d = elim (m.load key d) [
    | none ↦ none
    | some inner ↦ some (i.entries inner)
  ]

  unfoldable pub load_and_delete_containers :
      NamespacedName → m.Map → Option (List (String × ContainerInfo)) × m.Map
  load_and_delete_containers key d =
      let (inner, d') = m.load_and_delete key d in
      (elim inner [ none ↦ none | some n ↦ some (i.entries n) ], d')

  -- A stored container is found under its key and name, and every other container is found as
  -- before.
  pub load_container-store_container :
      (j key : NamespacedName) (n name : String) (info : ContainerInfo) (d : m.Map)
      → load_container j n (store_container key name info d)
        ≡ (if (key == j) && (name == n) then some info else load_container j n d)
  unfolding load_container store_container
  load_container-store_container j key n name info d = elim (Option-cases (m.load key d)) [
    | inl e ↦ rw (m.load_or_compute_absent key i.new d e) (
        ground (
          arith,
          m.load-store j key (i.store name info i.new) (m.store key i.new d),
          m.load-store j key i.new d,
          i.load-store n name info i.new,
          i.load-new n,
          key_eq_iff key j,
          e,
        ))
    | inr (inner, e) ↦ rw (m.load_or_compute_present key i.new inner d e) (
        ground (
          arith,
          m.load-store j key (i.store name info inner) d,
          i.load-store n name info inner,
          key_eq_iff key j,
          e,
        ))
  ]
