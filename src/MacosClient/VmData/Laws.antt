-- ===== src/MacosClient/VmData/Laws.antt =====
-- What the methods of the table do to the entries and to counts over them.
use mac_os_vz_kubelet.Common.{
  ◌+◌, ◌≡◌, ap, ◌∙◌, Bool, true, false, Option, none, some, ◌∷◌, [], NamespacedName,
  namespaced_name_comparable, ◌==◌, if◌then◌else◌, count, arith, inl, inr, Option-cases, key_eq_iff,
}
use mac_os_vz_kubelet.Store.{entry_of}
use mac_os_vz_kubelet.MacosClient.VmData.{
  VirtualMachineInfo, VmMap, update_callback, load, update, load_or_store, delete, all,
}

abbrev pub updated :
    (VirtualMachineInfo → VirtualMachineInfo)
    → Option VirtualMachineInfo
    → Option VirtualMachineInfo
updated f none = none
updated f (some info) = some (f info)

module _ (m : VmMap) where
  pub update_missing :
      (key : NamespacedName) (f : VirtualMachineInfo → VirtualMachineInfo) (d : m.Map)
      → load m key d ≡ none
      → update m key f d ≡ (none, d)
  unfolding load update
  update_missing key f d h =
      m.compute_cancel key (update_callback f) d (ap (update_callback f) h) ∙ ap (λ o. (o, d)) h

  pub update_found :
      (key : NamespacedName) (f : VirtualMachineInfo → VirtualMachineInfo) (d : m.Map)
      (info : VirtualMachineInfo)
      → load m key d ≡ some info
      → update m key f d ≡ (some (f info), m.store key (f info) d)
  unfolding load update
  update_found key f d info h =
      m.compute_update key (update_callback f) d (f info) (ap (update_callback f) h)

  -- An update changes the entry of its key, if there is one, and no other.
  pub load-update :
      (j key : NamespacedName) (f : VirtualMachineInfo → VirtualMachineInfo) (d : m.Map)
      → load m j (update m key f d).1 ≡ (if key == j then updated f (load m key d) else load m j d)
  unfolding load
  load-update j key f d = elim (Option-cases (load m key d)) [
    | inl e ↦ rw (update_missing key f d e) (ground (arith, key_eq_iff key j))
    | inr (info, e) ↦ rw (update_found key f d info e, m.load-store j key (f info) d) (ground arith)
  ]

  -- An update exchanges one entry in every count over the table.
  pub count-update :
      (p : NamespacedName × VirtualMachineInfo → Bool) (key : NamespacedName)
      (f : VirtualMachineInfo → VirtualMachineInfo) (d : m.Map)
      → count p (all m (update m key f d).1) + count p (entry_of key (load m key d))
        ≡ count p (all m d) + count p (entry_of key (updated f (load m key d)))
  unfolding load all
  count-update p key f d = elim (Option-cases (load m key d)) [
    | inl e ↦ rw (update_missing key f d e) (ground arith)
    | inr (info, e) ↦
        rw (update_found key f d info e)
          (ground (arith, m.count-store p key (f info) d, m.count-delete p key d))
  ]

  pub load_or_store_found :
      (key : NamespacedName) (info w : VirtualMachineInfo) (d : m.Map)
      → load m key d ≡ some w
      → load_or_store m key info d ≡ ((w, true), d)
  unfolding load load_or_store
  load_or_store_found key info w d h = m.load_or_store_present key info w d h

  pub load_or_store_missing :
      (key : NamespacedName) (info : VirtualMachineInfo) (d : m.Map)
      → load m key d ≡ none
      → load_or_store m key info d ≡ ((info, false), m.store key info d)
  unfolding load load_or_store
  load_or_store_missing key info d h = m.load_or_store_absent key info d h

  -- A store under a key that has no entry adds one to every count that takes it.
  pub count-load_or_store :
      (p : NamespacedName × VirtualMachineInfo → Bool) (key : NamespacedName)
      (info : VirtualMachineInfo) (d : m.Map)
      → load m key d ≡ none
      → count p (all m (load_or_store m key info d).1)
        ≡ count p ((key, info) ∷ []) + count p (all m d)
  unfolding load all
  count-load_or_store p key info d h =
      rw (load_or_store_missing key info d h)
        (ground (arith, m.count-store p key info d, m.count-delete p key d))

  pub load-store :
      (j key : NamespacedName) (info : VirtualMachineInfo) (d : m.Map)
      → load m j (m.store key info d) ≡ (if key == j then some info else load m j d)
  unfolding load
  load-store j key info d = m.load-store j key info d

  pub load-delete :
      (j key : NamespacedName) (d : m.Map)
      → load m j (delete m key d) ≡ (if key == j then none else load m j d)
  unfolding load delete
  load-delete j key d = m.load-delete j key d

  pub count-delete :
      (p : NamespacedName × VirtualMachineInfo → Bool) (key : NamespacedName) (d : m.Map)
      → count p (all m d) ≡ count p (entry_of key (load m key d)) + count p (all m (delete m key d))
  unfolding load all delete
  count-delete p key d = m.count-delete p key d
