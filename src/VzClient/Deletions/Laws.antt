-- ===== src/VzClient/Deletions/Laws.antt =====
-- What the callers of DeleteVirtualizationGroup get, and what a deletion leaves.
use mac_os_vz_kubelet.Common.{
  ◌≡◌, ◌≢◌, ◌↔◌, refl, Bool, true, false, Option, none, some, List, [], ◌∷◌, map, GoError, arith,
  ◌⊎◌, NamespacedName, namespaced_name_comparable, key_eq_iff, same_refl, String,
}
use mac_os_vz_kubelet.VzClient.Groups.{missing, group_not_found}
use mac_os_vz_kubelet.VzClient.Deletions.{
  Extras, new_extras, deletion_error, delete_once, receive_done, delete_callers, cleanup, ExtrasMap,
  delete_loaded, delete_virtualization_group,
}

-- An error that a deletion may end with and still be one.
abbrev pub IsHarmless : (GoError → Bool) → Option GoError → Type 0
IsHarmless is_not_found e = (e ≡ none) ⊎ (missing is_not_found e ≡ true)

module _ (is_not_found : GoError → Bool) where
  -- A group whose deletion has ended and whose error has been received.
  abbrev drained : String → Extras
  drained root_dir = record (new_extras root_dir) { delete_started = true; done_closed = true }

  later_callers :
      (rest : List (Option GoError × Option GoError)) (root_dir : String)
      → delete_callers is_not_found rest (drained root_dir) ≡ some (map (λ c. none) rest)
  unfolding delete_callers delete_once receive_done
  later_callers [] root_dir = refl
  later_callers ((e, f) ∷ rest) root_dir = rw (later_callers rest root_dir) refl

  -- However many callers delete the same group, none of them waits for ever: the one that receives
  -- first gets the error of the deletion, and each other one gets no error, whatever the deletion
  -- met. The deletion succeeds exactly if one part succeeds and the other does or has nothing.
  delete_callers_lem :
      (d e : Option GoError) (rest : List (Option GoError × Option GoError)) (root_dir : String)
      → (delete_callers is_not_found ((d, e) ∷ rest) (new_extras root_dir)
          ≡ some (deletion_error is_not_found d e ∷ map (λ c. none) rest))
        × ((deletion_error is_not_found d e ≡ none)
            ↔ (((d ≡ none) × IsHarmless is_not_found e) ⊎ ((e ≡ none) × IsHarmless is_not_found d)))
  unfolding delete_callers deletion_error delete_once receive_done
  delete_callers_lem d e rest root_dir = (rw (later_callers rest root_dir) refl, ground arith)

module _ (is_not_found : GoError → Bool) (m : ExtrasMap) where
  -- DeleteVirtualizationGroup of a key that has no group is NotFound and changes nothing. For a
  -- group that nobody has begun to delete it gives the error of the deletion and, whether that is
  -- an error or not, cancels the context of the group, removes its directory and forgets it, and no
  -- other group.
  delete_virtualization_group_lem :
      (key : NamespacedName) (vm_error container_error : Option GoError) (d : m.Map)
      → (m.load key d ≡ none
          → delete_virtualization_group is_not_found m key vm_error container_error d
            ≡ some (some group_not_found, [], d))
        × ((x : Extras)
            → m.load key d ≡ some x
            → x.delete_started ≡ false
            → (d' : m.Map) × (delete_virtualization_group is_not_found m key vm_error
                  container_error d
                ≡ some (deletion_error is_not_found vm_error container_error, cleanup x, d'))
              × (m.load key d' ≡ none)
              × ((j : NamespacedName) → j ≢ key → m.load j d' ≡ m.load j d))
  unfolding delete_virtualization_group delete_loaded delete_once receive_done
  delete_virtualization_group_lem key vm_error container_error d = (
    (λ h. rw (h, delete_virtualization_group) refl),
    λ x h fresh. (
      m.delete key d,
      rw (h, delete_virtualization_group, fresh) refl,
      rw (m.load-delete key key d, same_refl key) refl,
      λ j n. ground (arith, m.load-delete j key d, key_eq_iff key j),
    ),
  )
