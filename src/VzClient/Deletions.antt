-- ===== src/VzClient/Deletions.antt =====
-- DeleteVirtualizationGroup of pkg/client/vz.go. The callers that have loaded a group share its
-- extras: the first runs the deletion, under `deleteOnce`, and each then receives from the channel
-- `deleteDone`, which holds one error.
pub mod Laws
use mac_os_vz_kubelet.Common.{
  Bool, true, false, ◌&&◌, Option, none, some, List, [], ◌∷◌, GoError, join, is_some, is_blank,
  NamespacedName, namespaced_name_comparable, String, if◌then◌else◌,
}
use mac_os_vz_kubelet.Store.{SyncMap}
use mac_os_vz_kubelet.VzClient.Groups.{missing, group_not_found}

-- virtualizationGroupExtras. `delete_started` is the state of the sync.Once, `buffered` what the
-- channel holds and `done_closed` whether it is closed.
pub record Extras : Type 0 where
  pub root_dir : String
  pub has_cancel : Bool
  pub delete_started : Bool
  pub buffered : Option (Option GoError)
  pub done_closed : Bool

abbrev pub new_extras : String → Extras
new_extras root_dir = record {
  root_dir = root_dir;
  has_cancel = false;
  delete_started = false;
  buffered = none;
  done_closed = false;
}

module _ (is_not_found : GoError → Bool) where
  -- The `switch` over the errors of the two deletions.
  unfoldable pub deletion_error : Option GoError → Option GoError → Option GoError
  deletion_error (some d) (some e) =
      if is_not_found d && is_not_found e then some group_not_found else some (join d e)
  deletion_error (some d) none = if is_not_found d then none else some d
  deletion_error none (some e) = if is_not_found e then none else some e
  deletion_error none none = none

  -- The function under the sync.Once, with the errors of the two deletions that it makes.
  unfoldable pub delete_once : Option GoError → Option GoError → Extras → Extras
  unfolding deletion_error
  delete_once vm_error container_error x = if x.delete_started then x else record x {
    delete_started = true;
    buffered = some (deletion_error vm_error container_error);
    done_closed = true;
  }

  -- The receive from the channel: a closed one gives the zero value, `nil`, and an empty one that is
  -- open blocks.
  unfoldable pub receive_done : Extras → Option (Option GoError × Extras)
  receive_done x = elim x.buffered [
    | some e ↦ some (e, record x { buffered = none })
    | none ↦ if x.done_closed then some (none, x) else none
  ]

  -- Callers of one group, whose contexts do not end, in the order in which they receive.
  unfoldable pub delete_callers :
      List (Option GoError × Option GoError) → Extras → Option (List (Option GoError))
  unfolding delete_once receive_done
  delete_callers [] x = some []
  delete_callers ((d, e) ∷ rest) x = elim (receive_done (delete_once d e x)) [
    | none ↦ none
    | some (r, y) ↦ elim (delete_callers rest y) [ none ↦ none | some rs ↦ some (r ∷ rs) ]
  ]

-- What the deferred function does outside the client.
pub data Cleanup : Type 0 where
  cancel_group : Cleanup
  remove_all : String → Cleanup

abbrev pub cleanup : Extras → List Cleanup
cleanup x =
    let removal = if is_blank x.root_dir then [] else remove_all x.root_dir ∷ [] in
    if x.has_cancel then cancel_group ∷ removal else removal

abbrev pub ExtrasMap : Type 1
ExtrasMap = SyncMap NamespacedName Extras

module _ (is_not_found : GoError → Bool) (m : ExtrasMap) where
  -- The body for one caller with nobody else at work.
  unfoldable pub delete_loaded :
      NamespacedName
      → Option GoError
      → Option GoError
      → Extras
      → m.Map
      → Option (Option GoError × List Cleanup × m.Map)
  delete_loaded key vm_error container_error x d =
      elim (receive_done is_not_found (delete_once is_not_found vm_error container_error x)) [
        | none ↦ none
        | some (r, y) ↦
            if x.delete_started then some (r, [], d) else some (r, cleanup x, m.delete key d)
      ]

  unfoldable pub delete_virtualization_group :
      NamespacedName
      → Option GoError
      → Option GoError
      → m.Map
      → Option (Option GoError × List Cleanup × m.Map)
  unfolding delete_loaded
  delete_virtualization_group key vm_error container_error d = elim (m.load key d) [
    | none ↦ some (some group_not_found, [], d)
    | some x ↦ delete_loaded key vm_error container_error x d
  ]
