-- ===== src/Vm/Shares.antt =====
-- attachDirectorySharingDevicesConfiguration of pkg/vm/config/virtual_machine.go: the directories that
-- a guest sees.
use mac_os_vz_kubelet.Common.{
  String, ◌==◌, text_comparable, ◌≡◌, refl, ◌∙◌, Option, none, some, List, [], ◌∷◌, or_else, subst,
  if◌then◌else◌, GoError, arith, Option-cases, Bool-cases, inl, inr,
}
use mac_os_vz_kubelet.Common.Runs.{done, Run, return, ◌>>=◌, ◌>>◌, perform, or_wrap}
use mac_os_vz_kubelet.Common.Runs.Shapes.{Gives, Result, Gives-last, Gives-bind, Gives-done}
use mac_os_vz_kubelet.Volumes.{Mount, find}
use mac_os_vz_kubelet.Vm.{
  VmAction, SharedDirectory, guest_automount_tag, new_shared_directory, new_directory_share,
  new_file_system_device,
}

-- The assignment to an entry of a map.
abbrev pub assign : {A : Type 0} → String → A → List (String × A) → List (String × A)
assign k a [] = (k, a) ∷ []
assign k a ((l, b) ∷ rest) = if l == k then (k, a) ∷ rest else (l, b) ∷ assign k a rest

abbrev pub directory_of : Mount → SharedDirectory
directory_of m = record { host_path = m.host_path; read_only = m.read_only }

module _ (base : String → String) (world : VmAction → Option GoError) where
  -- The loop over the mounts, with the map so far.
  unfoldable pub share_mounts :
      List (String × SharedDirectory) → List Mount → Run VmAction (List (String × SharedDirectory))
  share_mounts dirs [] = return dirs
  share_mounts dirs (m ∷ ms) = do
    or_wrap "failed to create shared directory"
        (perform world (new_shared_directory (directory_of m)))
    share_mounts (assign (base m.container_path) (directory_of m) dirs) ms

  -- The directories of the configuration, if it is given any.
  unfoldable pub attach_directory_sharing :
      List Mount → Run VmAction (Option (List (String × SharedDirectory)))
  unfolding share_mounts
  attach_directory_sharing [] = return none
  attach_directory_sharing (m ∷ ms) = do
    or_wrap "failed to get macOS guest automount tag" (perform world guest_automount_tag)
    dirs ← share_mounts [] (m ∷ ms)
    or_wrap "failed to create directory share" (perform world (new_directory_share dirs))
    or_wrap "failed to create file system device configuration"
        (perform world new_file_system_device)
    return (some dirs)

-- The directory that the last of the mounts with a base name shares.
abbrev pub last_shared : (String → String) → String → List Mount → Option SharedDirectory
last_shared base k [] = none
last_shared base k (m ∷ ms) =
    let later = last_shared base k ms in
    elim later [
      | some d ↦ some d
      | none ↦ if base m.container_path == k then some (directory_of m) else none
    ]

abbrev first_of : {A : Type 0} → Option A → Option A → Option A
first_of (some a) o = some a
first_of none o = o

find-assign :
    {A : Type 0} (k l : String) (a : A) (rest : List (String × A))
    → find k (assign l a rest) ≡ (if l == k then some a else find k rest)
find-assign k l a [] = refl
find-assign k l a ((j, b) ∷ rest) = ground (
  arith,
  find-assign k l a rest,
  text_comparable.same_iff j l,
  text_comparable.same_iff j k,
  text_comparable.same_iff l k,
)

abbrev Shows : String → Option SharedDirectory → Option (List (String × SharedDirectory)) → Type 0
Shows k d shares = find k (or_else shares []) ≡ d

module _ (base : String → String) (world : VmAction → Option GoError) where
  last_step :
      (k : String) (m : Mount) (ms : List Mount) (dirs : List (String × SharedDirectory))
      → first_of
          (last_shared base k ms)
          (find k (assign (base m.container_path) (directory_of m) dirs))
        ≡ first_of (last_shared base k (m ∷ ms)) (find k dirs)
  last_step k m ms dirs =
      rw (find-assign k (base m.container_path) (directory_of m) dirs)
        (elim (Option-cases (last_shared base k ms)) [
          | inr (d, h) ↦ rw h refl
          | inl h ↦ elim (Bool-cases (base m.container_path == k)) [
            | inl e ↦ rw (h, e) refl
            | inr e ↦ rw (h, e) refl
          ]
        ])

  share-Gives :
      (k : String) (ms : List Mount) (dirs : List (String × SharedDirectory))
      → Gives
          (λ d. find k d ≡ first_of (last_shared base k ms) (find k dirs))
          (share_mounts base world dirs ms)
  unfolding share_mounts
  share-Gives k [] dirs = Gives-done [] _ refl
  share-Gives k (m ∷ ms) dirs = Gives-last _ _ (λ _. record {
    result =
        subst
          (λ v.
            Result (λ d. find k d ≡ v)
              (share_mounts base world (assign (base m.container_path) (directory_of m) dirs) ms).1)
          (last_step k m ms dirs)
          (share-Gives k ms (assign (base m.container_path) (directory_of m) dirs)).result;
  })

  first_of-none : {A : Type 0} (o : Option A) → first_of o none ≡ o
  first_of-none (some a) = refl
  first_of-none none = refl

  attach-Gives :
      (k : String) (ms : List Mount)
      → Gives (Shows k (last_shared base k ms)) (attach_directory_sharing base world ms)
  unfolding attach_directory_sharing
  attach-Gives k [] = Gives-done [] _ refl
  attach-Gives k (m ∷ ms) = Gives-last _ _ (λ _.
      Gives-bind _ _ (share-Gives k (m ∷ ms) []) (λ dirs h. Gives-last _ _ (λ _.
        Gives-last _ _ (λ _. Gives-done [] _ (h ∙ first_of-none (last_shared base k (m ∷ ms)))))))

  -- A guest sees a directory under a name exactly when a mount's container path ends in that name, and
  -- of several such mounts it sees the last alone.
  pub attach_directory_sharing_lem :
      (k : String) (ms : List Mount) (shares : Option (List (String × SharedDirectory)))
      → (attach_directory_sharing base world ms).1 ≡ done shares
      → find k (or_else shares []) ≡ last_shared base k ms
  attach_directory_sharing_lem k ms shares h =
      subst (Result (Shows k (last_shared base k ms))) h (attach-Gives k ms).result
