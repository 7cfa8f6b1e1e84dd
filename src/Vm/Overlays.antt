-- ===== src/Vm/Overlays.antt =====
-- The clones of the two storages of a virtual machine: what setupVM leaves, and what Stop removes.
use mac_os_vz_kubelet.Common.{
  ℕ, String, ◌==◌, text_comparable, ◌≡◌, refl, sym, ap, ◌∙◌, subst, true, false, not, Option, none,
  List, [], ◌∷◌, ◌++◌, GoError, All, append_assoc, keep, arith,
}
use mac_os_vz_kubelet.Common.Runs.{done, failed, panicked, Run, ◌>>=◌, or_wrap, after-done}
use mac_os_vz_kubelet.Common.Runs.Stops.{append-All}
use mac_os_vz_kubelet.Common.Runs.Shapes.{Only, Only-bind, Only-none}
use mac_os_vz_kubelet.Volumes.{Mount}
use mac_os_vz_kubelet.Vm.{VmAction, remove_file, clone_file}
use mac_os_vz_kubelet.Vm.Platform.{
  MacPlatformConfigurationOptions, Library, cloned_path, clonefile, storage_paths,
  new_platform_configuration,
}
use mac_os_vz_kubelet.Vm.Config.{Host, setup_vm}
use mac_os_vz_kubelet.Vm.Inert.{Inert, build-Inert, rest-Inert}

-- The files that a sequence of calls leaves, of those that it clones and removes.
abbrev pub left : List VmAction → List String → List String
left [] files = files
left (remove_file p ∷ acts) files = left acts (keep (λ q. not (q == p)) files)
left (clone_file p q ∷ acts) files = left acts (q ∷ files)
left (_ ∷ acts) files = left acts files

left-append :
    (xs ys : List VmAction) (files : List String) → left (xs ++ ys) files ≡ left ys (left xs files)
left-append [] ys files = refl
left-append (remove_file p ∷ xs) ys files = left-append xs ys _
left-append (clone_file p q ∷ xs) ys files = left-append xs ys _
left-append (_ ∷ xs) ys files = left-append xs ys _

left-Inert : (acts : List VmAction) (files : List String) → All Inert acts → left acts files ≡ files
left-Inert [] files h = refl
left-Inert (remove_file p ∷ xs) files (h, k) = ground (arith, h)
left-Inert (clone_file p q ∷ xs) files (h, k) = ground (arith, h)
left-Inert (_ ∷ xs) files (h, k) = left-Inert xs files k

-- A run that begins with the calls `xs` and goes on with inert ones.
abbrev Begins : {A : Type 0} → List VmAction → Run VmAction A → Type 0
Begins xs m = (rest : List VmAction) × (m.0 ≡ xs ++ rest) × All Inert rest

wrap-Begins :
    {A : Type 0} (s : String) (xs : List VmAction) (m : Run VmAction A)
    → Begins xs m
    → Begins xs (or_wrap s m)
unfolding or_wrap
wrap-Begins s xs m h = h

bind-Begins :
    {A B : Type 0} (xs : List VmAction) (m : Run VmAction A) (f : A → Run VmAction B)
    → Begins xs m
    → ((a : A) → Only Inert (f a))
    → Begins xs (m >>= f)
unfolding ◌>>=◌
bind-Begins xs (acts, done a) f (rest, h, k) l = (
  rest ++ (f a).0,
  ap (λ ys. ys ++ (f a).0) h ∙ append_assoc xs rest (f a).0,
  append-All Inert rest (f a).0 k (l a).every,
)
bind-Begins xs (acts, failed e) f h l = h
bind-Begins xs (acts, panicked) f h l = h

-- A first part that is known.
first-Begins :
    {A B : Type 0} (xs : List VmAction) (m : Run VmAction A) (f : A → Run VmAction B) (a : A)
    → m ≡ (xs, done a)
    → Only Inert (f a)
    → Begins xs (m >>= f)
first-Begins xs m f a h k =
    subst (λ n. Begins xs (n >>= f)) (sym h) (unfold ◌>>=◌ in ((f a).0, refl, k.every))

module _ (lib : Library) (host : Host) (world : VmAction → Option GoError) where
  -- The calls that clone one file.
  abbrev cloning : String → String → List VmAction
  cloning path cloned = remove_file cloned ∷ clone_file path cloned ∷ []

  clonefile_ok :
      (path uid : String)
      → world (clone_file path (cloned_path lib world path uid)) ≡ none
      → clonefile lib world path uid
        ≡ (cloning path (cloned_path lib world path uid), done (cloned_path lib world path uid))
  unfolding clonefile ◌>>=◌ or_wrap
  clonefile_ok path uid h = rw h refl

  module _ (opts : MacPlatformConfigurationOptions) (uid : String) where
    abbrev pub block_clone : String
    block_clone = cloned_path lib world opts.block_storage_path uid

    abbrev pub auxiliary_clone : String
    auxiliary_clone = cloned_path lib world opts.auxiliary_storage_path uid

    abbrev both : List VmAction
    both =
        cloning opts.block_storage_path block_clone
        ++ cloning opts.auxiliary_storage_path auxiliary_clone

    paths_ok :
        world (clone_file opts.block_storage_path block_clone) ≡ none
        → world (clone_file opts.auxiliary_storage_path auxiliary_clone) ≡ none
        → storage_paths lib world opts true uid ≡ (both, done (block_clone, auxiliary_clone))
    unfolding storage_paths
    paths_ok h k =
        after-done _ _ _ _ _ _ (clonefile_ok opts.block_storage_path uid h)
          (after-done _ _ _ _ _ _ (clonefile_ok opts.auxiliary_storage_path uid k) refl)

    setup-Begins :
        (cpu memory : ℕ) (identifier : String) (mounts : List Mount)
        → world (clone_file opts.block_storage_path block_clone) ≡ none
        → world (clone_file opts.auxiliary_storage_path auxiliary_clone) ≡ none
        → Begins both (setup_vm lib host world opts uid cpu memory identifier mounts)
    unfolding setup_vm new_platform_configuration
    setup-Begins cpu memory identifier mounts h k =
        bind-Begins both _ _
          (wrap-Begins _ both _ (
            first-Begins both _ _ _ (paths_ok h k)
              (Only-bind _ _ (build-Inert lib host world opts auxiliary_clone) (λ _. Only-none _))))
          (λ p. rest-Inert lib host world cpu memory identifier mounts p)

    -- Once both storages are cloned, to two paths that differ, the clones are there when setupVM returns,
    -- whether it succeeds or fails in one of the later calls.
    pub setup_vm-left :
        (cpu memory : ℕ) (identifier : String) (mounts : List Mount)
        → world (clone_file opts.block_storage_path block_clone) ≡ none
        → world (clone_file opts.auxiliary_storage_path auxiliary_clone) ≡ none
        → (block_clone == auxiliary_clone) ≡ false
        → left (setup_vm lib host world opts uid cpu memory identifier mounts).0 []
          ≡ auxiliary_clone ∷ block_clone ∷ []
    setup_vm-left cpu memory identifier mounts h k l =
        let (rest, split, inert) = setup-Begins cpu memory identifier mounts h k in
        ap (λ acts. left acts []) split
        ∙ left-append both rest []
        ∙ left-Inert rest (left both []) inert
        ∙ rw l refl
