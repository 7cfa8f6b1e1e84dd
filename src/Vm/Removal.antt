-- ===== src/Vm/Removal.antt =====
-- What Stop removes of the clones that setupVM made.
use mac_os_vz_kubelet.Common.{
  ℕ, String, ◌==◌, same_refl, text_comparable, ◌≡◌, refl, sym, ap, ◌∙◌, subst, Bool, true, false,
  not, ◌&&◌, Option, none, List, [], ◌∷◌, ◌++◌, is_blank, if◌then◌else◌, GoError, Bool-cases, inl,
  inr, keep, is_some, arith, ◌||◌,
}
use mac_os_vz_kubelet.Common.Runs.{done}
use mac_os_vz_kubelet.Common.Runs.Shapes.{
  Gives, Result, Gives-bind, Gives-last, Gives-wrap, Gives-done,
}
use mac_os_vz_kubelet.Volumes.{Mount}
use mac_os_vz_kubelet.Vm.{VmAction, SharedDirectory, clone_file}
use mac_os_vz_kubelet.Vm.Platform.{
  MacPlatformConfigurationOptions, PlatformConfiguration, Library, cloned_path, clonefile,
  storage_paths, new_platform_configuration,
}
use mac_os_vz_kubelet.Vm.Config.{
  VirtualMachineConfiguration, Host, if_valid, configured, new_virtual_machine_configuration,
  new_virtual_machine_instance, setup_vm,
}
use mac_os_vz_kubelet.Vm.Overlays.{left, setup_vm-left, block_clone, auxiliary_clone}
use mac_os_vz_kubelet.Vm.Instance.{
  Instance, InstanceAction, cancel_lookup, remove_overlay, stop, remove_from, overlays_of,
  force_stop,
}
use mac_os_vz_kubelet.Resource.VirtualMachine.{VzState, vz_stopped}
use mac_os_vz_kubelet.Vm.Config.{get_overlays}

-- The files that are left of some after the removals of a stop: `removals` is what os.Remove answers,
-- and a file whose removal fails stays.
module _ (removals : String → Option GoError) where
  abbrev pub discard : List InstanceAction → List String → List String
  discard [] files = files
  discard (remove_overlay p ∷ acts) files =
      discard acts (keep (λ q. is_some (removals p) || not (q == p)) files)
  discard (_ ∷ acts) files = discard acts files

  discard-append :
      (xs ys : List InstanceAction) (files : List String)
      → discard (xs ++ ys) files ≡ discard ys (discard xs files)
  discard-append [] ys files = refl
  discard-append (remove_overlay p ∷ xs) ys files = discard-append xs ys _
  discard-append (_ ∷ xs) ys files = discard-append xs ys files

  discard_cancel :
      (b : Bool) (files : List String)
      → discard (if b then cancel_lookup ∷ [] else []) files ≡ files
  discard_cancel true files = refl
  discard_cancel false files = refl

  discard-force_stop :
      (s : VzState) (e : Option GoError) (files : List String)
      → discard (force_stop s e).0 files ≡ files
  discard-force_stop vz_stopped e files = refl
  discard-force_stop _ e files = refl

  -- A stop asks for the removal of its overlays whatever its other calls answer.
  discard-stop :
      (e : Option GoError) (i : Instance) (files : List String)
      → is_blank i.config.overlay_block_storage_path ≡ false
      → is_blank i.config.overlay_auxiliary_storage_path ≡ false
      → discard (stop e removals i).0 files
        ≡ discard
            (remove_overlay i.config.overlay_block_storage_path
              ∷ remove_overlay i.config.overlay_auxiliary_storage_path
              ∷ [])
            files
  unfolding stop get_overlays
  discard-stop e i files h k =
      let cancel = if is_blank i.view.ip_address && i.has_cancel then cancel_lookup ∷ [] else [] in
      let halt = force_stop i.view.vz_state e in
      let removal = remove_from removals (overlays_of (get_overlays i.config)) halt.1 in
      discard-append cancel (halt.0 ++ removal.0) files
      ∙ discard-append halt.0 removal.0 (discard cancel files)
      ∙ ap (discard removal.0) (
          discard-force_stop i.view.vz_state e (discard cancel files)
          ∙ discard_cancel (is_blank i.view.ip_address && i.has_cancel) files)
      ∙ rw (h, k) refl

  distinct_removed :
      (b a : String)
      → (b == a) ≡ false
      → (a == b) ≡ false
      → discard (remove_overlay b ∷ remove_overlay a ∷ []) (a ∷ b ∷ [])
        ≡ keep (λ q. is_some (removals q)) (a ∷ b ∷ [])
  distinct_removed b a h k = elim (Bool-cases (is_some (removals a))) [
    | inl e ↦ elim (Bool-cases (is_some (removals b))) [
      | inl f ↦ simp (e, f, h, k, same_refl a, same_refl b)
      | inr f ↦ simp (e, f, h, k, same_refl a, same_refl b)
    ]
    | inr e ↦ elim (Bool-cases (is_some (removals b))) [
      | inl f ↦ simp (e, f, h, k, same_refl a, same_refl b)
      | inr f ↦ simp (e, f, h, k, same_refl a, same_refl b)
    ]
  ]

  overlays_removed :
      (b a x y : String)
      → x ≡ b
      → y ≡ a
      → (b == a) ≡ false
      → discard (remove_overlay x ∷ remove_overlay y ∷ []) (a ∷ b ∷ [])
        ≡ keep (λ q. is_some (removals q)) (a ∷ b ∷ [])
  overlays_removed b a x y h k n =
      ap (λ z. discard (remove_overlay z ∷ remove_overlay y ∷ []) (a ∷ b ∷ [])) h
      ∙ ap (λ z. discard (remove_overlay b ∷ remove_overlay z ∷ []) (a ∷ b ∷ [])) k
      ∙ distinct_removed b a n
          (ground (arith, text_comparable.same_iff a b, text_comparable.same_iff b a))

module _ (lib : Library) (host : Host) (world : VmAction → Option GoError) where
  module _ (opts : MacPlatformConfigurationOptions) (uid : String) where
    -- The overlays of a configuration are the two clones.
    abbrev OfClones : VirtualMachineConfiguration → Type 0
    OfClones c =
        (c.overlay_block_storage_path ≡ block_clone lib host world opts uid)
        × (c.overlay_auxiliary_storage_path ≡ auxiliary_clone lib host world opts uid)

    abbrev Overlaid : PlatformConfiguration → Type 0
    Overlaid p =
        (p.is_overlay ≡ true)
        × (p.block_storage_path ≡ block_clone lib host world opts uid)
        × (p.auxiliary_storage_path ≡ auxiliary_clone lib host world opts uid)

    clonefile-Gives :
        (path : String)
        → Gives (λ c. c ≡ cloned_path lib world path uid) (clonefile lib world path uid)
    unfolding clonefile
    clonefile-Gives path = Gives-last _ _ (λ _. Gives-last _ _ (λ _. Gives-done [] _ refl))

    paths-Gives :
        Gives
          (λ (p : String × String).
            (p.0 ≡ block_clone lib host world opts uid)
            × (p.1 ≡ auxiliary_clone lib host world opts uid))
          (storage_paths lib world opts true uid)
    unfolding storage_paths
    paths-Gives = Gives-bind _ _ (clonefile-Gives opts.block_storage_path) (λ b h.
        Gives-bind _ _ (clonefile-Gives opts.auxiliary_storage_path)
          (λ a k. Gives-done [] _ (h, k)))

    platform-Gives : Gives Overlaid (new_platform_configuration lib world opts true uid)
    unfolding new_platform_configuration
    platform-Gives =
        Gives-bind _ _ paths-Gives (λ p h. Gives-last _ _ (λ _. Gives-done [] _ (refl, h.0, h.1)))

    valid-Gives :
        (b : Bool) (c : VirtualMachineConfiguration)
        → OfClones c
        → Gives OfClones (if_valid lib host world b c)
    valid-Gives true c h = Gives-done [] c h
    valid-Gives false c h = record { result = tt }

    configured_lem :
        (p : PlatformConfiguration) (identifier : String) (mac : List ℕ)
        (shares : Option (List (String × SharedDirectory)))
        → Overlaid p
        → OfClones (configured lib host world p identifier mac shares)
    configured_lem p identifier mac shares (o, b, a) = (rw o b, rw o a)

    configuration-Gives :
        (p : PlatformConfiguration) (cpu memory : ℕ) (identifier : String) (mounts : List Mount)
        → Overlaid p
        → Gives OfClones
            (new_virtual_machine_configuration lib host world p cpu memory identifier mounts)
    unfolding new_virtual_machine_configuration
    configuration-Gives p cpu memory identifier mounts h = Gives-last _ _ (λ _. Gives-last _ _ (λ _.
        Gives-last _ _ (λ bytes. Gives-last _ _ (λ mac. Gives-last _ _ (λ _.
          Gives-last _ _ (λ shares.
            Gives-last _ _ (λ _.
              valid-Gives host.is_validated _ (configured_lem p identifier mac shares h))))))))

    instance-Gives :
        (c : VirtualMachineConfiguration)
        → OfClones c
        → Gives
            (λ (r : VirtualMachineConfiguration × List ℕ). OfClones r.0)
            (new_virtual_machine_instance lib host world c)
    unfolding new_virtual_machine_instance
    instance-Gives c h = Gives-last _ _ (λ _. Gives-done [] _ h)

    setup-Gives :
        (cpu memory : ℕ) (identifier : String) (mounts : List Mount)
        → Gives
            (λ (r : VirtualMachineConfiguration × List ℕ). OfClones r.0)
            (setup_vm lib host world opts uid cpu memory identifier mounts)
    unfolding setup_vm
    setup-Gives cpu memory identifier mounts =
        Gives-bind _ _ (Gives-wrap _ _ platform-Gives) (λ p h.
          Gives-bind _ _ (Gives-wrap _ _ (configuration-Gives p cpu memory identifier mounts h))
            (λ c k. Gives-wrap _ _ (instance-Gives c k)))

    -- Where a set-up has made its two clones, of different paths that are not empty, and succeeded, the
    -- stop of its instance removes both, whatever the state of the machine is and whatever the other
    -- calls of the stop answer: of the clones just those are left whose removal fails.
    pub stop-setup_vm :
        (cpu memory : ℕ) (identifier : String) (mounts : List Mount) (i : Instance)
        (stop_error : Option GoError) (removals : String → Option GoError)
        → world (clone_file opts.block_storage_path (block_clone lib host world opts uid)) ≡ none
        → world (clone_file opts.auxiliary_storage_path (auxiliary_clone lib host world opts uid))
          ≡ none
        → (block_clone lib host world opts uid == auxiliary_clone lib host world opts uid) ≡ false
        → is_blank (block_clone lib host world opts uid) ≡ false
        → is_blank (auxiliary_clone lib host world opts uid) ≡ false
        → (setup_vm lib host world opts uid cpu memory identifier mounts).1
          ≡ done (i.config, i.mac_addr)
        → let clones = left (setup_vm lib host world opts uid cpu memory identifier mounts).0 [] in
          discard removals (stop stop_error removals i).0 clones
          ≡ keep (λ q. is_some (removals q)) clones
    stop-setup_vm cpu memory identifier mounts i stop_error removals h k l b a d =
        let (same_block, same_auxiliary) =
          subst (Result (λ (r : VirtualMachineConfiguration × List ℕ). OfClones r.0)) d
            (setup-Gives cpu memory identifier mounts).result in
        let clones = setup_vm-left lib host world opts uid cpu memory identifier mounts h k l in
        ap (discard removals (stop stop_error removals i).0) clones
        ∙ discard-stop removals stop_error i _ (ap is_blank same_block ∙ b)
            (ap is_blank same_auxiliary ∙ a)
        ∙ overlays_removed removals _ _ _ _ same_block same_auxiliary l
        ∙ sym (ap (keep (λ q. is_some (removals q))) clones)
