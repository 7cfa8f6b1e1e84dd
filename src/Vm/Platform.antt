-- ===== src/Vm/Platform.antt =====
-- pkg/vm/config/platform.go, and Clonefile of internal/utils/clonefile.go.
use mac_os_vz_kubelet.Common.{◌∷◌, String, ◌<>◌, Bool, true, false, Option, GoError, ◌⊎◌, []}
use mac_os_vz_kubelet.Common.Runs.{done, Run, return, ◌>>=◌, ◌>>◌, perform, ask, or_wrap}
use mac_os_vz_kubelet.Vm.{
  VmAction, remove_file, clone_file, new_auxiliary_storage, new_hardware_model,
  new_machine_identifier, new_platform,
}

pub record MacPlatformConfigurationOptions : Type 0 where
  pub block_storage_path : String
  pub auxiliary_storage_path : String
  pub hardware_model_data : String
  pub machine_identifier_data : String

pub record PlatformConfiguration : Type 0 where
  pub block_storage_path : String
  pub auxiliary_storage_path : String
  pub is_overlay : Bool

-- What the code takes from elsewhere: a path in the directory of temporary files, filepath.Base, and
-- the decoder of base64.
pub record Library : Type 0 where
  pub in_temp_dir : String → String
  pub base : String → String
  pub decode : String → GoError ⊎ String

module _ (lib : Library) (world : VmAction → Option GoError) where
  abbrev pub cloned_path : String → String → String
  cloned_path path pattern = lib.in_temp_dir ("macosvz_file_" <> lib.base path <> "." <> pattern)

  -- The removal's error is dropped.
  abbrev pub clone_to : String → String → Run VmAction String
  clone_to path cloned = do
    (remove_file cloned ∷ [], done tt)
    or_wrap "failed to clone storage file" (perform world (clone_file path cloned))
    return cloned

  unfoldable pub clonefile : String → String → Run VmAction String
  clonefile path pattern = clone_to path (cloned_path path pattern)

  -- The paths of the two storages: those of clones with an overlay.
  unfoldable pub storage_paths :
      MacPlatformConfigurationOptions → Bool → String → Run VmAction (String × String)
  unfolding clonefile
  storage_paths opts false uid = return (opts.block_storage_path, opts.auxiliary_storage_path)
  storage_paths opts true uid = do
    block ← clonefile opts.block_storage_path uid
    auxiliary ← clonefile opts.auxiliary_storage_path uid
    return (block, auxiliary)

  unfoldable pub build_platform : MacPlatformConfigurationOptions → String → Run VmAction Unit
  build_platform opts auxiliary = do
    or_wrap "failed to create a new mac auxiliary storage"
        (perform world (new_auxiliary_storage auxiliary))
    model ←
        or_wrap "failed to decode hardware model data" (ask (lib.decode opts.hardware_model_data))
    or_wrap "failed to create a new hardware model" (perform world (new_hardware_model model))
    id ←
        or_wrap "failed to decode machine identifier data"
          (ask (lib.decode opts.machine_identifier_data))
    or_wrap "failed to create a new machine identifier" (perform world (new_machine_identifier id))
    or_wrap "failed to create a new mac platform configuration" (perform world new_platform)

  unfoldable pub new_platform_configuration :
      MacPlatformConfigurationOptions → Bool → String → Run VmAction PlatformConfiguration
  unfolding storage_paths build_platform
  new_platform_configuration opts use_overlay uid = do
    (block, auxiliary) ← storage_paths opts use_overlay uid
    build_platform opts auxiliary
    return (record {
      block_storage_path = block;
      auxiliary_storage_path = auxiliary;
      is_overlay = use_overlay;
    })
