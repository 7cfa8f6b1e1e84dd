-- ===== src/Volumes/Examples.antt =====
-- The theorems on volumes at a pod with three volumes.
use mac_os_vz_kubelet.Common.{
  String, ◌<>◌, ◌≡◌, refl, true, false, Option, none, some, List, [], ◌∷◌, GoError, text,
}
use mac_os_vz_kubelet.Common.Runs.{done, panicked, ◌>>=◌}
use mac_os_vz_kubelet.Volumes.{
  VolumeMount, Projection, Pod, Data, FileAction, mkdir_all, write_file, find_pod_volume_spec,
  create_container_mounts, DownwardFile, write_downward_files,
}
use mac_os_vz_kubelet.Volumes.Plan.{plan_files, plan_mounts}
use mac_os_vz_kubelet.Volumes.Execution.{create_container_mounts_lem}

abbrev slash : String → String → String
slash a b = a <> "/" <> b

-- The disk is full for every file.
abbrev full_disk : FileAction → Option GoError
full_disk (mkdir_all p) = none
full_disk (write_file p c m) = some (text "no space left on device")

abbrev projection : Projection
projection = record {
  service_account_token = some "token";
  config_map = some ("settings", record { key = "ca"; path = "ca.crt"; mode = some 420 } ∷ []);
  downward_api =
      some (record { path = "namespace"; field_ref = some "metadata.namespace"; mode = none } ∷ []);
}

abbrev three_volumes : Pod
three_volumes = record {
  namespace = "ci";
  volumes =
      record {
        name = "data";
        source = record { host_path = some "/srv"; empty_dir = false; projected = none };
      }
      ∷ record {
        name = "tmp";
        source = record { host_path = none; empty_dir = true; projected = none };
      }
      ∷ record {
        name = "api";
        source = record { host_path = none; empty_dir = false; projected = some (projection ∷ []) };
      }
      ∷ [];
}

abbrev mount_of : String → VolumeMount
mount_of name = record { name = name; mount_path = "/mnt"; sub_path = name; read_only = false }

abbrev mounts : List VolumeMount
mounts = mount_of "data" ∷ mount_of "gone" ∷ mount_of "tmp" ∷ mount_of "api" ∷ []

abbrev maps : List (String × Data)
maps = ("settings", ("ca", "pem") ∷ []) ∷ []

create_container_mounts_lem_example :
    create_container_mounts slash (λ _. none) "/pods" "jwt" maps three_volumes mounts ≡ (
      plan_files slash "/pods" "jwt" maps three_volumes mounts,
      done (plan_mounts slash "/pods" three_volumes mounts),
    )
unfolding find_pod_volume_spec
create_container_mounts_lem_example =
    create_container_mounts_lem slash (λ _. none) (λ _. refl) "/pods" "jwt" maps three_volumes
      mounts
      (tt, (tt, (tt, ((((("ca", "pem") ∷ [], refl), (("metadata.namespace", refl), tt)), tt), tt))))

-- A file of the downward API that refers to a resource has no field.
abbrev limits : DownwardFile
limits = record { path = "limits"; field_ref = none; mode = none }

resource_field :
    (write_downward_files slash (λ _. none) "/pods/api" "ci" (limits ∷ [])).1 ≡ panicked
unfolding write_downward_files ◌>>=◌
resource_field = refl
