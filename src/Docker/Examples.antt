-- ===== src/Docker/Examples.antt =====
-- The theorems on the containers at concrete tables and answers of Docker.
use mac_os_vz_kubelet.Common.{
  ℕ, ◌+◌, String, ◌≡◌, refl, true, false, Option, none, some, List, [], ◌∷◌, NamespacedName,
  namespaced_name_comparable, text_comparable, GoError, text, ◌⊎◌, inr, ◌<>◌, arith,
}
use mac_os_vz_kubelet.Store.{SyncMap}
use mac_os_vz_kubelet.Store.Assoc.{assoc_map}
use mac_os_vz_kubelet.Docker.ContainerData.{
  ContainerInfo, InnerMap, no_info, load_container, store_container,
}
use mac_os_vz_kubelet.Docker.Names.{
  IsPlain, get_underlying_container_name, extract_namespaced_name, extract-get_underlying,
}
use mac_os_vz_kubelet.Docker.Creation.{
  ContainerParams, DockerStage, DockerCreation, pull_if_not_present, starting, done, start_returned,
  created, failed_to_start_container, docker_step, docker_stage, fail_with, fatal,
  docker_step-fatal,
}
use mac_os_vz_kubelet.Docker.Reports.{DockerState, DockerStats}
use mac_os_vz_kubelet.Common.{count, ◌==◌}
use mac_os_vz_kubelet.Docker.Configs.{Listed, new_docker_client}
use mac_os_vz_kubelet.Docker.Cleanup.{own_containers, new_docker_client_lem}

abbrev inner : InnerMap
inner = assoc_map

abbrev table : SyncMap NamespacedName inner.Map
table = assoc_map

abbrev key : String → NamespacedName
key name = record { namespace = "default"; name = name }

abbrev running_info : ContainerInfo
running_info = record { id = "c1"; err = none }

abbrev pods : table.Map
pods = (key "a", ("redis", running_info) ∷ ("proxy", no_info) ∷ []) ∷ []

default-IsPlain : IsPlain "default"
default-IsPlain = ground arith

web-IsPlain : IsPlain "web-0"
web-IsPlain = ground arith

extract-get_underlying_example :
    extract_namespaced_name ("/" <> get_underlying_container_name "default" "web-0" "side_car")
    ≡ inr (record { namespace = "default"; name = "web-0" })
extract-get_underlying_example =
    extract-get_underlying "default" "web-0" "side_car" default-IsPlain web-IsPlain

abbrev params : ContainerParams
params = record {
  key = key "z";
  name = "redis";
  image = "redis:7";
  image_pull_policy = pull_if_not_present;
  post_start_action = none;
}

abbrev starting_redis : DockerCreation
starting_redis = record { stage = starting; info = record { id = "c9"; err = none }; events = [] }

abbrev cancelled : GoError
cancelled = text "context canceled"

abbrev revived : table.Map
revived =
    store_container inner table (key "z") "redis" (record { id = "c9"; err = some cancelled }) pods

-- The start of a container fails after its pod has been removed.
docker_step-fatal_example :
    ((e : GoError)
      → fatal (start_returned (some cancelled)) ≡ some e
      → (◌≡◌ {A = DockerStage} done done)
        × (load_container inner table (key "z") "redis" revived
            ≡ some (record { id = "c9"; err = some e })))
    × (fatal (start_returned (some cancelled)) ≡ none
        → (revived ≡ pods)
          ⊎ ((id : String) × (start_returned (some cancelled) ≡ created id)
              × (◌≡◌ {A = String} "c9" id)
              × (load_container inner table (key "z") "redis" revived
                  ≡ some (starting_redis.info))))
unfolding docker_step docker_stage fail_with
docker_step-fatal_example =
    docker_step-fatal inner table params (start_returned (some cancelled)) starting_redis
      (record starting_redis { stage = done; events = failed_to_start_container cancelled ∷ [] })
      pods revived refl

abbrev refuses : String → Option GoError
refuses id = some (text "device busy")

-- Docker sets both flags for a paused container.
abbrev paused : DockerState
paused = record {
  status = "paused";
  running = true;
  paused = true;
  restarting = false;
  oom_killed = false;
  dead = false;
  exit_code = 0;
  error = "";
  started_at = "";
  finished_at = "";
}

abbrev no_time : String → Option ℕ
no_time s = none

abbrev inspects : String → GoError ⊎ Option DockerState
inspects id = inr (some paused)

abbrev no_stats : String → Option ℕ
no_stats s = none

abbrev sample : DockerStats
sample = record {
  total_usage = 900;
  pre_total_usage = 400;
  system_usage = 5000;
  pre_system_usage = 3000;
  online_cpus = 4;
  percpu_count = 0;
  memory_usage = 700;
  memory_stats = no_stats;
}

abbrev quotient : ℕ → ℕ → ℕ → ℕ
quotient cpu sys cores = cpu + sys + cores

-- A container with two names of the kubelet's, and one with a name that has no underscore.
abbrev dangling : List Listed
dangling =
    record { id = "a1"; names = "/macos-vz_ci_build_main" ∷ "/macos-vz_ci_build_side" ∷ [] }
    ∷ record { id = "b2"; names = "/registry" ∷ [] }
    ∷ []

new_docker_client_lem_example :
    count (λ i. i == "a1") (new_docker_client true (λ o. inr dangling)).1
    ≡ own_containers (λ i. i == "a1") dangling
new_docker_client_lem_example = new_docker_client_lem (λ i. i == "a1") true (λ o. inr dangling)
