-- ===== src/Docker/Creation.antt =====
-- CreateContainer and handleDockerContainerCreation of pkg/resourcemanager/docker.go: the goroutine
-- of a creation, run up to the next call of the Docker client, with the outcome of the call it was
-- at. Between two steps any other goroutine may change the table.
use mac_os_vz_kubelet.Common.{
  String, ◌<>◌, ◌≡◌, refl, Option, none, some, List, [], ◌∷◌, NamespacedName,
  namespaced_name_comparable, text_comparable, GoError, invalid_input, text, if◌then◌else◌, ◌⊎◌,
  inl, inr, arith, same_refl,
}
use mac_os_vz_kubelet.Store.{SyncMap}
use mac_os_vz_kubelet.MacosClient.Creation.{ExecAction}
use mac_os_vz_kubelet.Docker.ContainerData.{
  ContainerInfo, no_info, with_id, with_error, InnerMap, load_container, store_container,
  load_or_store_container, load_container-store_container,
}

pub data PullPolicy : Type 0 where
  pull_always pull_if_not_present pull_never : PullPolicy
  other_policy : String → PullPolicy

-- ContainerParams, less what is only handed on to the Docker client.
pub record ContainerParams : Type 0 where
  pub key : NamespacedName
  pub name : String
  pub image : String
  pub image_pull_policy : PullPolicy
  pub post_start_action : Option ExecAction

-- The calls of the event recorder.
pub data DockerEvent : Type 0 where
  pulling_image pulled_image created_container started_container : DockerEvent
  back_off_pull_image failed_to_create_container : GoError → DockerEvent
  failed_to_start_container failed_post_start_hook : GoError → DockerEvent

pub data DockerStage : Type 0 where
  pulling creating starting hooking done : DockerStage

-- How the call ended that a stage is at.
pub data DockerOutcome : Type 0 where
  pulled start_returned hook_returned : Option GoError → DockerOutcome
  create_failed : GoError → DockerOutcome
  created : String → DockerOutcome

-- `info` is the local containerInfo. The recorded events stand latest first.
pub record DockerCreation : Type 0 where
  pub stage : DockerStage
  pub info : ContainerInfo
  pub events : List DockerEvent

-- The `switch` over the pull policy, up to the first call whose outcome is used.
abbrev pub new_creation : ContainerParams → DockerCreation
new_creation p = elim p.image_pull_policy [
  | pull_never ↦ record { stage = creating; info = no_info; events = [] }
  | other_policy _ ↦ record { stage = creating; info = no_info; events = [] }
  | _ ↦ record { stage = pulling; info = no_info; events = pulling_image ∷ [] }
]

abbrev pub reach_stage : DockerStage → DockerEvent → DockerCreation → DockerCreation
reach_stage stage e g = record g { stage = stage; events = e ∷ g.events }

abbrev pub after_start : Option ExecAction → DockerStage
after_start none = done
after_start (some _) = hooking

-- The error that a step gives up with.
abbrev pub fatal : DockerOutcome → Option GoError
fatal (pulled e) = e
fatal (create_failed e) = some e
fatal (start_returned e) = e
fatal _ = none

module _ (i : InnerMap) (m : SyncMap NamespacedName i.Map) where
  unfoldable pub create_container : ContainerParams → m.Map → (GoError ⊎ DockerCreation) × m.Map
  create_container p d =
      let (loaded, d') = load_or_store_container i m p.key p.name no_info d in
      if loaded
      then (inl (invalid_input (text ("container " <> p.name <> " already exists"))), d')
      else (inr (new_creation p), d')

  -- The end of the goroutine on an error, with its deferred function.
  unfoldable pub fail_with :
      ContainerParams → GoError → DockerEvent → DockerCreation → m.Map → DockerCreation × m.Map
  fail_with p e event g d =
      (reach_stage done event g, store_container i m p.key p.name (with_error e g.info) d)

  unfoldable pub docker_stage :
      ContainerParams
      → DockerStage
      → DockerOutcome
      → DockerCreation
      → m.Map
      → Option (DockerCreation × m.Map)
  unfolding fail_with
  docker_stage p pulling (pulled none) g d = some (reach_stage creating pulled_image g, d)
  docker_stage p pulling (pulled (some e)) g d = some (fail_with p e (back_off_pull_image e) g d)
  docker_stage p creating (create_failed e) g d =
      some (fail_with p e (failed_to_create_container e) g d)
  docker_stage p creating (created id) g d =
      let info = with_id id g.info in
      some (
        record (reach_stage starting created_container g) { info = info },
        store_container i m p.key p.name info d,
      )
  docker_stage p starting (start_returned (some e)) g d =
      some (fail_with p e (failed_to_start_container e) g d)
  docker_stage p starting (start_returned none) g d =
      some (reach_stage (after_start p.post_start_action) started_container g, d)
  docker_stage p hooking (hook_returned (some e)) g d =
      some (reach_stage done (failed_post_start_hook e) g, d)
  docker_stage p hooking (hook_returned none) g d = some (record g { stage = done }, d)
  docker_stage p _ _ g d = none

  unfoldable pub docker_step :
      ContainerParams → DockerOutcome → DockerCreation → m.Map → Option (DockerCreation × m.Map)
  unfolding docker_stage
  docker_step p o g d = docker_stage p g.stage o g d

  stored_container :
      (p : ContainerParams) (info : ContainerInfo) (d : m.Map)
      → load_container i m p.key p.name (store_container i m p.key p.name info d) ≡ some info
  stored_container p info d =
      rw
        (
          load_container-store_container i m p.key p.key p.name p.name info d,
          same_refl p.key,
          same_refl p.name,
        )
        refl

  -- A creation that gives up with an error stores its entry with that error, whether or not the
  -- entry was still in the table: so also where the containers of the pod have been removed while
  -- the call ran. A step that does not give up stores an entry only when it creates the container.
  pub docker_step-fatal :
      (p : ContainerParams) (o : DockerOutcome) (g g' : DockerCreation) (d d' : m.Map)
      → docker_step p o g d ≡ some (g', d')
      → ((e : GoError)
          → fatal o ≡ some e
          → (g'.stage ≡ done)
            × (load_container i m p.key p.name d' ≡ some (record g.info { err = some e })))
        × (fatal o ≡ none
            → (d' ≡ d)
              ⊎ ((id : String) × (o ≡ created id)
                  × (g'.info.id ≡ id)
                  × (load_container i m p.key p.name d' ≡ some g'.info)))
  unfolding docker_step docker_stage fail_with
  docker_step-fatal p (pulled none) g g' d d' h = ground arith
  docker_step-fatal p (pulled (some e)) g g' d d' h =
      ground (arith, stored_container p (with_error e g.info) d)
  docker_step-fatal p (start_returned none) g g' d d' h = ground arith
  docker_step-fatal p (start_returned (some e)) g g' d d' h =
      ground (arith, stored_container p (with_error e g.info) d)
  docker_step-fatal p (hook_returned e) g g' d d' h = ground arith
  docker_step-fatal p (create_failed e) g g' d d' h =
      ground (arith, stored_container p (with_error e g.info) d)
  docker_step-fatal p (created id) g g' d d' h =
      ground (arith, stored_container p (with_id id g.info) d)
