-- ===== src/Docker/Reports.antt =====
-- containerStateFromDockerState, getContainersWrapped and dockerContainerStats of
-- pkg/resourcemanager/docker.go. A time.Time is a number of nanoseconds, 0 being the zero time.
use mac_os_vz_kubelet.Common.{
  ℕ, ◌-◌, ◌+◌, ◌≤◌, ◌<◌, ◌%◌, ◌^◌, String, ◌≡◌, ◌↔◌, Bool, true, false, ◌&&◌, Option, none, some,
  List, map, GoError, error_text, if◌then◌else◌, ◌⊎◌, inl, inr, arith, ◌==◌, text_comparable,
  is_blank, ltb, leb, or_else, nat_eq,
}
use mac_os_vz_kubelet.Resource.Container.{Container, ContainerState, ContainerStatus}
use mac_os_vz_kubelet.Docker.ContainerData.{ContainerInfo}

-- types.ContainerState of the Docker client, the fields that are read.
pub record DockerState : Type 0 where
  pub status : String
  pub running : Bool
  pub paused : Bool
  pub restarting : Bool
  pub oom_killed : Bool
  pub dead : Bool
  pub exit_code : ℕ
  pub error : String
  pub started_at : String
  pub finished_at : String

unfoldable pub docker_status : DockerState → ContainerStatus
docker_status s =
    if s.running
    then ContainerStatus.running
    else if s.paused
    then ContainerStatus.paused
    else if s.restarting
    then ContainerStatus.restarting
    else if s.oom_killed
    then ContainerStatus.oom_killed
    else if s.dead
    then ContainerStatus.dead
    else if s.status == "created"
    then ContainerStatus.created
    else ContainerStatus.unknown

abbrev pub no_times : ContainerStatus → String → ContainerState
no_times status error = record {
  status = status;
  started_at = 0;
  finished_at = 0;
  exit_code = 0;
  error = error;
}

-- `parse_time` is time.Parse with the layout RFC3339.
module _ (parse_time : String → Option ℕ) where
  unfoldable pub container_state_from_docker_state : Option DockerState → ContainerState
  unfolding docker_status
  container_state_from_docker_state none = no_times ContainerStatus.unknown ""
  container_state_from_docker_state (some s) = record {
    status = docker_status s;
    started_at = or_else (parse_time s.started_at) 0;
    finished_at = or_else (parse_time s.finished_at) 0;
    exit_code = s.exit_code;
    error = s.error;
  }

  -- The body of the loop, where `inspect` is ContainerInspect of the Docker client.
  unfoldable pub wrap_container :
      (String → GoError ⊎ Option DockerState) → String × ContainerInfo → Container
  wrap_container inspect (name, info) = record {
    id = info.id;
    name = name;
    state = elim info.err [
      | some e ↦ no_times ContainerStatus.waiting (error_text e)
      | none ↦
          if is_blank info.id then no_times ContainerStatus.waiting "" else elim (inspect info.id) [
            | inl e ↦ no_times ContainerStatus.waiting (error_text e)
            | inr s ↦ container_state_from_docker_state s
          ]
    ];
  }

  unfoldable pub get_containers_wrapped :
      (String → GoError ⊎ Option DockerState) → List (String × ContainerInfo) → List Container
  get_containers_wrapped inspect infos = map (wrap_container inspect) infos

  -- A container is reported running exactly if its creation has met no error, it has been created,
  -- and Docker says that it runs, paused or not. With an error of its creation or of the inspection
  -- it is reported waiting, and the error is told.
  wrap_container-running :
      (inspect : String → GoError ⊎ Option DockerState) (name : String) (info : ContainerInfo)
      → let c = wrap_container inspect (name, info) in
        ((c.state.status ≡ ContainerStatus.running) ↔ (
          (info.err ≡ none)
          × (is_blank info.id ≡ false)
          × ((s : DockerState) × (inspect info.id ≡ inr (some s)) × (s.running ≡ true))))
        × ((e : GoError)
            → (info.err ≡ some e)
              ⊎ ((info.err ≡ none) × (is_blank info.id ≡ false) × (inspect info.id ≡ inl e))
            → (c.state.status ≡ ContainerStatus.waiting) × (c.state.error ≡ error_text e))
  unfolding wrap_container container_state_from_docker_state docker_status
  wrap_container-running inspect name info = (ground arith, λ e h. ground arith)

-- What is read of types.StatsJSON; the memory statistics are a map.
pub record DockerStats : Type 0 where
  pub total_usage : ℕ
  pub pre_total_usage : ℕ
  pub system_usage : ℕ
  pub pre_system_usage : ℕ
  pub online_cpus : ℕ
  pub percpu_count : ℕ
  pub memory_usage : ℕ
  pub memory_stats : String → Option ℕ

pub record StatsReport : Type 0 where
  pub usage_nano_cores : Option ℕ
  pub usage_core_nano_seconds : ℕ
  pub usage_bytes : ℕ
  pub working_set_bytes : ℕ
  pub rss_bytes : ℕ

-- A map read with a second key for the first that is absent.
abbrev pub stat_of : (String → Option ℕ) → String → String → ℕ
stat_of stats key other = or_else (stats key) (or_else (stats other) 0)

-- The conversion of len to uint32.
abbrev pub cpus_of : DockerStats → ℕ
cpus_of s = if nat_eq s.online_cpus 0 then s.percpu_count % 2 ^ 32 else s.online_cpus

-- `rate` is the quotient in float64 and its conversion: of the two deltas and the number of cores.
module _ (rate : ℕ → ℕ → ℕ → ℕ) where
  unfoldable pub docker_container_stats : DockerStats → StatsReport
  docker_container_stats s = record {
    usage_nano_cores =
        if leb s.pre_total_usage s.total_usage
          && (ltb s.pre_system_usage s.system_usage && ltb 0 (cpus_of s))
        then some (
            rate (s.total_usage - s.pre_total_usage) (s.system_usage - s.pre_system_usage)
              (cpus_of s))
        else none;
    usage_core_nano_seconds = s.total_usage;
    usage_bytes = s.memory_usage;
    working_set_bytes =
        let inactive = stat_of s.memory_stats "inactive_file" "total_inactive_file" in
        if leb inactive s.memory_usage then s.memory_usage - inactive else 0;
    rss_bytes = stat_of s.memory_stats "anon" "rss";
  }

  -- The statistics of a container give a rate exactly if its cumulative counter has not gone back,
  -- the counter of the system has grown, and a core is known; the rate is then of deltas that have
  -- not wrapped. The working set is never more than the usage, and the inactive file pages are the
  -- rest of it, unless they exceed it: then the working set is 0.
  docker_container_stats_lem :
      (s : DockerStats)
      → let r = docker_container_stats s in
        let inactive = stat_of s.memory_stats "inactive_file" "total_inactive_file" in
        ((n : ℕ)
          → (r.usage_nano_cores ≡ some n) ↔ (
              (cpu : ℕ) × (sys : ℕ) × (s.total_usage ≡ s.pre_total_usage + cpu)
              × (s.system_usage ≡ s.pre_system_usage + sys)
              × (0 < sys)
              × (0 < cpus_of s)
              × (n ≡ rate cpu sys (cpus_of s))))
        × (r.working_set_bytes ≤ r.usage_bytes)
        × ((inactive ≤ r.usage_bytes → r.working_set_bytes + inactive ≡ r.usage_bytes)
            × (r.usage_bytes < inactive → r.working_set_bytes ≡ 0))
  unfolding docker_container_stats
  docker_container_stats_lem s = (
    λ n. (
      λ h. (
        s.total_usage - s.pre_total_usage,
        s.system_usage - s.pre_system_usage,
        ground arith,
        ground arith,
        ground arith,
        ground arith,
        ground arith,
      ),
      λ (cpu, sys, e, f, pos, cores, g).
          let c : s.total_usage - s.pre_total_usage ≡ cpu = omega arith in
          let d : s.system_usage - s.pre_system_usage ≡ sys = omega arith in ground arith,
    ),
    ground arith,
    (ground arith, ground arith),
  )
