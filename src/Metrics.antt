-- ===== src/Metrics.antt =====
-- GetStatsSummary of pkg/metrics/metrics.go: one scrape of the statistics of all pods, and the set of
-- the pods whose scrape fails, which it keeps for the next one.
pub mod Edges
mod Examples
use mac_os_vz_kubelet.Common.{
  ℕ, String, ◌==◌, text_comparable, Bool, true, false, not, ◌&&◌, ◌||◌, Option, none, some, List,
  [], ◌∷◌, ◌++◌, map, any, is_some, nat_eq, if◌then◌else◌, GoError, wrap, ◌⊎◌, inl, inr,
}

-- A time of 0 is the zero time.
pub record ContainerStats : Type 0 where
  pub name : String
  pub start_time : ℕ

pub record StatsPod : Type 0 where
  pub uid : String
  pub is_running : Bool
  pub creation_timestamp : ℕ

pub record PodStats : Type 0 where
  pub uid : String
  pub start_time : ℕ
  pub containers : List ContainerStats

-- The outcome of one pod: a slot without a pod, an error that Wait returns, or the slot of a pod.
pub data Slot : Type 0 where
  skipped cancelled : Slot
  failed : String → Slot
  scraped : String → PodStats → Slot

-- The lines of the log at the edges.
pub data Line : Type 0 where
  recovered failing : String → Line

abbrev pub with_start : ℕ → ContainerStats → ContainerStats
with_start t c = if nat_eq c.start_time 0 then record c { start_time = t } else c

-- What the scrape meets: whether its context has ended when the goroutine of a pod starts and when
-- its call has failed, and what GetVirtualizationGroupStats returns.
pub record Scrape : Type 0 where
  pub ended_before : StatsPod → Bool
  pub ended_after : StatsPod → Bool
  pub stats : StatsPod → GoError ⊎ List ContainerStats

unfoldable pub scrape_pod : Scrape → StatsPod → Slot
scrape_pod s pod =
    if not pod.is_running
    then skipped
    else if s.ended_before pod
    then cancelled
    else elim (s.stats pod) [
      | inl e ↦ if s.ended_after pod then cancelled else failed pod.uid
      | inr cs ↦ scraped pod.uid (record {
        uid = pod.uid;
        start_time = pod.creation_timestamp;
        containers = map (with_start pod.creation_timestamp) cs;
      })
    ]

abbrev pub is_cancelled : Slot → Bool
is_cancelled cancelled = true
is_cancelled _ = false

-- What the loop over the slots makes.
pub record Outcome : Type 0 where
  pub pods : List PodStats
  pub failing_pods : List String
  pub lines : List Line

abbrev pub is_in : String → List String → Bool
is_in uid set = any (λ u. u == uid) set

-- The body for one slot; `before` is the set of the scrape before.
unfoldable pub consume_slot : List String → Slot → Outcome → Outcome
consume_slot before (scraped uid st) o = record o {
  pods = st ∷ o.pods;
  lines = if is_in uid before then recovered uid ∷ o.lines else o.lines;
}
consume_slot before (failed uid) o = record o {
  failing_pods = uid ∷ o.failing_pods;
  lines = if is_in uid before then o.lines else failing uid ∷ o.lines;
}
consume_slot before _ o = o

unfoldable pub consume : List String → List Slot → Outcome
unfolding consume_slot
consume before [] = record { pods = []; failing_pods = []; lines = [] }
consume before (s ∷ slots) = consume_slot before s (consume before slots)

-- `ctx_err` is the error of the context; `listed` what the lister gives. The result comes with the
-- lines and the set that is kept.
unfoldable pub get_stats_summary :
    GoError
    → Bool
    → List StatsPod × Option GoError
    → Scrape
    → List String
    → (GoError ⊎ List PodStats) × List Line × List String
unfolding scrape_pod consume
get_stats_summary ctx_err ended (listed, list_err) s before =
    let slots = map (scrape_pod s) listed in
    let o = consume before slots in
    if ended
    then (inl ctx_err, [], before)
    else if any is_cancelled slots
    then (inl (wrap "failed to get stats for all pods" ctx_err), [], before)
    else (inr o.pods, o.lines, if is_some list_err then before else o.failing_pods)
