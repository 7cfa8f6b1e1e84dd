-- ===== src/Metrics/Examples.antt =====
-- The theorem on the scrape at three pods: one that fails again, one that recovers, one that is gone.
use mac_os_vz_kubelet.Common.{
  String, ◌≡◌, true, false, not, ◌&&◌, ◌||◌, Option, none, List, [], ◌∷◌, map, any, is_some, ◌==◌,
  text_comparable, if◌then◌else◌, GoError, text, canceled, ◌⊎◌, inl, inr,
}
use mac_os_vz_kubelet.Metrics.{
  StatsPod, PodStats, Scrape, scrape_pod, is_cancelled, is_in, get_stats_summary,
}
use mac_os_vz_kubelet.Metrics.Edges.{
  is_failing_line, is_recovered_line, is_failed, is_scraped, get_stats_summary_lem,
}

abbrev pod : String → StatsPod
pod uid = record { uid = uid; is_running = true; creation_timestamp = 4 }

abbrev pods : List StatsPod
pods = pod "a" ∷ pod "b" ∷ []

abbrev scrape : Scrape
scrape = record {
  ended_before = λ p. false;
  ended_after = λ p. false;
  stats = λ p. if p.uid == "a" then inl (text "dial timeout") else inr [];
}

abbrev before : List String
before = "a" ∷ "b" ∷ "c" ∷ []

abbrev list_err : Option GoError
list_err = none

get_stats_summary_lem_example :
    let r = get_stats_summary canceled false (pods, list_err) scrape before in
    let slots = map (scrape_pod scrape) pods in
    ((false || any is_cancelled slots ≡ true)
      × ((e : GoError) × (r.0 ≡ inl e))
      × (r.1 ≡ [])
      × (r.2 ≡ before))
    ⊎ ((false || any is_cancelled slots ≡ false)
        × ((ps : List PodStats) × (r.0 ≡ inr ps))
        × (any (is_failing_line "b") r.1 ≡ (any (is_failed "b") slots && not (is_in "b" before)))
        × (any (is_recovered_line "b") r.1 ≡ (any (is_scraped "b") slots && is_in "b" before))
        × (is_in "b" r.2
            ≡ (if is_some list_err then is_in "b" before else any (is_failed "b") slots)))
get_stats_summary_lem_example = get_stats_summary_lem canceled false pods list_err scrape before "b"
