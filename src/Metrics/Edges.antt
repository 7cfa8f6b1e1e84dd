-- ===== src/Metrics/Edges.antt =====
-- What one scrape logs, and what it keeps.
use mac_os_vz_kubelet.Common.{
  String, ◌==◌, text_comparable, ◌≡◌, refl, ap, Bool, true, false, not, ◌&&◌, ◌||◌, Option, List,
  [], ◌∷◌, map, any, is_some, if◌then◌else◌, GoError, wrap, ◌⊎◌, inl, inr, arith, Bool-cases,
}
use mac_os_vz_kubelet.Metrics.{
  Slot, skipped, cancelled, failed, scraped, Line, recovered, failing, Scrape, StatsPod, PodStats,
  scrape_pod, is_cancelled, is_in, consume_slot, consume, get_stats_summary,
}

abbrev pub is_failing_line : String → Line → Bool
is_failing_line uid (failing u) = u == uid
is_failing_line uid (recovered u) = false

abbrev pub is_recovered_line : String → Line → Bool
is_recovered_line uid (failing u) = false
is_recovered_line uid (recovered u) = u == uid

abbrev pub is_failed : String → Slot → Bool
is_failed uid (failed u) = u == uid
is_failed uid _ = false

abbrev pub is_scraped : String → Slot → Bool
is_scraped uid (scraped u st) = u == uid
is_scraped uid _ = false

consume_lem :
    (before : List String) (uid : String) (slots : List Slot)
    → let o = consume before slots in
      (any (is_failing_line uid) o.lines ≡ (any (is_failed uid) slots && not (is_in uid before)))
      × (any (is_recovered_line uid) o.lines ≡ (any (is_scraped uid) slots && is_in uid before))
      × (is_in uid o.failing_pods ≡ any (is_failed uid) slots)
unfolding consume consume_slot
consume_lem before uid [] = (ground arith, ground arith, ground arith)
consume_lem before uid (skipped ∷ slots) = consume_lem before uid slots
consume_lem before uid (cancelled ∷ slots) = consume_lem before uid slots
consume_lem before uid (failed u ∷ slots) =
    let (h, k, l) = consume_lem before uid slots in
    let same : u ≡ uid → is_in u before ≡ is_in uid before = λ q. ap (λ x. is_in x before) q in
    let q = text_comparable.same_iff u uid in
    (ground (arith, h, same, q), ground (arith, k), ground (arith, l))
consume_lem before uid (scraped u st ∷ slots) =
    let (h, k, l) = consume_lem before uid slots in
    let same : u ≡ uid → is_in u before ≡ is_in uid before = λ q. ap (λ x. is_in x before) q in
    let q = text_comparable.same_iff u uid in (ground (arith, h), ground (arith, k, same, q), l)

-- A scrape that is not cancelled logs a failure of a pod exactly where its scrape fails now and the
-- set did not have it, and a recovery exactly where it succeeds now and the set had it; the set then
-- has the pods that fail now, so that the others leave it, unless the list of the pods failed, when
-- it stays as it was. A scrape that is cancelled, for one of the pods or as a whole, logs nothing,
-- keeps the set, and returns an error.
pub get_stats_summary_lem :
    (ctx_err : GoError) (ended : Bool) (listed : List StatsPod) (list_err : Option GoError)
    (s : Scrape) (before : List String) (uid : String)
    → let r = get_stats_summary ctx_err ended (listed, list_err) s before in
      let slots = map (scrape_pod s) listed in
      ((ended || any is_cancelled slots ≡ true)
        × ((e : GoError) × (r.0 ≡ inl e))
        × (r.1 ≡ [])
        × (r.2 ≡ before))
      ⊎ ((ended || any is_cancelled slots ≡ false)
          × ((ps : List PodStats) × (r.0 ≡ inr ps))
          × (any (is_failing_line uid) r.1 ≡ (any (is_failed uid) slots && not (is_in uid before)))
          × (any (is_recovered_line uid) r.1 ≡ (any (is_scraped uid) slots && is_in uid before))
          × (is_in uid r.2
              ≡ (if is_some list_err then is_in uid before else any (is_failed uid) slots)))
unfolding get_stats_summary
get_stats_summary_lem ctx_err true listed list_err s before uid =
    inl (refl, (ctx_err, refl), refl, refl)
get_stats_summary_lem ctx_err false listed list_err s before uid =
    let slots = map (scrape_pod s) listed in
    let (h, k, l) = consume_lem before uid slots in
    elim (Bool-cases (any is_cancelled slots)) [
      | inl e ↦ inl (
        e,
        (wrap "failed to get stats for all pods" ctx_err, ground (arith, e)),
        ground (arith, e),
        ground (arith, e),
      )
      | inr e ↦ inr (
        e,
        ((consume before slots).pods, ground (arith, e)),
        ground (arith, e, h),
        ground (arith, e, k),
        ground (arith, e, l),
      )
    ]
