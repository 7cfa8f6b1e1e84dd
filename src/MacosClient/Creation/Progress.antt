-- ===== src/MacosClient/Creation/Progress.antt =====
-- The goroutine of a creation ends, and what it tells and commits on the way, whatever other
-- goroutines do to the client between its steps.
use mac_os_vz_kubelet.Common.{
  ℕ, ◌<◌, ◌≤◌, ◌≡◌, ◌⊎◌, Bool, true, false, none, some, GoError, arith, count, ◌↔◌, Option-cases,
  inl, inr,
}
use mac_os_vz_kubelet.MacosClient.VmData.{VmMap}
use mac_os_vz_kubelet.MacosClient.Permits.{Client, Guard, release_guard}
use mac_os_vz_kubelet.MacosClient.Creation.{
  Stage, registering, downloading, waiting, claiming, building, starting, gating, releasing,
  finalizing, done, Outcome, Creation, VirtualMachineParams, Event, created_container,
  started_container, step, new_creation,
}

-- How many steps are left at most.
abbrev pub steps_left : Stage → ℕ
steps_left registering = 9
steps_left downloading = 8
steps_left waiting = 7
steps_left claiming = 6
steps_left building = 5
steps_left starting = 4
steps_left gating = 3
steps_left (releasing _) = 2
steps_left (finalizing _) = 1
steps_left done = 0

abbrev pub is_started : Event → Bool
is_started started_container = true
is_started _ = false

abbrev pub is_created : Event → Bool
is_created created_container = true
is_created _ = false

abbrev pub started : Creation → ℕ
started g = count is_started g.events

abbrev pub created : Creation → ℕ
created g = count is_created g.events

-- What holds of the goroutine between its steps.
pub record IsOrderly (g : Creation) : Type 0 where
  pub started_after_created : started g ≤ created g
  pub created_once : created g ≤ 1
  pub early : 4 < steps_left g.stage → created g ≡ 0
  pub is_starting : g.stage ≡ starting → (created g ≡ 1) × (started g ≡ 0)
  pub is_gating : g.stage ≡ gating → started g ≡ 1
  pub committed_iff : (g.guard.committed ≡ true) ↔ (started g ≡ 1)
  pub unreleased : 1 < steps_left g.stage → g.guard.released ≡ false

module _ (m : VmMap) (is_canceled : GoError → Bool) (p : VirtualMachineParams) (cancel : ℕ) where
  release_guard_committed :
      (g g' : Guard) (c c' : Client m)
      → release_guard m g c ≡ some (g', c')
      → g'.committed ≡ g.committed
  unfolding release_guard
  release_guard_committed g g' c c' e = ground arith

  release_guard_cases :
      (g : Guard) (c : Client m)
      → (release_guard m g c ≡ none)
        ⊎ ((x : Guard × Client m) × (release_guard m g c ≡ some x) × (x.0.committed ≡ g.committed))
  release_guard_cases g c = elim (Option-cases (release_guard m g c)) [
    | inl e ↦ inl e
    | inr (x, e) ↦ inr (x, e, release_guard_committed g x.0 c x.1 e)
  ]

  step-IsOrderly :
      (o : Outcome) (g g' : Creation) (c c' : Client m)
      → step m is_canceled p cancel o g c ≡ some (g', c')
      → IsOrderly g
      → IsOrderly g'
  unfolding step
  step-IsOrderly o g g' c c' e h = ground (arith, release_guard_cases g.guard c)

  -- A creation and the client, with the steps of the goroutine and any change by others.
  pub data Run : Creation → Client m → Type 0 where
    start : (c : Client m) → Run (new_creation p) c
    own :
        {g : Creation} {c : Client m} (o : Outcome) (g' : Creation) (c' : Client m)
        → Run g c
        → step m is_canceled p cancel o g c ≡ some (g', c')
        → Run g' c'
    others : {g : Creation} {c : Client m} (c' : Client m) → Run g c → Run g c'

  new_creation-IsOrderly : IsOrderly (new_creation p)
  new_creation-IsOrderly = ground arith

  pub Run-IsOrderly : {g : Creation} {c : Client m} → Run g c → IsOrderly g
  Run-IsOrderly (start c) = new_creation-IsOrderly
  Run-IsOrderly (own {g} {c} o g' c' r e) = step-IsOrderly o g g' c c' e (Run-IsOrderly r)
  Run-IsOrderly (others c' r) = Run-IsOrderly r

  -- Whatever the other goroutines do to the client in the meantime, a creation records
  -- CreatedContainer at most once, StartedContainer only after it and at most once, and its guard
  -- is committed exactly when StartedContainer is recorded.
  pub Run-events :
      {g : Creation} {c : Client m}
      → Run g c
      → (started g ≤ created g) × (created g ≤ 1) × ((g.guard.committed ≡ true) ↔ (started g ≡ 1))
  Run-events r =
      let h = Run-IsOrderly r in (h.started_after_created, h.created_once, h.committed_iff)
