-- ===== src/Downloader/Examples.antt =====
-- The theorems on the shared download at worlds of two goroutines.
use mac_os_vz_kubelet.Common.{ℕ, ◌<◌, ◌≡◌, ◌↔◌, refl, true, none, arith}
use mac_os_vz_kubelet.Downloader.{
  outside, waiting, leaving, removing, World, act, step, Reach, start, stepped, new_state,
}
use mac_os_vz_kubelet.Downloader.Counting.{subscribers, Reach-subscribers}
use mac_os_vz_kubelet.Downloader.Race.{IsBetween, overlap, overlap-cancels}

abbrev first : World
first = record { current = none; next = 0; states = λ s. new_state; places = λ i. outside }

-- The first goroutine subscribes, its context ends, and it stands at its deferred function.
abbrev about_to_leave : World
about_to_leave = step 0 (step 0 (step 0 (step 0 first)))

abbrev left : World
left = step 0 about_to_leave

about_to_leave-Reach : Reach 2 about_to_leave
about_to_leave-Reach =
    stepped 0 (stepped 0 (stepped 0 (stepped 0 start (omega arith)) (omega arith)) (omega arith))
      (omega arith)

Reach-subscribers_example :
    ((s : ℕ) → (about_to_leave.states s).subscribers ≡ subscribers 2 s about_to_leave)
    × ((i s : ℕ)
        → i < 2
        → about_to_leave.places i ≡ leaving s
        → (0 < (about_to_leave.states s).subscribers)
          × (((step i about_to_leave).places i ≡ removing s)
              ↔ (subscribers 2 s about_to_leave ≡ 1)))
Reach-subscribers_example = Reach-subscribers 2 about_to_leave-Reach

left-IsBetween : IsBetween 0 1 0 left
unfolding step act
left-IsBetween = record {
  about_to_remove = refl;
  not_called = refl;
  differ = λ e. absurd (omega arith);
  still_current = refl;
}

overlap-cancels_example :
    ((overlap 0 1 left).places 1 ≡ waiting 0)
    × (((overlap 0 1 left).states 0).cancelled ≡ true)
    × (((overlap 0 1 left).states 0).finished ≡ (left.states 0).finished)
    × ((overlap 0 1 left).current ≡ none)
    × ((k : ℕ) → Reach k left → 0 < k → 1 < k → Reach k (overlap 0 1 left))
overlap-cancels_example = overlap-cancels 0 1 0 left left-IsBetween
