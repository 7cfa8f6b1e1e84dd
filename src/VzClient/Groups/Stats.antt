-- ===== src/VzClient/Groups/Stats.antt =====
-- When GetVirtualizationGroupStats gives its statistics, and for which containers.
use mac_os_vz_kubelet.Common.{
  ◌≡◌, ◌↔◌, refl, Option, none, some, List, [], ◌∷◌, GoError, String, arith, Sum-cases, ◌⊎◌, inl,
  inr,
}
use mac_os_vz_kubelet.VzClient.Groups.{
  sidecar_stats, get_virtualization_group_stats, stats_after_vm,
}

module _ {S : Type 0} (rename : String → S → S) where
  -- The statistics are those of the containers, in order.
  abbrev pub AreStatsOf : (String → GoError ⊎ S) → List String → List S → Type 0
  AreStatsOf stats_of [] [] = Unit
  AreStatsOf stats_of (n ∷ ns) (s ∷ ss) = (stats_of n ≡ inr s) × AreStatsOf stats_of ns ss
  AreStatsOf stats_of _ _ = ⊥

  pub sidecar_stats-AreStatsOf :
      (stats_of : String → GoError ⊎ S) (names : List String) (ss : List S)
      → (sidecar_stats rename stats_of names ≡ inr ss) ↔ AreStatsOf stats_of names ss
  unfolding sidecar_stats
  sidecar_stats-AreStatsOf stats_of [] [] = ground arith
  sidecar_stats-AreStatsOf stats_of [] (s ∷ ss) = ground arith
  sidecar_stats-AreStatsOf stats_of (n ∷ ns) [] = ground arith
  sidecar_stats-AreStatsOf stats_of (n ∷ ns) (s ∷ ss) =
      ground (arith, sidecar_stats-AreStatsOf stats_of ns ss)

  -- What the sidecars give; without a containers' client there must be none.
  abbrev pub SidecarsGive : Option (String → GoError ⊎ S) → List String → List S → Type 0
  SidecarsGive none names ss = (names ≡ []) × (ss ≡ [])
  SidecarsGive (some stats_of) names ss = AreStatsOf stats_of names ss

  -- GetVirtualizationGroupStats gives a list exactly if the virtual machine and every sidecar give
  -- statistics; then it is those of the virtual machine, renamed to the first container, and those
  -- of the sidecars in the order of the pod. A pod with sidecars needs the containers' client.
  get_virtualization_group_stats_lem :
      (vm : GoError ⊎ S) (name : String) (names : List String)
      (client : Option (String → GoError ⊎ S)) (r : List S)
      → (get_virtualization_group_stats rename vm name names client ≡ inr r) ↔ (
          (s : S) × (ss : List S) × (vm ≡ inr s)
          × (r ≡ rename name s ∷ ss)
          × SidecarsGive client names ss)
  unfolding get_virtualization_group_stats stats_after_vm
  get_virtualization_group_stats_lem (inl e) name names client r = ground arith
  get_virtualization_group_stats_lem (inr s) name [] none r = ground arith
  get_virtualization_group_stats_lem (inr s) name (n ∷ ns) none r = ground arith
  get_virtualization_group_stats_lem (inr s) name [] (some stats_of) r = (
    ground arith,
    λ (x, ss, p, q, a). let f = (sidecar_stats-AreStatsOf stats_of [] ss).1 a in ground arith,
  )
  get_virtualization_group_stats_lem (inr s) name (n ∷ ns) (some stats_of) r = (
    λ h. elim (Sum-cases (sidecar_stats rename stats_of (n ∷ ns))) [
      | inl (e, q) ↦ ground arith
      | inr (ss, q) ↦
          (s, ss, refl, ground arith, (sidecar_stats-AreStatsOf stats_of (n ∷ ns) ss).0 q)
    ],
    λ (x, ss, p, q, a). let f = (sidecar_stats-AreStatsOf stats_of (n ∷ ns) ss).1 a in ground arith,
  )
