-- ===== src/GuestConfig/Examples.antt =====
-- The theorem on host names at a pod whose name has a dot and a quote.
use mac_os_vz_kubelet.Common.{ℕ, ◌≤◌, ◌≡◌, refl, true, false, List, [], ◌∷◌, all, length, nat_eq}
use mac_os_vz_kubelet.GuestConfig.{is_allowed, host_name}
use mac_os_vz_kubelet.GuestConfig.HostName.{host_name_lem}

abbrev digits : List ℕ → List ℕ
digits text = 48 ∷ 97 ∷ 49 ∷ 98 ∷ 50 ∷ 99 ∷ 51 ∷ 100 ∷ 52 ∷ []

-- The texts "ci" and ".a'b-".
abbrev namespace : List ℕ
namespace = 99 ∷ 105 ∷ []

abbrev pod : List ℕ
pod = 46 ∷ 97 ∷ 39 ∷ 98 ∷ 45 ∷ []

host_name_lem_example :
    (all is_allowed (host_name digits namespace pod) ≡ true)
    × (length (host_name digits namespace pod) ≤ 63)
    × ((c : ℕ) × (rest : List ℕ) × (host_name digits namespace pod ≡ c ∷ rest)
        × (nat_eq c 45 ≡ false))
host_name_lem_example = host_name_lem digits namespace pod refl

-- The text "a-b-0a1b2c3d".
host_name_test :
    host_name digits namespace pod ≡ 97 ∷ 45 ∷ 98 ∷ 45 ∷ 48 ∷ 97 ∷ 49 ∷ 98 ∷ 50 ∷ 99 ∷ 51 ∷ 100 ∷ []
unfolding host_name
host_name_test = refl
