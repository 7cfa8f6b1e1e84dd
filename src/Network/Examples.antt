-- ===== src/Network/Examples.antt =====
-- The theorems on the network helpers at concrete addresses, lines and interfaces.
use mac_os_vz_kubelet.Common.{ℕ, ◌≡◌, refl, true, Option, none, some, List, [], ◌∷◌, arith}
use mac_os_vz_kubelet.Network.Text.{starts_with}
use mac_os_vz_kubelet.Network.Mac.{
  normalize_mac_address, hardware_string, arp_string, normalize-hardware_string,
}
use mac_os_vz_kubelet.Network.Interfaces.{
  Ip, InterfaceStat, get_active_interface, Found, get_active_interface-Found,
}

-- The address 02:1a:00:3c:4d:5e.
abbrev octets : List ℕ
octets = 2 ∷ 26 ∷ 0 ∷ 60 ∷ 77 ∷ 94 ∷ []

normalize-hardware_string_example :
    normalize_mac_address (hardware_string octets) ≡ arp_string octets
normalize-hardware_string_example =
    normalize-hardware_string 2 (26 ∷ 0 ∷ 60 ∷ 77 ∷ 94 ∷ [])
      (omega arith, (omega arith, (omega arith, (omega arith, (omega arith, (omega arith, tt))))))

-- The address 10.0, and a hardware address whose first octet is a2.
abbrev ten : List ℕ
ten = 48 ∷ 46 ∷ 48 ∷ []

-- An address is its own text, and that of the loopback is 127.
abbrev cidr : List ℕ → Option Ip
cidr [] = none
cidr (c ∷ cs) = some (record {
  is_v4 = true;
  is_loopback = starts_with (49 ∷ 50 ∷ 55 ∷ []) (c ∷ cs);
  printed = c ∷ cs;
})

abbrev lo0 : InterfaceStat
lo0 = record { name = 108 ∷ 111 ∷ []; addrs = [] ∷ (49 ∷ 50 ∷ 55 ∷ []) ∷ [] }

abbrev wlan0 : InterfaceStat
wlan0 = record { name = 119 ∷ 108 ∷ []; addrs = (49 ∷ 48 ∷ []) ∷ [] }

abbrev en0 : InterfaceStat
en0 = record { name = 101 ∷ 110 ∷ 48 ∷ []; addrs = (49 ∷ 57 ∷ []) ∷ [] }

get_active_interface-Found_example :
    Found cidr (lo0 ∷ wlan0 ∷ en0 ∷ []) (get_active_interface cidr (lo0 ∷ wlan0 ∷ en0 ∷ []))
get_active_interface-Found_example = get_active_interface-Found cidr (lo0 ∷ wlan0 ∷ en0 ∷ [])

active : get_active_interface cidr (lo0 ∷ wlan0 ∷ en0 ∷ []) ≡ some (49 ∷ 57 ∷ [])
unfolding get_active_interface
active = refl
