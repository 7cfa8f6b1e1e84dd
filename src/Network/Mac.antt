-- ===== src/Network/Mac.antt =====
-- internal/netutil/mac.go.
use Prim.Native.Nat.{bit_and, bit_or}
use mac_os_vz_kubelet.Common.{
  ℕ, zero, suc, ◌+◌, ◌/◌, ◌%◌, ◌<◌, ◌≡◌, refl, ap, ◌∙◌, Bool, true, ◌&&◌, List, [], ◌∷◌, map, ltb,
  nat_eq, nat_eq_iff, if◌then◌else◌, All, arith, and_parts, Bool-cases, inl, inr, ◌⊎◌, GoError,
  wrap, ltb→lt, subst,
}
use mac_os_vz_kubelet.Network.Text.{split, join_at, Lacks, split-join_at}

-- The characters ":" and "0".
abbrev pub colon : ℕ
colon = 58

abbrev pub digit_zero : ℕ
digit_zero = 48

abbrev pub drop_zero : List ℕ → List ℕ
drop_zero (a ∷ b ∷ []) = if nat_eq a digit_zero then b ∷ [] else a ∷ b ∷ []
drop_zero part = part

unfoldable pub normalize_mac_address : List ℕ → List ℕ
unfolding split join_at
normalize_mac_address mac = join_at colon (map drop_zero (split colon mac))

-- The first octet of a random address; the others stay as they are.
abbrev pub local_unicast : ℕ → ℕ
local_unicast b = bit_and (bit_or b 0x02) 0xfe

-- The six octets of an address from six random ones.
abbrev pub local_octets : List ℕ → List ℕ
local_octets [] = []
local_octets (b ∷ bs) = local_unicast b ∷ bs

abbrev pub hex_digit : ℕ → ℕ
hex_digit n = if ltb n 10 then 48 + n else 87 + n

-- What net.HardwareAddr.String prints of an octet, and what arp prints of it.
abbrev pub two_digits : ℕ → List ℕ
two_digits b = hex_digit (b / 16) ∷ hex_digit (b % 16) ∷ []

abbrev pub short_digits : ℕ → List ℕ
short_digits b = if ltb b 16 then hex_digit b ∷ [] else two_digits b

abbrev pub hardware_string : List ℕ → List ℕ
hardware_string octets = join_at colon (map two_digits octets)

-- The text of a random address, from the octets that rand.Read gives.
unfoldable pub generate_rand_mac : GoError ⊎ List ℕ → GoError ⊎ List ℕ
generate_rand_mac (inl e) = inl (wrap "unable to retrieve 6 rnd bytes" e)
generate_rand_mac (inr octets) = inr (hardware_string (local_octets octets))

abbrev pub arp_string : List ℕ → List ℕ
arp_string octets = join_at colon (map short_digits octets)

two_digits-Lacks : (b : ℕ) → b < 256 → Lacks colon (two_digits b)
two_digits-Lacks b h = ground arith

drop_zero-two_digits : (b : ℕ) → b < 256 → drop_zero (two_digits b) ≡ short_digits b
drop_zero-two_digits b h = ground arith

octets-Lacks : (bs : List ℕ) → All (λ b. b < 256) bs → All (Lacks colon) (map two_digits bs)
octets-Lacks [] h = tt
octets-Lacks (b ∷ bs) (h, k) = (two_digits-Lacks b h, octets-Lacks bs k)

drop_zero-octets :
    (bs : List ℕ) → All (λ b. b < 256) bs → map drop_zero (map two_digits bs) ≡ map short_digits bs
drop_zero-octets [] h = refl
drop_zero-octets (b ∷ bs) (h, k) = rw (drop_zero-two_digits b h, drop_zero-octets bs k) refl

-- The normal form of a printed hardware address is what arp prints of that address: each octet in
-- hexadecimal, without a leading zero.
pub normalize-hardware_string :
    (b : ℕ) (bs : List ℕ)
    → All (λ o. o < 256) (b ∷ bs)
    → normalize_mac_address (hardware_string (b ∷ bs)) ≡ arp_string (b ∷ bs)
unfolding normalize_mac_address
normalize-hardware_string b bs (h, k) =
    ap (λ ps. join_at colon (map drop_zero ps))
      (split-join_at colon (two_digits b) (map two_digits bs) (two_digits-Lacks b h)
        (octets-Lacks bs k))
    ∙ ap (join_at colon) (drop_zero-octets (b ∷ bs) (h, k))

-- The tests of a locally administered unicast octet, and of its higher bits.
abbrev is_local_unicast : ℕ → ℕ → Bool
is_local_unicast b o =
    nat_eq (o % 2) 0 && (nat_eq (o / 2 % 2) 1 && (nat_eq (o / 4) (b / 4) && ltb o 256))

abbrev all_below : (ℕ → Bool) → ℕ → Bool
all_below p zero = true
all_below p (suc n) = p n && all_below p n

all_below_lem : (p : ℕ → Bool) (n b : ℕ) → all_below p n ≡ true → b < n → p b ≡ true
all_below_lem p zero b h k = absurd (omega (arith, k))
all_below_lem p (suc n) b h k =
    let (q, r) = and_parts (p n) (all_below p n) h in
    elim (Bool-cases (ltb b n)) [
      | inl e ↦ all_below_lem p n b r (ltb→lt b n e)
      | inr e ↦ let same : n ≡ b = ground (arith, k, e) in subst (λ c. p c ≡ true) same q
    ]

octet_lem : (b : ℕ) → b < 256 → is_local_unicast b (local_unicast b) ≡ true
octet_lem b h = all_below_lem (λ o. is_local_unicast o (local_unicast o)) 256 b refl h

-- A random address, from any six random octets, is one that is locally administered and of a single
-- host: the second bit of its first octet is set and the first is clear; all other bits are random.
pub local_octets_lem :
    (b : ℕ) (bs : List ℕ)
    → b < 256
    → (o : ℕ) × (local_octets (b ∷ bs) ≡ o ∷ bs)
      × (o % 2 ≡ 0)
      × (o / 2 % 2 ≡ 1)
      × (o / 4 ≡ b / 4)
      × (o < 256)
local_octets_lem b bs h =
    let o = local_unicast b in
    let (p, r) =
      and_parts (nat_eq (o % 2) 0) (nat_eq (o / 2 % 2) 1 && (nat_eq (o / 4) (b / 4) && ltb o 256))
        (octet_lem b h) in
    let (q, s) = and_parts (nat_eq (o / 2 % 2) 1) (nat_eq (o / 4) (b / 4) && ltb o 256) r in
    let (t, u) = and_parts (nat_eq (o / 4) (b / 4)) (ltb o 256) s in
    (
      o,
      refl,
      (nat_eq_iff (o % 2) 0).0 p,
      (nat_eq_iff (o / 2 % 2) 1).0 q,
      (nat_eq_iff (o / 4) (b / 4)).0 t,
      ltb→lt o 256 u,
    )
