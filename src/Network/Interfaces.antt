-- ===== src/Network/Interfaces.antt =====
-- internal/netutil/ifaces.go: the address of the active interface.
use mac_os_vz_kubelet.Common.{
  ℕ, ◌≡◌, refl, ap, ◌++◌, All, Option-cases, Bool-cases, subst, arith, sym, ◌∙◌, Bool, true, false,
  not, ◌&&◌, Option, none, some, List, [], ◌∷◌, if◌then◌else◌, ◌⊎◌, inl, inr,
}
use mac_os_vz_kubelet.Network.Text.{starts_with}

-- What net.ParseCIDR makes of an address: To4() != nil, IsLoopback() and String().
pub record Ip : Type 0 where
  pub is_v4 : Bool
  pub is_loopback : Bool
  pub printed : List ℕ

-- psnet.InterfaceStat
pub record InterfaceStat : Type 0 where
  pub name : List ℕ
  pub addrs : List (List ℕ)

-- "en"
abbrev pub is_ethernet : List ℕ → Bool
is_ethernet name = starts_with (101 ∷ 110 ∷ []) name

abbrev pub first_some : {A : Type 0} → Option A → Option A → Option A
first_some none b = b
first_some (some a) b = some a

module _ (parse_cidr : List ℕ → Option Ip) where
  abbrev pub valid_of : Option Ip → Option (List ℕ)
  valid_of none = none
  valid_of (some ip) = if ip.is_v4 && not ip.is_loopback then some ip.printed else none

  abbrev pub valid_address : List ℕ → Option (List ℕ)
  valid_address a = valid_of (parse_cidr a)

  abbrev pub find_in : List (List ℕ) → Option (List ℕ)
  find_in [] = none
  find_in (a ∷ rest) = first_some (valid_address a) (find_in rest)

  abbrev pub find_valid_ip : InterfaceStat → Option (List ℕ)
  find_valid_ip i = find_in i.addrs

  -- What one of the two passes takes of an interface: the first is over Ethernet interfaces.
  abbrev pub candidate : Bool → InterfaceStat → Option (List ℕ)
  candidate true i = if is_ethernet i.name then find_valid_ip i else none
  candidate false i = if not (is_ethernet i.name) then find_valid_ip i else none

  abbrev pub pass : Bool → List InterfaceStat → Option (List ℕ)
  pass ethernet [] = none
  pass ethernet (i ∷ rest) = first_some (candidate ethernet i) (pass ethernet rest)

  -- `none` is the error of the source.
  unfoldable pub get_active_interface : List InterfaceStat → Option (List ℕ)
  get_active_interface ifs = first_some (pass true ifs) (pass false ifs)

  -- An interface is the first that a pass takes.
  abbrev First : Bool → List InterfaceStat → List ℕ → Type 0
  First ethernet ifs ip =
      (before : List InterfaceStat) × (i : InterfaceStat) × (after : List InterfaceStat) × (ifs
        ≡ before ++ i ∷ after)
      × (candidate ethernet i ≡ some ip)
      × All (λ j. candidate ethernet j ≡ none) before

  pass-First :
      (e : Bool) (ifs : List InterfaceStat) (ip : List ℕ) → pass e ifs ≡ some ip → First e ifs ip
  pass-First e [] ip h = ground (arith, h)
  pass-First e (i ∷ rest) ip h = elim (Option-cases (candidate e i)) [
    | inl none_here ↦
        let (before, j, after, split, taken, refused) =
          pass-First e rest ip (subst (λ o. first_some o (pass e rest) ≡ some ip) none_here h) in
        (i ∷ before, j, after, ap (λ l. i ∷ l) split, taken, (none_here, refused))
    | inr (a, here) ↦
        ([], i, rest, refl, here ∙ subst (λ o. first_some o (pass e rest) ≡ some ip) here h, tt)
  ]

  pass-none :
      (e : Bool) (ifs : List InterfaceStat)
      → pass e ifs ≡ none
      → All (λ j. candidate e j ≡ none) ifs
  pass-none e [] h = tt
  pass-none e (i ∷ rest) h = elim (Option-cases (candidate e i)) [
    | inl none_here ↦
        (none_here, pass-none e rest (subst (λ o. first_some o (pass e rest) ≡ none) none_here h))
    | inr (a, here) ↦ ground (arith, subst (λ o. first_some o (pass e rest) ≡ none) here h)
  ]

  -- An address that net.ParseCIDR reads, of IPv4 and not of the loopback, as it is printed.
  abbrev pub IsValid : List ℕ → List ℕ → Type 0
  IsValid a ip =
      (read : Ip) × (parse_cidr a ≡ some read)
      × (read.is_v4 ≡ true)
      × (read.is_loopback ≡ false)
      × (read.printed ≡ ip)

  abbrev pub IsInvalid : List ℕ → Type 0
  IsInvalid a = (ip : List ℕ) → ¬ IsValid a ip

  -- The first valid one of the addresses of an interface.
  abbrev pub FirstValid : List (List ℕ) → List ℕ → Type 0
  FirstValid addrs ip =
      (before : List (List ℕ)) × (a : List ℕ) × (after : List (List ℕ)) × (addrs
        ≡ before ++ a ∷ after)
      × IsValid a ip
      × All IsInvalid before

  -- The name of the interface begins with "en", or it does not.
  abbrev pub IsEn : InterfaceStat → Type 0
  IsEn i = (rest : List ℕ) × (i.name ≡ 101 ∷ 110 ∷ rest)

  abbrev pub OfKind : Bool → InterfaceStat → Type 0
  OfKind true i = IsEn i
  OfKind false i = ¬ IsEn i

  -- No interface of a kind before has a valid address.
  abbrev pub HasNone : Bool → InterfaceStat → Type 0
  HasNone ethernet i = OfKind ethernet i → All IsInvalid i.addrs

  abbrev pub FirstOf : Bool → List InterfaceStat → List ℕ → Type 0
  FirstOf ethernet ifs ip =
      (before : List InterfaceStat) × (i : InterfaceStat) × (after : List InterfaceStat) × (ifs
        ≡ before ++ i ∷ after)
      × OfKind ethernet i
      × FirstValid i.addrs ip
      × All (HasNone ethernet) before

  abbrev pub Found : List InterfaceStat → Option (List ℕ) → Type 0
  Found ifs none = All (λ i. All IsInvalid i.addrs) ifs
  Found ifs (some ip) = FirstOf true ifs ip ⊎ (FirstOf false ifs ip × All (HasNone true) ifs)

  valid_address-some : (a ip : List ℕ) → valid_address a ≡ some ip → IsValid a ip
  valid_address-some a ip h = elim (Option-cases (parse_cidr a)) [
    | inl e ↦ cc (subst (λ o. valid_of o ≡ some ip) e h)
    | inr (read, e) ↦
        let k = subst (λ o. valid_of o ≡ some ip) e h in
        (read, e, ground (arith, k), ground (arith, k), ground (arith, k))
  ]

  valid_address-none : (a : List ℕ) → valid_address a ≡ none → IsInvalid a
  valid_address-none a h ip (read, e, v4, loop, same) =
      ground (arith, subst (λ o. valid_of o ≡ none) e h, v4, loop)

  find_in-FirstValid :
      (addrs : List (List ℕ)) (ip : List ℕ) → find_in addrs ≡ some ip → FirstValid addrs ip
  find_in-FirstValid [] ip h = ground (arith, h)
  find_in-FirstValid (a ∷ rest) ip h = elim (Option-cases (valid_address a)) [
    | inl e ↦
        let (before, b, after, split, valid, refused) =
          find_in-FirstValid rest ip (subst (λ o. first_some o (find_in rest) ≡ some ip) e h) in
        (a ∷ before, b, after, ap (λ l. a ∷ l) split, valid, (valid_address-none a e, refused))
    | inr (found, e) ↦ (
      [],
      a,
      rest,
      refl,
      valid_address-some a ip (e ∙ subst (λ o. first_some o (find_in rest) ≡ some ip) e h),
      tt,
    )
  ]

  find_in-none : (addrs : List (List ℕ)) → find_in addrs ≡ none → All IsInvalid addrs
  find_in-none [] h = tt
  find_in-none (a ∷ rest) h = elim (Option-cases (valid_address a)) [
    | inl e ↦ (
      valid_address-none a e,
      find_in-none rest (subst (λ o. first_some o (find_in rest) ≡ none) e h),
    )
    | inr (found, e) ↦ ground (arith, subst (λ o. first_some o (find_in rest) ≡ none) e h)
  ]

  is_ethernet-IsEn :
      (i : InterfaceStat) (name : List ℕ) → i.name ≡ name → is_ethernet name ≡ true → IsEn i
  is_ethernet-IsEn i [] e h = ground (arith, h)
  is_ethernet-IsEn i (c ∷ []) e h = ground (arith, h)
  is_ethernet-IsEn i (c ∷ d ∷ rest) e h = (rest, ground (arith, h, e))

  IsEn-is_ethernet : (i : InterfaceStat) → IsEn i → is_ethernet i.name ≡ true
  IsEn-is_ethernet i (rest, e) = ap is_ethernet e

  candidate-some :
      (kind : Bool) (i : InterfaceStat) (ip : List ℕ)
      → candidate kind i ≡ some ip
      → OfKind kind i × FirstValid i.addrs ip
  candidate-some true i ip h = elim (Bool-cases (is_ethernet i.name)) [
    | inl e ↦
        (is_ethernet-IsEn i i.name refl e, find_in-FirstValid i.addrs ip (ground (arith, e, h)))
    | inr e ↦ ground (arith, e, h)
  ]
  candidate-some false i ip h = elim (Bool-cases (is_ethernet i.name)) [
    | inl e ↦ ground (arith, e, h)
    | inr e ↦
        (λ en. cc (IsEn-is_ethernet i en), find_in-FirstValid i.addrs ip (ground (arith, e, h)))
  ]

  candidate-none : (kind : Bool) (i : InterfaceStat) → candidate kind i ≡ none → HasNone kind i
  candidate-none true i h en = find_in-none i.addrs (ground (arith, IsEn-is_ethernet i en, h))
  candidate-none false i h other = elim (Bool-cases (is_ethernet i.name)) [
    | inl e ↦ absurd (other (is_ethernet-IsEn i i.name refl e))
    | inr e ↦ find_in-none i.addrs (ground (arith, e, h))
  ]

  All-candidate :
      (kind : Bool) (ifs : List InterfaceStat)
      → All (λ j. candidate kind j ≡ none) ifs
      → All (HasNone kind) ifs
  All-candidate kind [] h = tt
  All-candidate kind (i ∷ ifs) (h, k) = (candidate-none kind i h, All-candidate kind ifs k)

  lacks_addresses :
      (ifs : List InterfaceStat)
      → All (λ j. candidate true j ≡ none) ifs
      → All (λ j. candidate false j ≡ none) ifs
      → All (λ i. All IsInvalid i.addrs) ifs
  lacks_addresses [] h k = tt
  lacks_addresses (i ∷ ifs) (h, h') (k, k') = (
    find_in-none i.addrs (elim (Bool-cases (is_ethernet i.name)) [
      | inl e ↦ ground (arith, e, h)
      | inr e ↦ ground (arith, e, k)
    ]),
    lacks_addresses ifs h' k',
  )

  First-FirstOf :
      (kind : Bool) (ifs : List InterfaceStat) (ip : List ℕ)
      → First kind ifs ip
      → FirstOf kind ifs ip
  First-FirstOf kind ifs ip (before, i, after, split, taken, refused) =
      let (k, v) = candidate-some kind i ip taken in
      (before, i, after, split, k, v, All-candidate kind before refused)

  -- The address is the first one that is valid, of IPv4 and not of the loopback, of the first interface
  -- with one whose name begins with "en", else of the first other interface with one; there is an
  -- error only when no interface has any.
  pub get_active_interface-Found : (ifs : List InterfaceStat) → Found ifs (get_active_interface ifs)
  unfolding get_active_interface
  get_active_interface-Found ifs = elim (Option-cases (pass true ifs)) [
    | inr (ip, h) ↦
        subst (λ o. Found ifs (first_some o (pass false ifs))) (sym h)
          (inl (First-FirstOf true ifs ip (pass-First true ifs ip h)))
    | inl h ↦
        subst (λ o. Found ifs (first_some o (pass false ifs))) (sym h)
          (elim (Option-cases (pass false ifs)) [
            | inl k ↦
                subst (λ o. Found ifs o) (sym k)
                  (lacks_addresses ifs (pass-none true ifs h) (pass-none false ifs k))
            | inr (ip, k) ↦
                subst (λ o. Found ifs o) (sym k)
                  (inr (
                    First-FirstOf false ifs ip (pass-First false ifs ip k),
                    All-candidate true ifs (pass-none true ifs h),
                  ))
          ])
  ]
