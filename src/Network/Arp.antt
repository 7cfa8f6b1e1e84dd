-- ===== src/Network/Arp.antt =====
-- RetrieveIPFromARPTable of internal/netutil/ip_addr.go: the scan of the lines that arp prints, round
-- after round.
use mac_os_vz_kubelet.Common.{
  ℕ, ◌≡◌, refl, sym, ap, ◌∙◌, Bool, true, not, ◌&&◌, ◌||◌, Option, none, some, List, [], ◌∷◌, ◌++◌,
  append_assoc, map, all, nat_eq, if◌then◌else◌, GoError, ◌⊎◌, inl, inr, and_parts, subst,
}
use mac_os_vz_kubelet.Network.Text.{
  lower, contains, contains-append, fields, fields-word, is_space, trim, trim-between,
}

-- The two parentheses.
abbrev pub is_parenthesis : ℕ → Bool
is_parenthesis c = nat_eq c 40 || nat_eq c 41

abbrev pub second : List (List ℕ) → Option (List ℕ)
second (a ∷ b ∷ ws) = some (trim is_parenthesis b)
second _ = none

-- What one line gives.
unfoldable pub scan_line : List ℕ → List ℕ → Option (List ℕ)
unfolding fields trim
scan_line mac line =
    if contains (map lower mac) (map lower line) then second (fields [] line) else none

unfoldable pub scan_lines : List ℕ → List (List ℕ) → Option (List ℕ)
unfolding scan_line
scan_lines mac [] = none
scan_lines mac (line ∷ lines) =
    let rest = scan_lines mac lines in elim (scan_line mac line) [ none ↦ rest | some ip ↦ some ip ]

-- One round of the loop: the end of the context, the failure of arp, or its lines.
pub data Round : Type 0 where
  ended : GoError → Round
  failed : GoError → Round
  printed : List (List ℕ) → Round

-- The loop; `none` is one that goes on.
unfoldable pub retrieve_ip_from_arp_table : List ℕ → List Round → Option (GoError ⊎ List ℕ)
unfolding scan_lines
retrieve_ip_from_arp_table mac [] = none
retrieve_ip_from_arp_table mac (ended e ∷ rounds) = some (inl e)
retrieve_ip_from_arp_table mac (failed e ∷ rounds) = some (inl e)
retrieve_ip_from_arp_table mac (printed lines ∷ rounds) =
    let rest = retrieve_ip_from_arp_table mac rounds in
    elim (scan_lines mac lines) [ none ↦ rest | some ip ↦ some (inr ip) ]

-- A line of arp: "? (", an address, ") at ", a hardware address, and the rest.
abbrev pub arp_line : List ℕ → List ℕ → List ℕ → List ℕ
arp_line ip mac rest = 63 ∷ 32 ∷ 40 ∷ (ip ++ (41 ∷ 32 ∷ 97 ∷ 116 ∷ 32 ∷ (mac ++ rest)))

abbrev pub is_plain : ℕ → Bool
is_plain c = not (is_space c) && not (is_parenthesis c)

map-append : (f : ℕ → ℕ) (xs ys : List ℕ) → map f (xs ++ ys) ≡ map f xs ++ map f ys
map-append f [] ys = refl
map-append f (x ∷ xs) ys = ap (λ l. f x ∷ l) (map-append f xs ys)

line-contains :
    (mac a rest : List ℕ) → contains (map lower mac) (map lower (a ++ (mac ++ rest))) ≡ true
line-contains mac a rest =
    ap (contains (map lower mac))
      (map-append lower a (mac ++ rest) ∙ ap (λ r. map lower a ++ r) (map-append lower mac rest))
    ∙ ap (contains (map lower mac))
        (sym (append_assoc (map lower a) (map lower mac) (map lower rest)))
    ∙ contains-append (map lower mac) (map lower a) (map lower rest)

address_word :
    (ip : List ℕ) → all is_plain ip ≡ true → all (λ c. not (is_space c)) (ip ++ 41 ∷ []) ≡ true
address_word [] h = refl
address_word (c ∷ ip) h =
    let (p, q) = and_parts (is_plain c) (all is_plain ip) h in
    let (s, t) = and_parts (not (is_space c)) (not (is_parenthesis c)) p in rw s (address_word ip q)

address_inside :
    (ip : List ℕ) → all is_plain ip ≡ true → all (λ c. not (is_parenthesis c)) ip ≡ true
address_inside [] h = refl
address_inside (c ∷ ip) h =
    let (p, q) = and_parts (is_plain c) (all is_plain ip) h in
    let (s, t) = and_parts (not (is_space c)) (not (is_parenthesis c)) p in
    rw t (address_inside ip q)

second_of_line :
    (c : ℕ) (ip r : List ℕ)
    → all is_plain (c ∷ ip) ≡ true
    → second (fields [] (63 ∷ 32 ∷ 40 ∷ (c ∷ (ip ++ (41 ∷ 32 ∷ r))))) ≡ some (c ∷ ip)
unfolding fields
second_of_line c ip r h =
    let word = 40 ∷ c ∷ (ip ++ 41 ∷ []) in
    let split : fields [] (word ++ 32 ∷ r) ≡ word ∷ fields [] r =
      fields-word [] word (32 ∷ r) (address_word (c ∷ ip) h) in
    let same : word ++ 32 ∷ r ≡ 40 ∷ c ∷ (ip ++ (41 ∷ 32 ∷ r)) =
      append_assoc (40 ∷ c ∷ ip) (41 ∷ []) (32 ∷ r) in
    ap (λ w. second ((63 ∷ []) ∷ fields [] w)) (sym same)
    ∙ ap (λ ws. second ((63 ∷ []) ∷ ws)) split
    ∙ ap some (trim-between is_parenthesis 40 41 c ip refl refl (address_inside (c ∷ ip) h))

-- The line of an address is scanned for every hardware address that its own one contains, whatever
-- characters stand before it: the address of another machine whose first octet ends in the same
-- digit is taken for it.
scan_line-arp_line :
    (c : ℕ) (ip extra mac rest : List ℕ)
    → all is_plain (c ∷ ip) ≡ true
    → scan_line mac (arp_line (c ∷ ip) (extra ++ mac) rest) ≡ some (c ∷ ip)
unfolding scan_line
scan_line-arp_line c ip extra mac rest h =
    let before = 63 ∷ 32 ∷ 40 ∷ c ∷ (ip ++ (41 ∷ 32 ∷ 97 ∷ 116 ∷ 32 ∷ extra)) in
    let whole : before ++ (mac ++ rest) ≡ arp_line (c ∷ ip) (extra ++ mac) rest =
      append_assoc (63 ∷ 32 ∷ 40 ∷ c ∷ ip) (41 ∷ 32 ∷ 97 ∷ 116 ∷ 32 ∷ extra) (mac ++ rest)
      ∙ ap (λ r. 63 ∷ 32 ∷ 40 ∷ c ∷ (ip ++ (41 ∷ 32 ∷ 97 ∷ 116 ∷ 32 ∷ r)))
          (sym (append_assoc extra mac rest)) in
    let found : contains (map lower mac) (map lower (arp_line (c ∷ ip) (extra ++ mac) rest))
        ≡ true =
      subst (λ l. contains (map lower mac) (map lower l) ≡ true) whole
        (line-contains mac before rest) in
    ap (λ b. if b then second (fields [] (arp_line (c ∷ ip) (extra ++ mac) rest)) else none) found
    ∙ second_of_line c ip (97 ∷ 116 ∷ 32 ∷ ((extra ++ mac) ++ rest)) h
