-- ===== src/GuestConfig/HostName.antt =====
-- Every host name is a valid LocalHostName that a shell reads as one word.
use mac_os_vz_kubelet.Common.{
  ℕ, zero, suc, ◌≤◌, ◌<◌, ◌≡◌, refl, ap, ◌∙◌, Bool, true, false, ◌&&◌, List, [], ◌∷◌, ◌++◌, leb,
  nat_eq, not, length, take, all, length-append, and_parts, arith, Bool-cases, inl, inr,
}
use mac_os_vz_kubelet.GuestConfig.{
  is_allowed, written, write_base, trim_left, trim_right, cons_kept, or_fallback, sanitize_base,
  host_name, slash,
}

all-append :
    {A : Type 0} (p : A → Bool) (xs ys : List A) → all p (xs ++ ys) ≡ (all p xs && all p ys)
all-append p [] ys = refl
all-append p (x ∷ xs) ys = ground (arith, all-append p xs ys)

is_allowed-written : (r : ℕ) → is_allowed (written r) ≡ true
is_allowed-written r = elim (Bool-cases (is_allowed r)) [ inl e ↦ rw e e | inr e ↦ rw e refl ]

all-take :
    {A : Type 0} (p : A → Bool) (n : ℕ) (xs : List A) → all p xs ≡ true → all p (take n xs) ≡ true
all-take p n [] h = refl
all-take p zero (x ∷ xs) h = refl
all-take p (suc n) (x ∷ xs) h =
    let (a, b) = and_parts (p x) (all p xs) h in rw (a, all-take p n xs b) refl

length-take-le : {A : Type 0} (n : ℕ) (xs : List A) → length (take n xs) ≤ n
length-take-le n [] = omega arith
length-take-le zero (x ∷ xs) = omega arith
length-take-le (suc n) (x ∷ xs) = omega (arith, length-take-le n xs)

write_base_lem :
    (b rs : List ℕ)
    → all is_allowed b ≡ true
    → length b < 54
    → (all is_allowed (write_base b rs) ≡ true) × (length (write_base b rs) ≤ 54)
unfolding write_base
write_base_lem b [] h k = (h, omega arith)
write_base_lem b (r ∷ rs) h k =
    let c = b ++ written r ∷ [] in
    let l = length-append b (written r ∷ []) in
    let a : all is_allowed c ≡ true =
      all-append is_allowed b (written r ∷ []) ∙ rw (h, is_allowed-written r) refl in
    elim (Bool-cases (leb 54 (length c))) [
      | inl e ↦ rw e (a, omega (arith, l, k))
      | inr e ↦ rw e (write_base_lem c rs a (ground (arith, e)))
    ]

trim_left_lem :
    (cs : List ℕ)
    → all is_allowed cs ≡ true
    → (all is_allowed (trim_left cs) ≡ true) × (length (trim_left cs) ≤ length cs)
trim_left_lem [] h = (refl, omega arith)
trim_left_lem (c ∷ cs) h =
    let (p, q) = and_parts (is_allowed c) (all is_allowed cs) h in
    let (a, l) = trim_left_lem cs q in
    elim (Bool-cases (nat_eq c 45)) [
      | inl e ↦ rw e (a, omega (arith, l))
      | inr e ↦ rw e (h, omega arith)
    ]

-- The text does not begin with a dash.
abbrev pub starts_well : List ℕ → Bool
starts_well [] = true
starts_well (c ∷ cs) = not (nat_eq c 45)

starts_well-trim_left : (cs : List ℕ) → starts_well (trim_left cs) ≡ true
starts_well-trim_left [] = refl
starts_well-trim_left (c ∷ cs) = ground (arith, starts_well-trim_left cs)

cons_kept_lem :
    (c : ℕ) (ds : List ℕ)
    → is_allowed c ≡ true
    → all is_allowed ds ≡ true
    → (all is_allowed (cons_kept c ds) ≡ true)
      × (length (cons_kept c ds) ≤ suc (length ds))
      × (nat_eq c 45 ≡ false → starts_well (cons_kept c ds) ≡ true)
cons_kept_lem c [] p h = elim (Bool-cases (nat_eq c 45)) [
  | inl e ↦ rw e (refl, omega arith, λ f. refl)
  | inr e ↦ rw e (rw p refl, omega arith, λ f. rw e refl)
]
cons_kept_lem c (d ∷ ds) p h = (rw (p, h) refl, omega arith, λ f. rw f refl)

trim_right_lem :
    (cs : List ℕ)
    → all is_allowed cs ≡ true
    → (all is_allowed (trim_right cs) ≡ true)
      × (length (trim_right cs) ≤ length cs)
      × (starts_well cs ≡ true → starts_well (trim_right cs) ≡ true)
trim_right_lem [] h = (refl, omega arith, λ e. refl)
trim_right_lem (c ∷ cs) h =
    let (p, q) = and_parts (is_allowed c) (all is_allowed cs) h in
    let (a, l, w) = trim_right_lem cs q in
    let (a', l', w') = cons_kept_lem c (trim_right cs) p a in
    (a', omega (arith, l, l'), λ e. w' (ground (arith, e)))

-- What the name of a virtual machine needs: letters, digits and dashes only, a first character that
-- is no dash, and at most 54 characters.
abbrev IsBase : List ℕ → Type 0
IsBase b =
    (all is_allowed b ≡ true)
    × (length b ≤ 54)
    × ((c : ℕ) × (rest : List ℕ) × (b ≡ c ∷ rest) × (nat_eq c 45 ≡ false))

or_fallback-IsBase :
    (b : List ℕ)
    → all is_allowed b ≡ true
    → length b ≤ 54
    → starts_well b ≡ true
    → IsBase (or_fallback b)
or_fallback-IsBase [] a l w = (refl, omega arith, (109, _, refl, refl))
or_fallback-IsBase (c ∷ cs) a l w = (a, l, (c, cs, refl, ground (arith, w)))

sanitize_base-IsBase : (name : List ℕ) → IsBase (sanitize_base name)
unfolding sanitize_base
sanitize_base-IsBase name =
    let (a, l) = write_base_lem [] name refl (omega arith) in
    let (b, m) = trim_left_lem (write_base [] name) a in
    let (c, n, w) = trim_right_lem (trim_left (write_base [] name)) b in
    or_fallback-IsBase (trim_right (trim_left (write_base [] name))) c (omega (arith, l, m, n))
      (w (starts_well-trim_left (write_base [] name)))

-- Whatever the pod is named, its virtual machine gets a host name of at most 63 characters, all of
-- them letters, digits or dashes, the first no dash, so that the shell reads it as one word and
-- scutil not as a flag.
pub host_name_lem :
    (digest : List ℕ → List ℕ) (namespace pod : List ℕ)
    → all is_allowed (digest (namespace ++ slash ∷ pod)) ≡ true
    → (all is_allowed (host_name digest namespace pod) ≡ true)
      × (length (host_name digest namespace pod) ≤ 63)
      × ((c : ℕ) × (rest : List ℕ) × (host_name digest namespace pod ≡ c ∷ rest)
          × (nat_eq c 45 ≡ false))
unfolding host_name
host_name_lem digest namespace pod h =
    let (a, l, (c, rest, e, w)) = sanitize_base-IsBase pod in
    let suffix = take 8 (digest (namespace ++ slash ∷ pod)) in
    (
      all-append is_allowed (sanitize_base pod) (45 ∷ suffix)
          ∙ rw (a, all-take is_allowed 8 (digest (namespace ++ slash ∷ pod)) h) refl,
      omega (
        arith,
        l,
        length-append (sanitize_base pod) (45 ∷ suffix),
        length-take-le 8 (digest (namespace ++ slash ∷ pod)),
      ),
      (c, rest ++ 45 ∷ suffix, ap (λ b. b ++ 45 ∷ suffix) e, w),
    )
