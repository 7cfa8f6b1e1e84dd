-- ===== src/Network/Text.antt =====
-- What the code uses of the package strings, for ASCII texts.
use mac_os_vz_kubelet.Common.{
  ℕ, ◌+◌, ◌≡◌, refl, ap, Bool, true, false, not, ◌&&◌, ◌||◌, List, [], ◌∷◌, ◌++◌, append_assoc,
  append-nil, leb, nat_eq, if◌then◌else◌, all, All, arith, sym, ◌∙◌, and_parts,
}

-- strings.Split at one character, and strings.Join.
abbrev pub cons_first : ℕ → List (List ℕ) → List (List ℕ)
cons_first c [] = (c ∷ []) ∷ []
cons_first c (p ∷ ps) = (c ∷ p) ∷ ps

unfoldable pub split : ℕ → List ℕ → List (List ℕ)
split at [] = [] ∷ []
split at (c ∷ cs) = let rest = split at cs in if nat_eq c at then [] ∷ rest else cons_first c rest

unfoldable pub join_at : ℕ → List (List ℕ) → List ℕ
join_at at [] = []
join_at at (p ∷ []) = p
join_at at (p ∷ q ∷ ps) = p ++ at ∷ join_at at (q ∷ ps)

-- strings.ToLower
abbrev pub lower : ℕ → ℕ
lower c = if leb 65 c && leb c 90 then c + 32 else c

abbrev pub starts_with : List ℕ → List ℕ → Bool
starts_with [] s = true
starts_with (c ∷ p) [] = false
starts_with (c ∷ p) (d ∷ s) = nat_eq c d && starts_with p s

-- strings.Contains
abbrev pub contains : List ℕ → List ℕ → Bool
contains p [] = starts_with p []
contains p (d ∷ s) = starts_with p (d ∷ s) || contains p s

abbrev pub is_space : ℕ → Bool
is_space c = nat_eq c 32 || (leb 9 c && leb c 13)

abbrev pub flush : List ℕ → List (List ℕ) → List (List ℕ)
flush [] words = words
flush (c ∷ cs) words = (c ∷ cs) ∷ words

-- strings.Fields, with the word that it is in.
unfoldable pub fields : List ℕ → List ℕ → List (List ℕ)
fields word [] = flush word []
fields word (c ∷ cs) =
    let rest = fields [] cs in
    let longer = fields (word ++ c ∷ []) cs in if is_space c then flush word rest else longer

-- strings.Trim with a set of characters.
abbrev pub trim_front : (ℕ → Bool) → List ℕ → List ℕ
trim_front cut [] = []
trim_front cut (c ∷ cs) = if cut c then trim_front cut cs else c ∷ cs

abbrev pub cons_trimmed : (ℕ → Bool) → ℕ → List ℕ → List ℕ
cons_trimmed cut c [] = if cut c then [] else c ∷ []
cons_trimmed cut c (d ∷ ds) = c ∷ d ∷ ds

abbrev pub trim_back : (ℕ → Bool) → List ℕ → List ℕ
trim_back cut [] = []
trim_back cut (c ∷ cs) = cons_trimmed cut c (trim_back cut cs)

unfoldable pub trim : (ℕ → Bool) → List ℕ → List ℕ
trim cut s = trim_back cut (trim_front cut s)

-- A text without a character.
abbrev pub Lacks : ℕ → List ℕ → Type 0
Lacks at s = all (λ c. not (nat_eq c at)) s ≡ true

split-Lacks : (at : ℕ) (p : List ℕ) → Lacks at p → split at p ≡ p ∷ []
unfolding split
split-Lacks at [] h = refl
split-Lacks at (c ∷ p) h = ground (arith, split-Lacks at p)

split-append : (at : ℕ) (p s : List ℕ) → Lacks at p → split at (p ++ at ∷ s) ≡ p ∷ split at s
unfolding split
split-append at [] s h = ground arith
split-append at (c ∷ p) s h = ground (arith, split-append at p s)

-- Parts without the separator are what their join splits into.
pub split-join_at :
    (at : ℕ) (p : List ℕ) (ps : List (List ℕ))
    → Lacks at p
    → All (Lacks at) ps
    → split at (join_at at (p ∷ ps)) ≡ p ∷ ps
unfolding join_at
split-join_at at p [] h k = split-Lacks at p h
split-join_at at p (q ∷ ps) h (k, l) =
    split-append at p (join_at at (q ∷ ps)) h ∙ ap (λ r. p ∷ r) (split-join_at at q ps k l)

starts_with-append : (p s : List ℕ) → starts_with p (p ++ s) ≡ true
starts_with-append [] s = refl
starts_with-append (c ∷ p) s = ground (arith, starts_with-append p s)

contains-front : (p s : List ℕ) → starts_with p s ≡ true → contains p s ≡ true
contains-front p [] h = h
contains-front p (c ∷ s) h = rw h refl

pub contains-append : (p a s : List ℕ) → contains p (a ++ p ++ s) ≡ true
contains-append p [] s = contains-front p (p ++ s) (starts_with-append p s)
contains-append p (c ∷ a) s = ground (arith, contains-append p a s)

not-true : (b : Bool) → not b ≡ true → b ≡ false
not-true b h = ground arith

pub fields-word :
    (word w s : List ℕ)
    → all (λ c. not (is_space c)) w ≡ true
    → fields word (w ++ s) ≡ fields (word ++ w) s
unfolding fields
fields-word word [] s h = ap (λ v. fields v s) (sym (append-nil word))
fields-word word (c ∷ w) s h =
    let (p, q) = and_parts (not (is_space c)) (all (λ d. not (is_space d)) w) h in
    rw (not-true (is_space c) p)
      (fields-word (word ++ c ∷ []) w s q ∙ ap (λ v. fields v s) (append_assoc word (c ∷ []) w))

cons_trimmed-kept :
    (cut : ℕ → Bool) (c : ℕ) (cs : List ℕ) → cut c ≡ false → cons_trimmed cut c cs ≡ c ∷ cs
cons_trimmed-kept cut c [] h = rw h refl
cons_trimmed-kept cut c (d ∷ ds) h = refl

trim_back-end :
    (cut : ℕ → Bool) (z : ℕ) (cs : List ℕ)
    → cut z ≡ true
    → all (λ d. not (cut d)) cs ≡ true
    → trim_back cut (cs ++ z ∷ []) ≡ cs
trim_back-end cut z [] k l = rw k refl
trim_back-end cut z (c ∷ cs) k l =
    let (p, q) = and_parts (not (cut c)) (all (λ d. not (cut d)) cs) l in
    ap (cons_trimmed cut c) (trim_back-end cut z cs k q)
    ∙ cons_trimmed-kept cut c cs (not-true (cut c) p)

pub trim-between :
    (cut : ℕ → Bool) (a z c : ℕ) (cs : List ℕ)
    → cut a ≡ true
    → cut z ≡ true
    → all (λ d. not (cut d)) (c ∷ cs) ≡ true
    → trim cut (a ∷ (c ∷ cs) ++ z ∷ []) ≡ c ∷ cs
unfolding trim
trim-between cut a z c cs h k l =
    let (p, q) = and_parts (not (cut c)) (all (λ d. not (cut d)) cs) l in
    rw (h, not-true (cut c) p) (trim_back-end cut z (c ∷ cs) k l)
