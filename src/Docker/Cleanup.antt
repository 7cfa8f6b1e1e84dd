-- ===== src/Docker/Cleanup.antt =====
-- Which containers the start of the Docker client removes.
use mac_os_vz_kubelet.Common.{
  ℕ, suc, ◌+◌, ◌*◌, ◌≡◌, refl, ap, ◌∙◌, ◌&&◌, leb, nat_eq, nat_eq_iff, subst, Option, none, some,
  Option-cases, Bool, true, false, List, [], ◌∷◌, ◌++◌, map, concat, count, if◌then◌else◌, GoError,
  ◌⊎◌, inl, inr, NamespacedName, namespaced_name_comparable, ◌==◌, Bool-cases, arith,
}
use mathlib.Core.Option
use Prim.Native.Char.{Char, code}
use Prim.Native.String.{String}
use mac_os_vz_kubelet.Docker.Names.{
  underscore, listed_prefix, strip, trim_prefix, cut, read_parts, extract_namespaced_name,
}
use mac_os_vz_kubelet.Docker.Configs.{
  Listed, ListOptions, list_options, found_in, removals, append_id, add_name, add_names,
  active_containers, get_active_containers, new_docker_client,
}

abbrev ids_of : List (NamespacedName × List String) → List String
ids_of found = concat (map (λ (f : NamespacedName × List String). f.1) found)

abbrev pub one_if : Bool → ℕ
one_if true = 1
one_if false = 0

abbrev pub underscores : String → ℕ
underscores String.[] = 0
underscores (String.◌∷◌ c s) = one_if (nat_eq (code c) 95) + underscores s

abbrev pub starts : String → String → Bool
starts String.[] s = true
starts (String.◌∷◌ c p) String.[] = false
starts (String.◌∷◌ c p) (String.◌∷◌ d s) = nat_eq (code c) (code d) && starts p s

-- Whether a name is read as one of the kubelet's: it has two underscores, besides that of the prefix
-- where it starts with the prefix, which it need not.
abbrev pub is_own : String → Bool
is_own name = leb (if starts "/macos-vz_" name then 3 else 2) (underscores name)

-- How many names of a container are read as the kubelet's, and how many such names the containers have
-- whose identifier passes a test.
abbrev pub own_names : List String → ℕ
own_names names = count is_own names

abbrev pub own_containers : (String → Bool) → List Listed → ℕ
own_containers p [] = 0
own_containers p (c ∷ cs) = one_if (p c.id) * own_names c.names + own_containers p cs

-- One for a name that is read.
abbrev of_name : GoError ⊎ NamespacedName → ℕ
of_name (inl e) = 0
of_name (inr k) = 1

-- What is left of a name behind a prefix, if it starts with it.
abbrev Stripped : String → String → Option String → Type 0
Stripped p s none = starts p s ≡ false
Stripped p s (some t) = (starts p s ≡ true) × (underscores s ≡ underscores p + underscores t)

Stripped-same :
    (c d : Char) (p s : String) (o : Option String)
    → nat_eq (code c) (code d) ≡ true
    → Stripped p s o
    → Stripped (String.◌∷◌ c p) (String.◌∷◌ d s) o
Stripped-same c d p s none e h = rw e h
Stripped-same c d p s (some t) e (h, k) = (
  rw e h,
  let same = (nat_eq_iff (code c) (code d)).0 e in
      omega (arith, k, ap (λ x. one_if (nat_eq x 95)) same),
)

strip_lem : (p s : String) → Stripped p s (strip p s)
unfolding strip
strip_lem String.[] s = (refl, omega arith)
strip_lem (String.◌∷◌ c p) String.[] = refl
strip_lem (String.◌∷◌ c p) (String.◌∷◌ d s) = elim (Bool-cases (nat_eq (code c) (code d))) [
  | inl h ↦ rw (h, strip) (Stripped-same c d p s (strip p s) h (strip_lem p s))
  | inr h ↦ rw (h, strip) (rw h refl)
]

-- What is left behind the first underscore, if there is one.
abbrev Cut : String → Option (String × String) → Type 0
Cut s none = underscores s ≡ 0
Cut s (some (a, b)) = underscores s ≡ suc (underscores b)

Cut-later :
    (c : Char) (s : String) (o : Option (String × String))
    → nat_eq (code c) underscore ≡ false
    → Cut s o
    → Cut (String.◌∷◌ c s) (Option.map (λ x. (String.◌∷◌ c x.0, x.1)) o)
Cut-later c s none h k = rw h (omega (arith, k))
Cut-later c s (some (a, b)) h k = rw h (omega (arith, k))

cut_lem : (s : String) → Cut s (cut s)
unfolding cut
cut_lem String.[] = refl
cut_lem (String.◌∷◌ c s) = elim (Bool-cases (nat_eq (code c) underscore)) [
  | inl h ↦ rw h (rw h (omega arith))
  | inr h ↦ rw h (Cut-later c s (cut s) h (cut_lem s))
]

read_parts_lem : (s : String) → of_name (read_parts s) ≡ one_if (leb 2 (underscores s))
unfolding read_parts
read_parts_lem s = elim (Option-cases (cut s)) [
  | inl e ↦ ground (arith, subst (Cut s) e (cut_lem s), e)
  | inr ((a, b), e) ↦
      let first_cut = subst (Cut s) e (cut_lem s) in
      elim (Option-cases (cut b)) [
        | inl f ↦ ground (arith, first_cut, subst (Cut b) f (cut_lem b), e, f)
        | inr ((c, d), f) ↦ ground (arith, first_cut, subst (Cut b) f (cut_lem b), e, f)
      ]
]

-- The prefix has one underscore.
behind_prefix : (n k : ℕ) → n ≡ underscores listed_prefix + k → leb 2 k ≡ leb 3 n
behind_prefix n k h = ground (arith, h)

trimmed_lem : (name : String) → leb 2 (underscores (trim_prefix name listed_prefix)) ≡ is_own name
unfolding trim_prefix
trimmed_lem name = elim (Option-cases (strip listed_prefix name)) [
  | inl e ↦
      let no_prefix = subst (Stripped listed_prefix name) e (strip_lem listed_prefix name) in
      rw (e, no_prefix) refl
  | inr (t, e) ↦
      let (prefixed, n) = subst (Stripped listed_prefix name) e (strip_lem listed_prefix name) in
      rw (e, prefixed) (behind_prefix (underscores name) (underscores t) n)
]

extract_namespaced_name_lem :
    (name : String) → of_name (extract_namespaced_name name) ≡ one_if (is_own name)
unfolding extract_namespaced_name
extract_namespaced_name_lem name =
    read_parts_lem (trim_prefix name listed_prefix) ∙ ap one_if (trimmed_lem name)

count-append :
    (p : String → Bool) (xs ys : List String) → count p (xs ++ ys) ≡ count p xs + count p ys
count-append p [] ys = omega arith
count-append p (x ∷ xs) ys = ground (arith, count-append p xs ys)

count-append_id :
    (p : String → Bool) (key : NamespacedName) (id : String)
    (found : List (NamespacedName × List String))
    → count p (ids_of (append_id key id found)) ≡ one_if (p id) + count p (ids_of found)
count-append_id p key id [] = ground arith
count-append_id p key id ((k, ids) ∷ rest) = elim (Bool-cases (k == key)) [
  | inl h ↦ rw h (
      ground (
        arith,
        count-append p (ids ++ id ∷ []) (ids_of rest),
        count-append p ids (id ∷ []),
        count-append p ids (ids_of rest),
      ))
  | inr h ↦ rw h (
      ground (
        arith,
        count-append p ids (ids_of (append_id key id rest)),
        count-append p ids (ids_of rest),
        count-append_id p key id rest,
      ))
]

count-add_name :
    (p : String → Bool) (id : String) (r : GoError ⊎ NamespacedName)
    (found : List (NamespacedName × List String))
    → count p (ids_of (add_name id r found)) ≡ one_if (p id) * of_name r + count p (ids_of found)
count-add_name p id (inl e) found = ground arith
count-add_name p id (inr k) found = ground (arith, count-append_id p k id found)

one_if_add : (b : Bool) (x y : ℕ) → one_if b * (x + y) ≡ one_if b * x + one_if b * y
one_if_add true x y = omega arith
one_if_add false x y = omega arith

own_names-cons :
    (n : String) (names : List String) → own_names (n ∷ names) ≡ one_if (is_own n) + own_names names
own_names-cons n names = ground arith

count-add_names :
    (p : String → Bool) (id : String) (names : List String)
    (found : List (NamespacedName × List String))
    → count p (ids_of (add_names id names found))
      ≡ one_if (p id) * own_names names + count p (ids_of found)
count-add_names p id [] found = ground arith
count-add_names p id (n ∷ names) found =
    let one = add_name id (extract_namespaced_name n) found in
    omega (
      arith,
      count-add_names p id names one,
      own_names-cons n names,
      count-add_name p id (extract_namespaced_name n) found,
      ap (λ x. one_if (p id) * x) (extract_namespaced_name_lem n),
      one_if_add (p id) (one_if (is_own n)) (own_names names),
      ap (λ x. one_if (p id) * x) (own_names-cons n names),
    )

count-active :
    (p : String → Bool) (cs : List Listed) (found : List (NamespacedName × List String))
    → count p (ids_of (active_containers cs found)) ≡ own_containers p cs + count p (ids_of found)
unfolding active_containers
count-active p [] found = ground arith
count-active p (c ∷ cs) found =
    omega (
      arith,
      count-active p cs (add_names c.id c.names found),
      count-add_names p c.id c.names found,
    )

removed_lem :
    (p : String → Bool) (listed : GoError ⊎ List Listed)
    → count p (removals (found_in listed)).1
      ≡ elim listed [ inl _ ↦ 0 | inr cs ↦ own_containers p cs ]
removed_lem p (inl e) = refl
removed_lem p (inr cs) = omega (arith, count-active p cs [])

-- The removals at the start of the client, of the containers that Docker lists, stopped ones too, with
-- the filter macos-vz_* on their names: a container is removed once for each of its names that has at
-- least two underscores behind "/macos-vz_", and once for each that does not start so and has at least
-- two underscores all the same; no other listed container is. Nothing is removed where there is no
-- client or Docker does not list its containers. What the filter lets through is left to Docker.
pub new_docker_client_lem :
    (p : String → Bool) (has_client : Bool) (list : ListOptions → GoError ⊎ List Listed)
    → count p (new_docker_client has_client list).1 ≡ (
        if has_client
        then elim (list (record { all = true; name = "macos-vz_*" })) [
          | inl _ ↦ 0
          | inr cs ↦ own_containers p cs
        ]
        else 0)
unfolding new_docker_client get_active_containers
new_docker_client_lem p false list = refl
new_docker_client_lem p true list = removed_lem p (list list_options)
