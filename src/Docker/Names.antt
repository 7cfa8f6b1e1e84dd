-- ===== src/Docker/Names.antt =====
-- getUnderlyingContainerName and extractNamespacedName of pkg/resourcemanager/docker.go: the name
-- that a container has in Docker, and what is read back of it when the kubelet starts.
use Prim.Native.Char.{code}
use Prim.Native.String.{String}
use package.text.Mathlib.TextLemmas.{nil-append, cons-append, append_assoc, append_cancel_left}
use mathlib.Core.Option
use mac_os_vz_kubelet.Common.{
  ℕ, ◌≡◌, ◌≢◌, refl, ap, sym, ◌∙◌, Option, none, some, ◌⊎◌, inl, inr, ◌<>◌, GoError, text,
  NamespacedName, nat_eq, if◌then◌else◌, arith, or_else,
}

abbrev pub container_name_prefix : String
container_name_prefix = "macos-vz"

-- The character "_".
abbrev pub underscore : ℕ
underscore = 95

unfoldable pub get_underlying_container_name : String → String → String → String
get_underlying_container_name namespace pod container =
    container_name_prefix <> ("_" <> (namespace <> ("_" <> (pod <> ("_" <> container)))))

-- What follows a prefix.
unfoldable pub strip : String → String → Option String
strip String.[] s = some s
strip (String.◌∷◌ c p) String.[] = none
strip (String.◌∷◌ c p) (String.◌∷◌ d s) = if nat_eq (code c) (code d) then strip p s else none

-- strings.TrimPrefix
unfoldable pub trim_prefix : String → String → String
unfolding strip
trim_prefix s p = or_else (strip p s) s

-- What stands before and after the first "_".
unfoldable pub cut : String → Option (String × String)
cut String.[] = none
cut (String.◌∷◌ c s) =
    if nat_eq (code c) underscore
    then some (String.[], s)
    else Option.map (λ x. (String.◌∷◌ c x.0, x.1)) (cut s)

-- strings.SplitN at "_" into three parts gives three exactly where there are two underscores.
unfoldable pub read_parts : String → GoError ⊎ NamespacedName
unfolding cut
read_parts name =
    let invalid = inl (text ("invalid container name format: " <> name)) in
    elim (cut name) [
      | none ↦ invalid
      | some (namespace, rest) ↦ elim (cut rest) [
        | none ↦ invalid
        | some (pod, _) ↦ inr (record { namespace = namespace; name = pod })
      ]
    ]

abbrev pub listed_prefix : String
listed_prefix = "/" <> (container_name_prefix <> "_")

unfoldable pub extract_namespaced_name : String → GoError ⊎ NamespacedName
unfolding trim_prefix read_parts
extract_namespaced_name container_name = read_parts (trim_prefix container_name listed_prefix)

-- A text without "_", as the names of Kubernetes objects are.
abbrev pub IsPlain : String → Type 0
IsPlain String.[] = Unit
IsPlain (String.◌∷◌ c s) = (code c ≢ underscore) × IsPlain s

underscore-append : (s : String) → ("_" <> s) ≡ String.◌∷◌ "_" s
underscore-append s = cons-append "_" String.[] s ∙ ap (String.◌∷◌ "_") (nil-append s)

cut-plain : (p s : String) → IsPlain p → cut (p <> ("_" <> s)) ≡ some (p, s)
unfolding cut
cut-plain String.[] s h = rw (nil-append ("_" <> s), underscore-append s) refl
cut-plain (String.◌∷◌ c p) s (n, h) =
    rw (cons-append c p ("_" <> s), cut) (ground (arith, cut-plain p s h))

strip-append : (p s : String) → strip p (p <> s) ≡ some s
unfolding strip
strip-append String.[] s = ap some (nil-append s)
strip-append (String.◌∷◌ c p) s = rw (cons-append c p s) (ground (arith, strip-append p s))

-- What stands behind the prefix.
abbrev suffix_of : String → String → String → String
suffix_of namespace pod container = namespace <> ("_" <> (pod <> ("_" <> container)))

regroup : (s : String) → "/" <> (container_name_prefix <> ("_" <> s)) ≡ listed_prefix <> s
regroup s = sym (
    append_assoc "/" (container_name_prefix <> "_") s
    ∙ ap (λ t. "/" <> t) (append_assoc container_name_prefix "_" s))

read_parts-suffix :
    (namespace pod container : String)
    → IsPlain namespace
    → IsPlain pod
    → read_parts (suffix_of namespace pod container)
      ≡ inr (record { namespace = namespace; name = pod })
unfolding read_parts
read_parts-suffix namespace pod container h k =
    rw (read_parts, cut-plain namespace (pod <> ("_" <> container)) h, cut-plain pod container k)
      refl

-- The name that Docker lists for a container that the kubelet has made gives back its namespace and
-- its pod, if these have no underscore; the name of the container itself may have some.
pub extract-get_underlying :
    (namespace pod container : String)
    → IsPlain namespace
    → IsPlain pod
    → extract_namespaced_name ("/" <> get_underlying_container_name namespace pod container)
      ≡ inr (record { namespace = namespace; name = pod })
unfolding extract_namespaced_name get_underlying_container_name
extract-get_underlying namespace pod container h k =
    let s = suffix_of namespace pod container in
    let trimmed : trim_prefix ("/" <> (container_name_prefix <> ("_" <> s))) listed_prefix ≡ s =
      unfold trim_prefix in
      ap (λ t. or_else (strip listed_prefix t) t) (regroup s)
      ∙ ap (λ o. or_else o (listed_prefix <> s)) (strip-append listed_prefix s) in
    ap read_parts trimmed ∙ read_parts-suffix namespace pod container h k

cut_inj :
    (n n' r r' : String)
    → IsPlain n
    → IsPlain n'
    → n <> ("_" <> r) ≡ n' <> ("_" <> r')
    → (n ≡ n') × (r ≡ r')
cut_inj n n' r r' h h' e =
    let q = sym (cut-plain n r h) ∙ ap cut e ∙ cut-plain n' r' h' in (ground arith, ground arith)

-- Different containers have different names in Docker: the name determines the namespace and the
-- pod, if these have no underscore, and the container.
pub get_underlying_container_name_inj :
    (n n' p p' c c' : String)
    → IsPlain n
    → IsPlain n'
    → IsPlain p
    → IsPlain p'
    → get_underlying_container_name n p c ≡ get_underlying_container_name n' p' c'
    → (n ≡ n') × (p ≡ p') × (c ≡ c')
unfolding get_underlying_container_name
get_underlying_container_name_inj n n' p p' c c' h h' k k' e =
    let tail = append_cancel_left "_" (suffix_of n p c) (suffix_of n' p' c') (
      append_cancel_left container_name_prefix ("_" <> suffix_of n p c) ("_" <> suffix_of n' p' c')
        e) in
    let (en, rest) = cut_inj n n' (p <> ("_" <> c)) (p' <> ("_" <> c')) h h' tail in
    let (ep, ec) = cut_inj p p' c c' k k' rest in (en, ep, ec)
