-- ===== src/Credentials/Refs.antt =====
-- The names of the secrets that the resolution of a pod's credentials reads.
use mac_os_vz_kubelet.Common.{
  ◌+◌, String, ◌==◌, text_comparable, ◌≡◌, refl, Bool, true, false, ◌||◌, List, [], ◌∷◌, ◌++◌, any,
  count, if◌then◌else◌, arith, Bool-cases, inl, inr, subst, false,
}
use mac_os_vz_kubelet.Credentials.Pull.{add_refs, secret_refs}

any-append :
    {A : Type 0} (p : A → Bool) (xs ys : List A) → any p (xs ++ ys) ≡ (any p xs || any p ys)
any-append p [] ys = refl
any-append p (x ∷ xs) ys = ground (arith, any-append p xs ys)

count-append :
    {A : Type 0} (p : A → Bool) (xs ys : List A) → count p (xs ++ ys) ≡ count p xs + count p ys
count-append p [] ys = omega arith
count-append p (x ∷ xs) ys = ground (arith, count-append p xs ys)

-- No name stands twice.
abbrev IsDistinct : List String → Type 0
IsDistinct refs =
    (n : String) → count (λ r. r == n) refs ≡ (if any (λ r. r == n) refs then 1 else 0)

abbrev is : String → String → Bool
is n r = r == n

add-IsDistinct :
    (m : String) (refs : List String)
    → IsDistinct refs
    → any (is m) refs ≡ false
    → IsDistinct (refs ++ m ∷ [])
add-IsDistinct m refs h f n =
    let same : m ≡ n → any (is n) refs ≡ false = λ q. subst (λ k. any (is k) refs ≡ false) q f in
    ground (
      arith,
      any-append (is n) refs (m ∷ []),
      count-append (is n) refs (m ∷ []),
      h n,
      same,
      text_comparable.same_iff m n,
    )

add_refs_lem :
    (names refs : List String)
    → IsDistinct refs
    → IsDistinct (add_refs names refs)
      × ((n : String) → any (is n) (add_refs names refs) ≡ (any (is n) names || any (is n) refs))
unfolding add_refs
add_refs_lem [] refs h = (h, λ n. refl)
add_refs_lem (m ∷ names) refs h = elim (Bool-cases (any (is m) refs)) [
  | inl f ↦
      let (d, a) = add_refs_lem names refs h in
      let same = λ (n : String) (q : m ≡ n). subst (λ k. any (is k) refs ≡ true) q f in
      rw f (d, λ n. ground (arith, a n, same n, text_comparable.same_iff m n))
  | inr f ↦
      let (d, a) = add_refs_lem names (refs ++ m ∷ []) (add-IsDistinct m refs h f) in
      rw f (d, λ n. ground (arith, a n, any-append (is n) refs (m ∷ [])))
]

-- Every secret that the pod or its service account names is read once, and no other.
secret_refs_lem :
    (pod account : List String) (n : String)
    → count (λ r. r == n) (secret_refs pod account)
      ≡ (if any (λ r. r == n) pod || any (λ r. r == n) account then 1 else 0)
unfolding secret_refs
secret_refs_lem pod account n =
    let (d, a) = add_refs_lem pod [] (λ k. refl) in
    let (e, b) = add_refs_lem account (add_refs pod []) d in ground (arith, e n, b n, a n)
