-- ===== src/Store/Assoc.antt =====
-- A list of entries, the latest first, meets the interface of the map.
use mac_os_vz_kubelet.Common.{
  ◌+◌, ◌≡◌, refl, ap, Bool, true, false, not, ◌&&◌, Option, none, some, List, [], ◌∷◌, Comparable,
  ◌==◌, if◌then◌else◌, count, keep, arith, Bool-cases, inl, inr,
}
use mac_os_vz_kubelet.Store.{SyncMap, ComputeOp, cancel_op, update_op, delete_op, entry_of}

count-congr {ℓ} :
    {A : Type ℓ} (p q : A → Bool) (l : List A) → ((x : A) → p x ≡ q x) → count p l ≡ count q l
count-congr p q [] h = refl
count-congr p q (x ∷ l) h = rw (h x, count-congr p q l h)

count-keep {ℓ} :
    {A : Type ℓ} (p q : A → Bool) (l : List A) → count p (keep q l) ≡ count (λ x. p x && q x) l
count-keep p q [] = refl
count-keep p q (x ∷ l) = ground (arith, count-keep p q l)

module _ {K V : Type 0} ⦃cmp : Comparable K⦄ where
  abbrev pub load_entry : K → List (K × V) → Option V
  load_entry k [] = none
  load_entry k ((j, v) ∷ m) = if j == k then some v else load_entry k m

  abbrev pub other : K → K × V → Bool
  other k x = not (x.0 == k)

  abbrev pub drop_key : K → List (K × V) → List (K × V)
  drop_key k = keep (other k)

  -- The entries that are not hidden by a later one.
  abbrev pub visible : List (K × V) → List (K × V)
  visible [] = []
  visible ((k, v) ∷ m) = (k, v) ∷ drop_key k (visible m)

  pub load_entry-drop_key :
      (j k : K) (m : List (K × V))
      → load_entry j (drop_key k m) ≡ (if k == j then none else load_entry j m)
  load_entry-drop_key j k [] = ground arith
  load_entry-drop_key j k ((i, v) ∷ m) =
      ground
        (arith, load_entry-drop_key j k m, cmp.same_iff i k, cmp.same_iff i j, cmp.same_iff k j)

  abbrev without : K → (K × V → Bool) → K × V → Bool
  without k p x = p x && other k x

  count-visible-drop_key :
      (p : K × V → Bool) (k : K) (m : List (K × V))
      → count p (visible (drop_key k m)) ≡ count (without k p) (visible m)
  count-visible-drop_key p k [] = refl
  count-visible-drop_key p k ((j, v) ∷ m) = elim (Bool-cases (j == k)) [
    | inl h ↦ ground (
      arith,
      count-visible-drop_key p k m,
      count-keep (without k p) (other j) (visible m),
      count-congr (without k p) (without j (without k p)) (visible m)
          (λ x. ground (arith, cmp.same_iff j k)),
    )
    | inr h ↦ ground (
      arith,
      count-keep p (other j) (visible (drop_key k m)),
      count-visible-drop_key (without j p) k m,
      count-keep (without k p) (other j) (visible m),
      count-congr (without j (without k p)) (without k (without j p)) (visible m)
          (λ x. ground arith),
    )
  ]

  count-entry_of :
      (p : K × V → Bool) (j k : K) (o : Option V)
      → (j == k) ≡ false
      → count (without j p) (entry_of k o) ≡ count p (entry_of k o)
  count-entry_of p j k none h = refl
  count-entry_of p j k (some v) h = ground (arith, cmp.same_iff j k, cmp.same_iff k j)

  count-visible :
      (p : K × V → Bool) (k : K) (m : List (K × V))
      → count p (visible m)
        ≡ count p (entry_of k (load_entry k m)) + count (without k p) (visible m)
  count-visible p k [] = omega arith
  count-visible p k ((j, v) ∷ m) = elim (Bool-cases (j == k)) [
    | inl h ↦ ground (
      arith,
      cmp.same_iff j k,
      count-keep p (other j) (visible m),
      count-keep (without k p) (other j) (visible m),
      count-congr (without j p) (without j (without k p)) (visible m)
          (λ x. ground (arith, cmp.same_iff j k)),
    )
    | inr h ↦ ground (
      arith,
      count-keep p (other j) (visible m),
      count-visible (without j p) k m,
      count-entry_of p j k (load_entry k m) h,
      count-keep (without k p) (other j) (visible m),
      count-congr (without j (without k p)) (without k (without j p)) (visible m)
          (λ x. ground arith),
    )
  ]

  abbrev pub apply_op : K → List (K × V) → ComputeOp V → Option V × List (K × V)
  apply_op k m cancel_op = (load_entry k m, m)
  apply_op k m (update_op v) = (some v, (k, v) ∷ m)
  apply_op k m delete_op = (none, drop_key k m)

  abbrev pub put_absent : K → V → List (K × V) → Option V → (V × Bool) × List (K × V)
  put_absent k v m (some w) = ((w, true), m)
  put_absent k v m none = ((v, false), (k, v) ∷ m)

  pub count-store_entry :
      (p : K × V → Bool) (k : K) (v : V) (m : List (K × V))
      → count p ((k, v) ∷ drop_key k (visible m))
        ≡ count p ((k, v) ∷ []) + count p (visible (drop_key k m))
  count-store_entry p k v m =
      ground (arith, count-visible-drop_key p k m, count-keep p (other k) (visible m))

  pub count-delete_entry :
      (p : K × V → Bool) (k : K) (m : List (K × V))
      → count p (visible m)
        ≡ count p (entry_of k (load_entry k m)) + count p (visible (drop_key k m))
  count-delete_entry p k m = rw (count-visible-drop_key p k m) (count-visible p k m)

  abbrev pub assoc_map : SyncMap K V
  assoc_map = record {
    Map = List (K × V);
    new = [];
    load = load_entry;
    store = λ k v m. (k, v) ∷ m;
    delete = drop_key;
    entries = visible;
    compute = λ k f m. apply_op k m (f (load_entry k m));
    load_or_store = λ k v m. put_absent k v m (load_entry k m);
    load_or_compute = λ k v m. put_absent k v m (load_entry k m);
    load_and_delete = λ k m. (load_entry k m, drop_key k m);
    load-new = λ k. refl;
    load-store = λ j k v m. refl;
    load-delete = load_entry-drop_key;
    count-new = λ p. refl;
    count-store = count-store_entry;
    count-delete = count-delete_entry;
    compute_cancel = λ k f m h. ap (apply_op k m) h;
    compute_update = λ k f m v h. ap (apply_op k m) h;
    compute_delete = λ k f m h. ap (apply_op k m) h;
    load_or_store_present = λ k v w m h. ap (put_absent k v m) h;
    load_or_store_absent = λ k v m h. ap (put_absent k v m) h;
    load_or_compute_present = λ k v w m h. ap (put_absent k v m) h;
    load_or_compute_absent = λ k v m h. ap (put_absent k v m) h;
    load_and_delete_lem = λ k m. refl;
  }
