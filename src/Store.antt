-- ===== src/Store.antt =====
-- The concurrent map of github.com/puzpuzpuz/xsync, which holds every table of the program, as an
-- interface: each method is one atomic step, and the laws are what its documentation says.
-- `entries` is what Range visits: each entry of the map once. `load_or_compute` is LoadOrCompute with
-- a callback that yields a value, as every callback of the program does.
pub mod Assoc
use mac_os_vz_kubelet.Common.{
  ℕ, ◌+◌, ◌≡◌, Bool, true, false, Option, none, some, List, [], ◌∷◌, Comparable, ◌==◌,
  if◌then◌else◌, count,
}

-- The value and the operation that a Compute callback returns.
pub data ComputeOp (V : Type 0) : Type 0 where
  cancel_op : ComputeOp V
  update_op : V → ComputeOp V
  delete_op : ComputeOp V

-- The entry of a key, as a list.
abbrev pub entry_of : {K V : Type 0} → K → Option V → List (K × V)
entry_of k none = []
entry_of k (some v) = (k, v) ∷ []

pub record SyncMap (K V : Type 0) ⦃cmp : Comparable K⦄ : Type 1 where
  pub Map : Type 0
  pub new : Map
  pub load : K → Map → Option V
  pub store : K → V → Map → Map
  pub delete : K → Map → Map
  pub entries : Map → List (K × V)
  pub compute : K → (Option V → ComputeOp V) → Map → Option V × Map
  pub load_or_store : K → V → Map → (V × Bool) × Map
  pub load_or_compute : K → V → Map → (V × Bool) × Map
  pub load_and_delete : K → Map → Option V × Map
  pub load-new : (k : K) → load k new ≡ none
  pub load-store :
      (j k : K) (v : V) (m : Map) → load j (store k v m) ≡ (if k == j then some v else load j m)
  pub load-delete : (j k : K) (m : Map) → load j (delete k m) ≡ (if k == j then none else load j m)
  pub count-new : (p : K × V → Bool) → count p (entries new) ≡ 0
  pub count-store :
      (p : K × V → Bool) (k : K) (v : V) (m : Map)
      → count p (entries (store k v m)) ≡ count p ((k, v) ∷ []) + count p (entries (delete k m))
  pub count-delete :
      (p : K × V → Bool) (k : K) (m : Map)
      → count p (entries m) ≡ count p (entry_of k (load k m)) + count p (entries (delete k m))
  pub compute_cancel :
      (k : K) (f : Option V → ComputeOp V) (m : Map)
      → f (load k m) ≡ cancel_op
      → compute k f m ≡ (load k m, m)
  pub compute_update :
      (k : K) (f : Option V → ComputeOp V) (m : Map) (v : V)
      → f (load k m) ≡ update_op v
      → compute k f m ≡ (some v, store k v m)
  pub compute_delete :
      (k : K) (f : Option V → ComputeOp V) (m : Map)
      → f (load k m) ≡ delete_op
      → compute k f m ≡ (none, delete k m)
  pub load_or_store_present :
      (k : K) (v w : V) (m : Map) → load k m ≡ some w → load_or_store k v m ≡ ((w, true), m)
  pub load_or_store_absent :
      (k : K) (v : V) (m : Map) → load k m ≡ none → load_or_store k v m ≡ ((v, false), store k v m)
  pub load_or_compute_present :
      (k : K) (v w : V) (m : Map) → load k m ≡ some w → load_or_compute k v m ≡ ((w, true), m)
  pub load_or_compute_absent :
      (k : K) (v : V) (m : Map)
      → load k m ≡ none
      → load_or_compute k v m ≡ ((v, false), store k v m)
  pub load_and_delete_lem : (k : K) (m : Map) → load_and_delete k m ≡ (load k m, delete k m)
