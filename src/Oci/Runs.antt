-- ===== src/Oci/Runs.antt =====
-- Sequences of operations on a store: no name is taken twice.
use mac_os_vz_kubelet.Common.{
  ◌+◌, ◌≤◌, String, ◌==◌, text_comparable, ◌≡◌, refl, sym, ◌∙◌, subst, Bool, true, false, not, ◌&&◌,
  ◌||◌, Option, none, some, List, [], ◌∷◌, any, count, is_some, is_blank, if◌then◌else◌, GoError,
  inl, inr, arith, Bool-cases,
}
use mac_os_vz_kubelet.Oci.Processing.{Paths, OciStore, Descriptor, Answers}
use mac_os_vz_kubelet.Oci.{
  push, add, add_named, set, exists, close, title, descriptor_from_config,
  descriptor_from_storage_file,
}
use mac_os_vz_kubelet.Oci.Pushes.{push_lem}

-- An operation with what it is answered.
pub data Operation : Type 0 where
  push_op exists_op : Answers → Descriptor → Operation
  add_op : Answers → String → String → Operation
  set_op : Answers → Operation
  close_op : List (Option GoError) → Operation

if_flipped :
    {A : Type 0} (b x : Bool) (u v : A) → b ≡ not x → (if b then u else v) ≡ (if x then v else u)
if_flipped b true u v h = rw h refl
if_flipped b false u v h = rw h refl

free_of :
    (b n supported good closes : Bool)
    → b ≡ not (((not n && supported) && good) && closes)
    → (b || not n) ≡ true
free_of b true supported good closes h = rw h refl
free_of true false supported good closes h = refl
free_of false false supported good closes h = refl

module _ (m : Paths) (join_path : String → String) where
  -- The name under which an operation has succeeded, with the store that it leaves.
  abbrev pub on_success : String → Option GoError × OciStore m → Option String × OciStore m
  on_success name (err, t) = (if is_some err then none else some name, t)

  unfoldable pub perform : Operation → OciStore m → Option String × OciStore m
  perform (push_op a d) s =
      if is_blank d.title
      then (none, (push m join_path a d s).1)
      else on_success d.title (push m join_path a d s)
  perform (exists_op a d) s = (none, (exists m join_path a d s).1)
  perform (add_op a mt path) s = on_success (title mt) (add m join_path a mt path s)
  perform (set_op a) s = on_success "config.json" (set m join_path a s)
  perform (close_op errs) s = (none, (close m join_path errs s).1)

  abbrev pub cons_name : Option String → List String → List String
  cons_name none names = names
  cons_name (some n) names = n ∷ names

  -- The names under which the operations of a run succeed.
  unfoldable pub successes : List Operation → OciStore m → List String
  unfolding perform
  successes [] s = []
  successes (o ∷ os) s = let (n, t) = perform o s in cons_name n (successes os t)

  -- A success takes a name that was free, and nothing else takes one.
  abbrev Takes : OciStore m → Option String × OciStore m → Type 0
  Takes s (none, t) = t.existing ≡ s.existing
  Takes s (some name, t) =
      (any (λ n. n == name) s.existing ≡ false) × (t.existing ≡ name ∷ s.existing)

  -- An operation that marks its name if it was free and nothing failed.
  abbrev Marks : String → OciStore m → Option GoError × OciStore m → Type 0
  Marks name s r =
      (r.1.existing ≡ (if is_some r.0 then s.existing else name ∷ s.existing))
      × ((is_some r.0 || not (any (λ n. n == name) s.existing)) ≡ true)

  on_success-Takes :
      (name : String) (s : OciStore m) (err : Option GoError) (t : OciStore m)
      → Marks name s (err, t)
      → Takes s (on_success name (err, t))
  on_success-Takes name s none t (h, k) = (ground arith, h)
  on_success-Takes name s (some e) t (h, k) = h

  storage_file-existing :
      (a : Answers) (s : OciStore m)
      → (descriptor_from_storage_file m join_path a s).1.existing ≡ s.existing
  unfolding descriptor_from_storage_file
  storage_file-existing a s = ground arith

  config-existing :
      (a : Answers) (s : OciStore m)
      → (descriptor_from_config m join_path a s).1.existing ≡ s.existing
  unfolding descriptor_from_config
  config-existing a s = ground arith

  add_named-Marks :
      (a : Answers) (mt path : String) (s : OciStore m)
      → Marks (title mt) s (add_named m join_path a mt path s)
  unfolding add_named
  add_named-Marks a mt path s = (ground (arith, storage_file-existing a s), ground arith)

  set-Marks : (a : Answers) (s : OciStore m) → Marks "config.json" s (set m join_path a s)
  unfolding set
  set-Marks a s = (ground (arith, config-existing a s), ground arith)

  add-Marks :
      (a : Answers) (mt path : String) (s : OciStore m)
      → Marks (title mt) s (add m join_path a mt path s)
  unfolding add
  add-Marks a mt path s =
      let (h, k) = add_named-Marks a mt (a.abs_path (if is_blank path then title mt else path)) s in
      (ground (arith, h), ground (arith, k))

  push-Marks :
      (a : Answers) (d : Descriptor) (s : OciStore m)
      → is_blank d.title ≡ false
      → Marks d.title s (push m join_path a d s)
  unfolding push
  push-Marks a d s titled = elim (Bool-cases s.closed) [
    | inl e ↦ (ground (arith, e), ground (arith, e))
    | inr e ↦
        let (p, q, x, _) = push_lem m join_path a d s e titled in
        (
          x
              ∙ sym (
                  if_flipped (is_some (push m join_path a d s).0) _ s.existing
                    (d.title ∷ s.existing) q),
          free_of _ _ _ _ _ q,
        )
  ]

  push-untitled :
      (a : Answers) (d : Descriptor) (s : OciStore m)
      → is_blank d.title ≡ true
      → (push m join_path a d s).1.existing ≡ s.existing
  unfolding push
  push-untitled a d s e = ground (arith, e)

  perform-Takes : (o : Operation) (s : OciStore m) → Takes s (perform o s)
  unfolding perform exists close
  perform-Takes (push_op a d) s = elim (Bool-cases (is_blank d.title)) [
    | inl e ↦ rw e (push-untitled a d s e)
    | inr e ↦ rw e (
        on_success-Takes d.title s (push m join_path a d s).0 (push m join_path a d s).1
          (push-Marks a d s e))
  ]
  perform-Takes (exists_op a d) s = ground arith
  perform-Takes (add_op a mt path) s =
      on_success-Takes (title mt) s (add m join_path a mt path s).0 (add m join_path a mt path s).1
        (add-Marks a mt path s)
  perform-Takes (set_op a) s =
      on_success-Takes "config.json" s (set m join_path a s).0 (set m join_path a s).1
        (set-Marks a s)
  perform-Takes (close_op errs) s = ground arith

  abbrev is : String → String → Bool
  is name n = n == name

  once_step :
      (os : List Operation) (s : OciStore m) (r : Option String × OciStore m) (name : String)
      → Takes s r
      → count (is name) (successes os r.1) + (if any (is name) r.1.existing then 1 else 0) ≤ 1
      → count (is name) (cons_name r.0 (successes os r.1))
          + (if any (is name) s.existing then 1 else 0)
        ≤ 1
  once_step os s (none, t) name h l =
      subst (λ e. count (is name) (successes os t) + (if any (is name) e then 1 else 0) ≤ 1) h l
  once_step os s (some k, t) name (f, h) l =
      let same : k ≡ name → any (is name) s.existing ≡ false =
        λ q. subst (λ n. any (is n) s.existing ≡ false) q f in
      let l' =
        subst (λ e. count (is name) (successes os t) + (if any (is name) e then 1 else 0) ≤ 1) h
          l in
      ground (arith, l', same, text_comparable.same_iff k name)

  -- However the operations on a store follow each other and whatever they meet, at most one of them
  -- succeeds under a name, and none under a name that the store had before.
  pub successes_once :
      (os : List Operation) (s : OciStore m) (name : String)
      → count (λ n. n == name) (successes os s) + (if any (λ n. n == name) s.existing then 1 else 0)
        ≤ 1
  unfolding successes
  successes_once [] s name = ground arith
  successes_once (o ∷ os) s name =
      once_step os s (perform o s) name (perform-Takes o s) (successes_once os (perform o s).1 name)
