-- ===== src/Downloader/Attempts.antt =====
-- What a successful download has done, and the directory that it used.
use mac_os_vz_kubelet.Common.{
  ℕ, suc, ◌≤◌, ◌<◌, String, ◌≡◌, refl, ap, ◌∙◌, Bool, true, false, Option, none, some, List, [],
  ◌∷◌, ◌++◌, map, take, length, GoError, join_errors, ◌⊎◌, inl, inr, arith, zero,
}
use mac_os_vz_kubelet.Network.Text.{split}
use mac_os_vz_kubelet.Oci.Processing.{Paths, OciStore}
use mac_os_vz_kubelet.Oci.{
  get_file_path_for_media_type, close, media_type_disk_image, media_type_aux_image,
}
use mac_os_vz_kubelet.Vm.Platform.{MacPlatformConfigurationOptions}
use mac_os_vz_kubelet.Downloader.Download.{
  Params, with_defaults, Backoff, backoff_of, Library, Answers, OciConfig, pull, download,
  read_store, from_paths, with_store, failures, condition,
}

-- The results of a condition that says n times that it is not done, and then that it is.
abbrev pub done_after : ℕ → List (Bool × Option GoError)
done_after zero = (true, none) ∷ []
done_after (suc n) = (false, none) ∷ done_after n

-- What the documentation of wait.ExponentialBackoffWithContext promises: it calls the condition at
-- most as often as there are steps, and returns no error only when the last of its calls has said
-- that it is done and those before that they are not, none with an error.
pub record RetryLaws (retry : Backoff → List (Bool × Option GoError) → Option GoError × ℕ)
    : Type 0 where
  pub within : (b : Backoff) (rs : List (Bool × Option GoError)) → (retry b rs).1 ≤ b.steps
  pub succeeds :
      (b : Backoff) (rs : List (Bool × Option GoError))
      → (retry b rs).0 ≡ none
      → (n : ℕ) × (take (retry b rs).1 rs ≡ done_after n)

length-take : {A : Type 0} (n : ℕ) (xs : List A) → length (take n xs) ≤ n
length-take n [] = omega arith
length-take zero (x ∷ xs) = omega arith
length-take (suc n) (x ∷ xs) = omega (arith, length-take n xs)

length-fails :
    (fails : List GoError) → length (map (λ e. some e) fails ++ none ∷ []) ≡ suc (length fails)
length-fails [] = refl
length-fails (e ∷ fails) = omega (arith, length-fails fails)

join_errors-none : (e f : Option GoError) → join_errors e f ≡ none → e ≡ none
join_errors-none none f h = refl
join_errors-none (some d) none h = h
join_errors-none (some d) (some e) h = ground (arith, h)

take-conditions :
    (k : ℕ) (os : List (Option GoError)) → take k (map condition os) ≡ [] → take k os ≡ []
take-conditions zero [] h = refl
take-conditions zero (o ∷ os) h = refl
take-conditions (suc k) [] h = refl
take-conditions (suc k) (o ∷ os) h = ground (arith, h)

-- Where the condition is done at the end, the pulls before the last have failed, and the last has not.
conditions-fails :
    (n k : ℕ) (os : List (Option GoError))
    → take k (map condition os) ≡ done_after n
    → (fails : List GoError) × (take k os ≡ map (λ e. some e) fails ++ none ∷ [])
unfolding condition
conditions-fails zero zero [] h = ground (arith, h)
conditions-fails zero zero (o ∷ os) h = ground (arith, h)
conditions-fails (suc n) zero [] h = ground (arith, h)
conditions-fails (suc n) zero (o ∷ os) h = ground (arith, h)
conditions-fails zero (suc k) [] h = ground (arith, h)
conditions-fails (suc n) (suc k) [] h = ground (arith, h)
conditions-fails zero (suc k) (none ∷ os) h =
    ([], ap (λ r. none ∷ r) (take-conditions k os (ground (arith, h))))
conditions-fails zero (suc k) (some e ∷ os) h = ground (arith, h)
conditions-fails (suc n) (suc k) (none ∷ os) h = ground (arith, h)
conditions-fails (suc n) (suc k) (some e ∷ os) h =
    let (fails, split) = conditions-fails n k os (ground (arith, h)) in
    (e ∷ fails, ap (λ r. some e ∷ r) split)

module _ (m : Paths) (join_path : String → String) where
  failures-fails :
      (fails : List GoError) → failures m join_path (map (λ e. some e) fails ++ none ∷ []) ≡ fails
  failures-fails [] = refl
  failures-fails (e ∷ fails) = ap (λ es. e ∷ es) (failures-fails fails)

  -- The two paths of a configuration are those of the store.
  abbrev pub FromStore : OciStore m → MacPlatformConfigurationOptions → Type 0
  FromStore s c =
      (get_file_path_for_media_type m join_path media_type_disk_image s ≡ inr c.block_storage_path)
      × (get_file_path_for_media_type m join_path media_type_aux_image s
          ≡ inr c.auxiliary_storage_path)

  abbrev FromPaths : GoError ⊎ String → GoError ⊎ String → MacPlatformConfigurationOptions → Type 0
  FromPaths disk aux c = (disk ≡ inr c.block_storage_path) × (aux ≡ inr c.auxiliary_storage_path)

  from_paths-FromPaths :
      (disk aux : GoError ⊎ String) (c : OciConfig × Option GoError)
      → (from_paths m join_path disk aux c).1 ≡ none
      → FromPaths disk aux (from_paths m join_path disk aux c).0
  from_paths-FromPaths (inl e) aux c h = ground (arith, h)
  from_paths-FromPaths (inr disk) (inl e) c h = ground (arith, h)
  from_paths-FromPaths (inr disk) (inr aux) (c, none) h = (refl, refl)
  from_paths-FromPaths (inr disk) (inr aux) (c, some e) h = ground (arith, h)

  -- What a run of the loop has done.
  abbrev pub Pulled :
      ℕ
      → Option GoError × ℕ
      → List (Option GoError)
      → OciStore m
      → (MacPlatformConfigurationOptions × Option GoError) × List GoError
      → Type 0
  Pulled steps loop outcomes s r =
      (fails : List GoError) × (take loop.1 outcomes ≡ map (λ e. some e) fails ++ none ∷ [])
      × (length fails < steps)
      × (r.1 ≡ fails)
      × FromStore s r.0.0

  with_store-Pulled :
      (steps : ℕ) (a : Answers m) (new : Option GoError) (loop : Option GoError × ℕ)
      (outcomes : List (Option GoError))
      → loop.1 ≤ steps
      → (loop.0 ≡ none
          → (fails : List GoError) × (take loop.1 outcomes ≡ map (λ e. some e) fails ++ none ∷ []))
      → (with_store m join_path a new loop outcomes).0.1 ≡ none
      → Pulled steps loop outcomes a.store (with_store m join_path a new loop outcomes)
  unfolding read_store
  with_store-Pulled steps a (some e) loop outcomes w s h = ground (arith, h)
  with_store-Pulled steps a none (some e, made) outcomes w s h =
      ground (arith, join_errors-none (some e) (close m join_path a.removed a.store).0 h)
  with_store-Pulled steps a none (none, made) outcomes w s h =
      let (fails, split) = s refl in
      (
        fails,
        split,
        omega (arith, length-take made outcomes, length-fails fails, ap length split, w),
        ap (failures m join_path) split ∙ failures-fails fails,
        from_paths-FromPaths _ _ _ (join_errors-none _ _ h),
      )

  -- A download that returns no error has had a pull that succeeded, after fewer pulls that failed than
  -- it may make; each of those was reported, and the paths that it returns are those of the store.
  pub download-Pulled :
      (retry : Backoff → List (Bool × Option GoError) → Option GoError × ℕ) (lib : Library)
      (a : Answers m) (p : Params)
      → RetryLaws retry
      → (download m join_path retry lib a p).0.1 ≡ none
      → Pulled
          (with_defaults p).max_attempts
          (retry
            (backoff_of (with_defaults p))
            (map condition (map (pull lib p.ref p.credentials) a.copies)))
          (map (pull lib p.ref p.credentials) a.copies)
          a.store
          (download m join_path retry lib a p)
  unfolding download with_defaults
  download-Pulled retry lib a p laws h =
      let b = backoff_of (with_defaults p) in
      let outcomes = map (pull lib p.ref p.credentials) a.copies in
      let results = map condition outcomes in
      with_store-Pulled b.steps a a.new_store (retry b results) outcomes (laws.within b results)
        (λ e.
          let (n, split) = laws.succeeds b results e in
          conditions-fails n (retry b results).1 outcomes split)
        h
