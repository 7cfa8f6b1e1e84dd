-- ===== src/Oci/Pushes.antt =====
-- What a push records: the path of a media type, only for content that has been checked.
use mac_os_vz_kubelet.Common.{
  ℕ, String, ◌==◌, text_comparable, ◌≡◌, refl, sym, ap, ◌∙◌, subst, Bool, true, false, not, ◌&&◌,
  Option, none, some, ◌∷◌, is_some, is_blank, if◌then◌else◌, GoError, ◌⊎◌, inl, inr, arith,
  Option-cases, Sum-cases, Bool-cases,
}
use mac_os_vz_kubelet.Oci.Processing.{
  Paths, OciStore, Descriptor, Answers, check_decompressed, process_compressed_content,
  save_verified, process_regular_content, process_content_by_type, process_annotated,
}
use mac_os_vz_kubelet.Oci.{push_named, push, name_exists, is_media_type_supported, err_store_closed}

abbrev pub ok {ℓ} : {A : Type ℓ} → Option A → Bool
ok o = not (is_some o)

-- Whether the decompression gives the digest that is announced.
abbrev pub has_digest : String → GoError ⊎ String → Bool
has_digest want (inl e) = false
has_digest want (inr got) = got == want

abbrev pub decompresses : Answers → String → GoError ⊎ ℕ → Bool
decompresses a want (inl e) = false
decompresses a want (inr n) = has_digest want (a.decompress n)

abbrev pub opened : GoError ⊎ String → Bool
opened (inl e) = false
opened (inr path) = true

-- Every check of the content of a descriptor.
abbrev pub checked : Answers → Descriptor → Option String → Option String → Bool
checked a d (some size) (some want) =
    opened a.temp_file && ok a.save_file && decompresses a want (a.parse_int size)
checked a d _ _ = ok a.create && ok a.save_file && ok (a.verify_digest d.digest)

-- The path that is stored under the digest of a descriptor before its content is checked: that of the
-- temporary file for compressed content, the one of its title for other content, once it is saved.
abbrev pub temp_path : GoError ⊎ ℕ → GoError ⊎ String → Bool → Option String
temp_path (inr n) (inr tmp) true = some tmp
temp_path (inr n) (inr tmp) false = none
temp_path (inr n) (inl e) saved = none
temp_path (inl e) tmp saved = none

abbrev pub saved_at : Answers → String → Option String → Option String → Option String
saved_at a path (some size) (some want) = temp_path (a.parse_int size) a.temp_file (ok a.save_file)
saved_at a path _ _ = if ok a.create && ok a.save_file then some path else none

if-not : {A : Type 0} (b : Bool) (x y : A) → (if not b then y else x) ≡ (if b then x else y)
if-not b x y = ground arith

module _ (m : Paths) where
  abbrev pub with_path : String → Option String → m.Map → m.Map
  with_path digest none paths = paths
  with_path digest (some path) paths = m.store digest path paths

  -- What the content leaves: a path under its digest if it was saved, its path under its media type if it was checked, and an error unless it
  -- was checked and its file closed.
  abbrev pub Records :
      Bool
      → Option String
      → Answers
      → Descriptor
      → String
      → OciStore m
      → Option GoError × OciStore m
      → Type 0
  Records passed saved a d path s r =
      (is_some r.0 ≡ not (passed && ok a.close_file))
      × (r.1.media_type_to_path ≡ (
          if passed then m.store d.media_type path s.media_type_to_path else s.media_type_to_path))
      × (r.1.existing ≡ s.existing)
      × (r.1.digest_to_path ≡ with_path d.digest saved s.digest_to_path)

  regular-Records :
      (a : Answers) (d : Descriptor) (path : String) (s : OciStore m)
      → Records
          (ok a.create && ok a.save_file && ok (a.verify_digest d.digest))
          (if ok a.create && ok a.save_file then some path else none)
          a
          d
          path
          s
          (process_regular_content m a d path s)
  unfolding process_regular_content save_verified
  regular-Records a d path s = (ground arith, ground arith, ground arith, ground arith)

  compressed-Records :
      (a : Answers) (d : Descriptor) (path size want : String) (s : OciStore m)
      → Records
          (opened a.temp_file && ok a.save_file && decompresses a want (a.parse_int size))
          (temp_path (a.parse_int size) a.temp_file (ok a.save_file))
          a
          d
          path
          s
          (process_compressed_content m a d path size want s)
  unfolding process_compressed_content check_decompressed
  compressed-Records a d path size want s = elim (Sum-cases (a.parse_int size)) [
    | inl (e, f) ↦ (ground (arith, f), ground (arith, f), ground (arith, f), ground (arith, f))
    | inr (n, f) ↦ elim (Sum-cases a.temp_file) [
      | inl (e, g) ↦
          (ground (arith, f, g), ground (arith, f, g), ground (arith, f, g), ground (arith, f, g))
      | inr (t, g) ↦ elim (Sum-cases (a.decompress n)) [
        | inl (e, h) ↦ (
          ground (arith, f, g, h),
          ground (arith, f, g, h),
          ground (arith, f, g, h),
          ground (arith, f, g, h),
        )
        | inr (got, h) ↦ (
          ground (arith, f, g, h),
          ground (arith, f, g, h),
          ground (arith, f, g, h),
          ground (arith, f, g, h),
        )
      ]
    ]
  ]

  annotated-Records :
      (a : Answers) (d : Descriptor) (path : String) (size want : Option String) (s : OciStore m)
      → Records
          (checked a d size want)
          (saved_at a path size want)
          a
          d
          path
          s
          (process_annotated m a d path size want s)
  annotated-Records a d path (some size) (some want) s = compressed-Records a d path size want s
  annotated-Records a d path none want s = regular-Records a d path s
  annotated-Records a d path (some size) none s = regular-Records a d path s

  -- Every check of a push, from the directory on.
  abbrev pub content_checked : Answers → Descriptor → Bool
  content_checked a d = ok a.mkdir_all && checked a d d.uncompressed_size d.uncompressed_digest

  abbrev pub content_saved_at : Answers → Descriptor → String → Option String
  content_saved_at a d path =
      if ok a.mkdir_all then saved_at a path d.uncompressed_size d.uncompressed_digest else none

  content-Records :
      (a : Answers) (d : Descriptor) (path : String) (s : OciStore m)
      → Records
          (content_checked a d)
          (content_saved_at a d path)
          a
          d
          path
          s
          (process_content_by_type m a d path s)
  unfolding process_content_by_type
  content-Records a d path s = elim (Option-cases a.mkdir_all) [
    | inl e ↦
        ground (arith, e, annotated-Records a d path d.uncompressed_size d.uncompressed_digest s)
    | inr (x, e) ↦ (ground (arith, e), ground (arith, e), ground (arith, e), ground (arith, e))
  ]

  module _ (join_path : String → String) where
    -- Whether the name and the media type of a descriptor admit its content.
    abbrev pub admits : Descriptor → OciStore m → Bool
    admits d s = not (name_exists m join_path d.title s) && is_media_type_supported d.media_type

    -- What a push leaves whose content passes its checks or not.
    abbrev Pushed :
        Bool
        → Option String
        → Answers
        → Descriptor
        → OciStore m
        → Option GoError × OciStore m
        → Type 0
    Pushed good saved a d s r =
        let passed = admits d s && good in
        (r.1.media_type_to_path ≡ (
          if passed
          then m.store d.media_type (join_path d.title) s.media_type_to_path
          else s.media_type_to_path))
        × (is_some r.0 ≡ not (passed && ok a.close_file))
        × (r.1.existing ≡ (if passed && ok a.close_file then d.title ∷ s.existing else s.existing))
        × (r.1.digest_to_path
            ≡ with_path d.digest (if admits d s then saved else none) s.digest_to_path)

    push_named-Pushed :
        (good : Bool) (saved : Option String) (a : Answers) (d : Descriptor) (s : OciStore m)
        → Records good saved a d
            (join_path d.title)
            s
            (process_content_by_type m a d (join_path d.title) s)
        → Pushed good saved a d s (push_named m join_path a d s)
    unfolding push_named
    push_named-Pushed good saved a d s (e, p, x, q) =
        elim (Bool-cases (name_exists m join_path d.title s)) [
          | inl f ↦ rw f (refl, refl, refl, refl)
          | inr f ↦ elim (Bool-cases (is_media_type_supported d.media_type)) [
            | inl g ↦
                rw (f, g)
                  (
                    p,
                    e,
                    rw (e, x) (if-not (good && ok a.close_file) (d.title ∷ s.existing) s.existing),
                    q,
                  )
            | inr g ↦ rw (f, g) (refl, refl, refl, refl)
          ]
        ]

    -- A push of a titled descriptor into an open store records its path under its media type, and no
    -- other path under a media type, exactly where
    -- the name is free, the media type is supported, and the content has passed all checks: for
    -- compressed content that it is saved and decompresses to the digest that is announced, for other
    -- content that it is saved and has the digest of the descriptor. It succeeds, and takes the name,
    -- exactly where in addition the file could be closed. Under the digest it
    -- records a path where the name and the media type admit the content and it is saved, whether it
    -- passes the checks or not: that of the temporary file for compressed content, else its own.
    pub push_lem :
        (a : Answers) (d : Descriptor) (s : OciStore m)
        → s.closed ≡ false
        → is_blank d.title ≡ false
        → let r = push m join_path a d s in
          let passed = admits d s && content_checked a d in
          (r.1.media_type_to_path ≡ (
            if passed
            then m.store d.media_type (join_path d.title) s.media_type_to_path
            else s.media_type_to_path))
          × (is_some r.0 ≡ not (passed && ok a.close_file))
          × (r.1.existing
              ≡ (if passed && ok a.close_file then d.title ∷ s.existing else s.existing))
          × (r.1.digest_to_path
              ≡ with_path d.digest
                  (if admits d s then content_saved_at a d (join_path d.title) else none)
                  s.digest_to_path)
    unfolding push
    push_lem a d s open_ titled =
        let opened_ = λ (c : Bool).
          if c
          then (some err_store_closed, s)
          else if is_blank d.title
          then (a.memory_push, s)
          else push_named m join_path a d s in
        let named = λ (c : Bool). if c then (a.memory_push, s) else push_named m join_path a d s in
        subst (Pushed (content_checked a d) (content_saved_at a d (join_path d.title)) a d s)
          (sym (ap opened_ open_ ∙ ap named titled))
          (push_named-Pushed (content_checked a d) (content_saved_at a d (join_path d.title)) a d s
            (content-Records a d (join_path d.title) s))
