-- ===== src/Oci/Processing.antt =====
-- oci_processor.go: what a push writes, checks and records. The store's map of the statuses of names
-- is the list of the names that exist.
use mac_os_vz_kubelet.Common.{
  ℕ, String, ◌<>◌, ◌==◌, text_comparable, Bool, Option, none, some, List, ◌∷◌, if◌then◌else◌,
  GoError, text, wrap, join_errors, ◌⊎◌, inl, inr,
}
use mac_os_vz_kubelet.Store.{SyncMap}

abbrev pub Paths : Type 1
Paths = SyncMap String String

pub record OciStore (m : Paths) : Type 0 where
  pub ignore_existing : Bool
  pub closed : Bool
  pub digest_to_path : m.Map
  pub media_type_to_path : m.Map
  pub existing : List String
  pub tmp_files : List String

-- A descriptor of an image, with its annotations; a title that is missing is empty.
pub record Descriptor : Type 0 where
  pub media_type : String
  pub digest : String
  pub title : String
  pub uncompressed_size : Option String
  pub uncompressed_digest : Option String

-- What the calls out of the package return in one operation.
pub record Answers : Type 0 where
  pub memory_push : Option GoError
  pub memory_exists : GoError ⊎ Bool
  pub mkdir_all : Option GoError
  pub parse_int : String → GoError ⊎ ℕ
  pub temp_file : GoError ⊎ String
  pub save_file : Option GoError
  pub close_file : Option GoError
  pub decompress : ℕ → GoError ⊎ String
  pub create : Option GoError
  pub verify_digest : String → Option GoError
  pub stat : Option GoError
  pub abs_path : String → String
  pub compressed : GoError ⊎ String
  pub validate : String → String → Option GoError

module _ (m : Paths) where
  abbrev pub store_digest : String → String → OciStore m → OciStore m
  store_digest digest path s = record s { digest_to_path = m.store digest path s.digest_to_path }

  abbrev pub store_media_type : String → String → OciStore m → OciStore m
  store_media_type mt path s = record s {
    media_type_to_path = m.store mt path s.media_type_to_path;
  }

  -- A temporary file with what is done with it, and the deferred Close.
  abbrev pub with_temp_file :
      Answers
      → (String → OciStore m → Option GoError × OciStore m)
      → OciStore m
      → Option GoError × OciStore m
  with_temp_file a body s = elim a.temp_file [
    | inl e ↦ (some e, s)
    | inr path ↦
        let (err, t) = body path (record s { tmp_files = path ∷ s.tmp_files }) in
        (join_errors err a.close_file, t)
  ]

  -- The code below the save of the compressed content.
  unfoldable pub check_decompressed :
      Answers → Descriptor → String → String → ℕ → OciStore m → Option GoError × OciStore m
  check_decompressed a d path want size s = elim (a.decompress size) [
    | inl e ↦ (some (wrap "failed to decompress file" e), s)
    | inr got ↦
        if got == want
        then (none, store_media_type d.media_type path s)
        else (some (text ("digest mismatch: expected " <> want <> ", got " <> got)), s)
  ]

  unfoldable pub process_compressed_content :
      Answers → Descriptor → String → String → String → OciStore m → Option GoError × OciStore m
  unfolding check_decompressed
  process_compressed_content a d path size want s = elim (a.parse_int size) [
    | inl e ↦ (some (wrap "invalid uncompressed size" e), s)
    | inr n ↦
        with_temp_file a
          (λ tmp t. elim a.save_file [
            | some e ↦ (some (wrap "failed to save content to temp file" e), t)
            | none ↦ check_decompressed a d path want n (store_digest d.digest tmp t)
          ])
          s
  ]

  -- The code below the creation of the file.
  unfoldable pub save_verified :
      Answers → Descriptor → String → OciStore m → Option GoError × OciStore m
  save_verified a d path s = elim a.save_file [
    | some e ↦ (some (wrap "failed to save content" e), s)
    | none ↦
        let t = store_digest d.digest path s in
        elim (a.verify_digest d.digest) [
          | some e ↦ (some (wrap "failed to verify file digest" e), t)
          | none ↦ (none, store_media_type d.media_type path t)
        ]
  ]

  unfoldable pub process_regular_content :
      Answers → Descriptor → String → OciStore m → Option GoError × OciStore m
  unfolding save_verified
  process_regular_content a d path s = elim a.create [
    | some e ↦ (some (wrap "failed to create file" e), s)
    | none ↦ let (err, t) = save_verified a d path s in (join_errors err a.close_file, t)
  ]

  abbrev pub process_annotated :
      Answers
      → Descriptor
      → String
      → Option String
      → Option String
      → OciStore m
      → Option GoError × OciStore m
  process_annotated a d path (some size) (some want) s =
      process_compressed_content a d path size want s
  process_annotated a d path _ _ s = process_regular_content a d path s

  unfoldable pub process_content_by_type :
      Answers → Descriptor → String → OciStore m → Option GoError × OciStore m
  unfolding process_compressed_content process_regular_content
  process_content_by_type a d path s = elim a.mkdir_all [
    | some e ↦ (some (wrap "failed to ensure the working directory exists" e), s)
    | none ↦ process_annotated a d path d.uncompressed_size d.uncompressed_digest s
  ]
