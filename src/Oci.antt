-- ===== src/Oci.antt =====
-- The store of pkg/oci: oci.go, oci_processor.go, oci_descriptor.go and mediatype.go. What the file
-- system and the memory store of oras answer is an argument of each operation. An operation that
-- holds the lock of a name is one step.
pub mod Processing
pub mod Pushes
pub mod Runs
pub mod Lookup
pub mod Config
mod Examples
use mac_os_vz_kubelet.Common.{
  String, ◌<>◌, ◌==◌, text_comparable, Bool, true, false, not, ◌&&◌, ◌||◌, Option, none, some, List,
  [], ◌∷◌, any, is_blank, is_some, or_else, if◌then◌else◌, GoError, text, wrap, join_errors, ◌⊎◌,
  inl, inr,
}
use mac_os_vz_kubelet.Store.{SyncMap}
use mac_os_vz_kubelet.Oci.Processing.{
  Paths, OciStore, Descriptor, Answers, process_content_by_type, with_temp_file, store_digest,
  store_media_type,
}

abbrev pub media_type_disk_image : String
media_type_disk_image = "application/vnd.agoda.macosvz.disk.image.v1"

abbrev pub media_type_aux_image : String
media_type_aux_image = "application/vnd.agoda.macosvz.aux.image.v1"

abbrev pub media_type_config_v1 : String
media_type_config_v1 = "application/vnd.agoda.macosvz.config.v1+json"

abbrev pub title : String → String
title mt =
    if mt == media_type_config_v1
    then "config.json"
    else if mt == media_type_disk_image
    then "disk.img"
    else if mt == media_type_aux_image
    then "aux.img"
    else ""

abbrev pub is_media_type_supported : String → Bool
is_media_type_supported mt =
    mt == media_type_config_v1 || mt == media_type_disk_image || mt == media_type_aux_image

abbrev pub err_store_closed : GoError
err_store_closed = text "store already closed"

abbrev pub err_duplicate_name : GoError
err_duplicate_name = text "duplicate name"

-- `join_path` joins the working directory with a name.
module _ (m : Paths) (join_path : String → String) where
  abbrev pub name_exists : String → OciStore m → Bool
  name_exists name s = any (λ n. n == name) s.existing

  abbrev pub mark : String → OciStore m → OciStore m
  mark name s = record s { existing = name ∷ s.existing }

  abbrev pub mark_unless : String → Option GoError → OciStore m → OciStore m
  mark_unless name err s = record s {
    existing = if is_some err then s.existing else name ∷ s.existing;
  }

  -- The part of Push under the lock of the name.
  unfoldable pub push_named : Answers → Descriptor → OciStore m → Option GoError × OciStore m
  push_named a d s =
      if name_exists d.title s
      then (some (wrap d.title err_duplicate_name), s)
      else if is_media_type_supported d.media_type
      then (let (err, t) = process_content_by_type m a d (join_path d.title) s in
          (err, mark_unless d.title err t))
      else (some (text ("unsupported media type: " <> d.media_type)), s)

  unfoldable pub push : Answers → Descriptor → OciStore m → Option GoError × OciStore m
  unfolding push_named
  push a d s =
      if s.closed
      then (some err_store_closed, s)
      else if is_blank d.title
      then (a.memory_push, s)
      else push_named a d s

  -- descriptorFromStorageFile
  unfoldable pub descriptor_from_storage_file : Answers → OciStore m → Option GoError × OciStore m
  descriptor_from_storage_file a s =
      with_temp_file m a
        (λ path t. elim a.compressed [
          | inl e ↦ (some e, t)
          | inr digest ↦ (none, store_digest m digest path t)
        ])
        s

  -- The part of Add under the lock of the name, with the file that it is given.
  unfoldable pub add_named : Answers → String → String → OciStore m → Option GoError × OciStore m
  unfolding descriptor_from_storage_file
  add_named a mt path s =
      if name_exists (title mt) s
      then (some (wrap (title mt) err_duplicate_name), s)
      else elim a.stat [
        | some e ↦ (some (wrap ("failed to stat " <> path) e), s)
        | none ↦
            let (err, t) = descriptor_from_storage_file a s in
            elim err [
              | some e ↦ (some (wrap ("failed to create descriptor for " <> title mt) e), t)
              | none ↦ (none, mark (title mt) (store_media_type m mt path t))
            ]
      ]

  unfoldable pub add : Answers → String → String → OciStore m → Option GoError × OciStore m
  unfolding add_named
  add a mt path s =
      if s.closed
      then (some err_store_closed, s)
      else if is_media_type_supported mt
      then add_named a mt (a.abs_path (if is_blank path then title mt else path)) s
      else (some (text ("unsupported media type: " <> mt)), s)

  -- descriptorFromConfig; its results have no names, so that the error of the deferred Close is lost.
  unfoldable pub descriptor_from_config : Answers → OciStore m → Option GoError × OciStore m
  descriptor_from_config a s = elim a.temp_file [
    | inl e ↦ (some e, s)
    | inr path ↦
        let t = record s { tmp_files = path ∷ s.tmp_files } in
        elim a.compressed [
          | inl e ↦ (some e, t)
          | inr digest ↦ (none, store_digest m digest path t)
        ]
  ]

  unfoldable pub set : Answers → OciStore m → Option GoError × OciStore m
  unfolding descriptor_from_config
  set a s =
      if s.closed
      then (some err_store_closed, s)
      else if name_exists "config.json" s
      then (some (wrap "config.json" err_duplicate_name), s)
      else (let (err, t) = descriptor_from_config a s in
          elim err [
            | some e ↦ (some (wrap "failed to create descriptor for config.json" e), t)
            | none ↦ (none, mark "config.json" t)
          ])

  -- The content of a title on the disk is validated against the digest of the descriptor.
  unfoldable pub exists : Answers → Descriptor → OciStore m → (GoError ⊎ Bool) × OciStore m
  exists a d s =
      let valid =
        not (is_some a.stat)
        && not s.ignore_existing
        && not (is_blank d.title)
        && not
            (is_some (a.validate (join_path d.title) (or_else d.uncompressed_digest d.digest))) in
      if s.closed
      then (inl err_store_closed, s)
      else if is_some (m.load d.media_type s.media_type_to_path)
      then (inr true, s)
      else if valid
      then (inr true, store_media_type m d.media_type (join_path d.title) s)
      else (a.memory_exists, s)

  unfoldable pub get_file_path_for_media_type : String → OciStore m → GoError ⊎ String
  get_file_path_for_media_type mt s =
      if s.closed then inl err_store_closed else elim (m.load mt s.media_type_to_path) [
        | none ↦ inl (text ("media type " <> mt <> " not found"))
        | some path ↦ inr path
      ]

  abbrev pub join_all : List (Option GoError) → Option GoError
  join_all [] = none
  join_all (e ∷ es) = join_errors e (join_all es)

  -- `removed` has the errors of the removals of the temporary files.
  unfoldable pub close : List (Option GoError) → OciStore m → Option GoError × OciStore m
  close removed s =
      if s.closed
      then (some err_store_closed, s)
      else (join_all removed, record s { closed = true })
