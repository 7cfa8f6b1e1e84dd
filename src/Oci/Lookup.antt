-- ===== src/Oci/Lookup.antt =====
-- Fetch, Resolve, Tag and GetConfig of pkg/oci/oci.go, and what a closed store does.
use mac_os_vz_kubelet.Common.{
  String, ◌<>◌, Bool-cases, ◌≡◌, ap, Bool, true, false, Option, none, some, List, is_blank,
  if◌then◌else◌, GoError, text, wrap, join_errors, ◌⊎◌, inl, inr, arith,
}
use mac_os_vz_kubelet.Oci.Processing.{Paths, OciStore, Descriptor, Answers}
use mac_os_vz_kubelet.Oci.{
  err_store_closed, push, add, set, exists, close, get_file_path_for_media_type,
  media_type_config_v1,
}

-- The errors of oras.land/oras-go/v2/errdef.
abbrev pub err_not_found : GoError
err_not_found = text "not found"

abbrev pub err_missing_reference : GoError
err_missing_reference = text "missing reference"

if_true : {A : Type 0} {b : Bool} (x y : A) → b ≡ true → (if b then x else y) ≡ x
if_true x y e = ap (λ (c : Bool). if c then x else y) e

module _ (m : Paths) (join_path : String → String) where
  -- `open_file` is os.Open with its reader, `is_not_exist` os.IsNotExist, and `memory` the Fetch of
  -- the memory store.
  unfoldable pub fetch :
      {R : Type 0}
      → (String → GoError ⊎ R)
      → (GoError → Bool)
      → GoError ⊎ R
      → Descriptor
      → OciStore m
      → GoError ⊎ R
  fetch open_file is_not_exist memory d s =
      if s.closed then inl err_store_closed else elim (m.load d.digest s.digest_to_path) [
        | none ↦ memory
        | some path ↦ elim (open_file path) [
          | inl e ↦
              if is_not_exist e
              then inl (wrap (d.digest <> ": " <> d.media_type) err_not_found)
              else inl e
          | inr r ↦ inr r
        ]
      ]

  unfoldable pub resolve :
      (String → GoError ⊎ Descriptor) → String → OciStore m → GoError ⊎ Descriptor
  resolve memory reference s =
      if s.closed
      then inl err_store_closed
      else if is_blank reference
      then inl err_missing_reference
      else memory reference

  -- The part of Tag below its call of Exists.
  abbrev pub tag_existing : Option GoError → Descriptor → GoError ⊎ Bool → Option GoError
  tag_existing memory d (inl e) = some e
  tag_existing memory d (inr false) = some (wrap (d.digest <> ": " <> d.media_type) err_not_found)
  tag_existing memory d (inr true) = memory

  unfoldable pub tag :
      Option GoError → Answers → Descriptor → String → OciStore m → Option GoError × OciStore m
  tag memory a d reference s =
      if s.closed
      then (some err_store_closed, s)
      else if is_blank reference
      then (some err_missing_reference, s)
      else (let (found, t) = exists m join_path a d s in (tag_existing memory d found, t))

  -- `open_file` is os.Open, `decode` the JSON decoder, and `closed` what the deferred Close returns.
  unfoldable pub get_config :
      {C : Type 0}
      → (String → Option GoError)
      → (String → GoError ⊎ C)
      → C
      → Option GoError
      → OciStore m
      → C × Option GoError
  get_config open_file decode zero_config closed s =
      if s.closed
      then (zero_config, some err_store_closed)
      else elim (get_file_path_for_media_type m join_path media_type_config_v1 s) [
        | inl e ↦ (
          zero_config,
          some (wrap ("failed to get file path for media type " <> media_type_config_v1) e),
        )
        | inr path ↦ elim (open_file path) [
          | some e ↦ (zero_config, some (wrap ("failed to open file " <> path) e))
          | none ↦ elim (decode path) [
            | inl e ↦ (zero_config, join_errors (some (wrap "failed to decode bundle" e)) closed)
            | inr c ↦ (c, closed)
          ]
        ]
      ]

  close-closed :
      (removed : List (Option GoError)) (s : OciStore m)
      → (close m join_path removed s).1.closed ≡ true
  unfolding close
  close-closed removed s = elim (Bool-cases s.closed) [
    | inl e ↦ ground (arith, e)
    | inr e ↦ ground (arith, e)
  ]

  closed_lem :
      (again : List (Option GoError)) (a : Answers) (d : Descriptor) (t : OciStore m)
      (mt path reference : String) (memory : Option GoError) (find : String → GoError ⊎ Descriptor)
      → t.closed ≡ true
      → (close m join_path again t ≡ (some err_store_closed, t))
        × (push m join_path a d t ≡ (some err_store_closed, t))
        × (add m join_path a mt path t ≡ (some err_store_closed, t))
        × (set m join_path a t ≡ (some err_store_closed, t))
        × (exists m join_path a d t ≡ (inl err_store_closed, t))
        × (tag memory a d reference t ≡ (some err_store_closed, t))
        × (resolve find reference t ≡ inl err_store_closed)
        × (get_file_path_for_media_type m join_path mt t ≡ inl err_store_closed)
  unfolding close push add set exists tag resolve get_file_path_for_media_type
  closed_lem again a d t mt path reference memory find e = (
    if_true _ _ e,
    if_true _ _ e,
    if_true _ _ e,
    if_true _ _ e,
    if_true _ _ e,
    if_true _ _ e,
    if_true _ _ e,
    if_true _ _ e,
  )

  -- After Close, whatever it has removed, each of these operations gives the error of a closed store
  -- and changes nothing; a second Close does so too.
  close_lem :
      (removed again : List (Option GoError)) (a : Answers) (d : Descriptor) (s : OciStore m)
      (mt path reference : String) (memory : Option GoError) (find : String → GoError ⊎ Descriptor)
      → let t = (close m join_path removed s).1 in
        (close m join_path again t ≡ (some err_store_closed, t))
        × (push m join_path a d t ≡ (some err_store_closed, t))
        × (add m join_path a mt path t ≡ (some err_store_closed, t))
        × (set m join_path a t ≡ (some err_store_closed, t))
        × (exists m join_path a d t ≡ (inl err_store_closed, t))
        × (tag memory a d reference t ≡ (some err_store_closed, t))
        × (resolve find reference t ≡ inl err_store_closed)
        × (get_file_path_for_media_type m join_path mt t ≡ inl err_store_closed)
  close_lem removed again a d s mt path reference memory find =
      closed_lem again a d (close m join_path removed s).1 mt path reference memory find
        (close-closed removed s)
