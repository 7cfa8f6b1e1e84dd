-- ===== src/Oci/Examples.antt =====
-- The theorems on the store of images at the push of a compressed disk.
use mac_os_vz_kubelet.Common.{
  ◌+◌, ◌≤◌, String, ◌<>◌, ◌==◌, text_comparable, ◌≡◌, refl, false, not, ◌&&◌, none, some, List, [],
  ◌∷◌, any, count, is_some, if◌then◌else◌, text, inr, is_blank, ◌++◌,
}
use mac_os_vz_kubelet.Store.Assoc.{assoc_map}
use mac_os_vz_kubelet.Oci.Processing.{Paths, OciStore, Descriptor, Answers}
use mac_os_vz_kubelet.Oci.{push, media_type_disk_image}
use mac_os_vz_kubelet.Oci.Pushes.{
  ok, admits, content_checked, content_saved_at, with_path, push_lem,
}
use mac_os_vz_kubelet.Oci.Config.{
  Document, new_macos_config, empty_config, marshal_json, unmarshal_json,
  unmarshal_json-marshal_json,
}
use mac_os_vz_kubelet.Oci.Runs.{
  Operation, push_op, add_op, set_op, close_op, successes, successes_once,
}

abbrev paths : Paths
paths = assoc_map

abbrev in_cache : String → String
in_cache name = "/cache/" <> name

abbrev new_store : OciStore paths
new_store = record {
  ignore_existing = false;
  closed = false;
  digest_to_path = [];
  media_type_to_path = [];
  existing = [];
  tmp_files = [];
}

abbrev disk : Descriptor
disk = record {
  media_type = media_type_disk_image;
  digest = "sha256:aa";
  title = "disk.img";
  uncompressed_size = some "4096";
  uncompressed_digest = some "sha256:bb";
}

abbrev answers : Answers
answers = record {
  memory_push = none;
  memory_exists = inr false;
  mkdir_all = none;
  parse_int = λ s. inr 4096;
  temp_file = inr "/tmp/macosvz_file_1";
  save_file = none;
  close_file = none;
  decompress = λ n. inr "sha256:bb";
  create = none;
  verify_digest = λ d. none;
  stat = none;
  abs_path = in_cache;
  compressed = inr "sha256:cc";
  validate = λ path d. some (text "digest does not match");
}

push_lem_example :
    let r = push paths in_cache answers disk new_store in
    let passed = admits paths in_cache disk new_store && content_checked paths answers disk in
    (r.1.media_type_to_path
      ≡ (if passed then paths.store media_type_disk_image (in_cache "disk.img") [] else []))
    × (is_some r.0 ≡ not (passed && ok answers.close_file))
    × (r.1.existing ≡ (if passed && ok answers.close_file then "disk.img" ∷ [] else []))
    × (r.1.digest_to_path
        ≡ with_path paths disk.digest
            (if admits paths in_cache disk new_store
              then content_saved_at paths answers disk (in_cache "disk.img")
              else none)
            [])
push_lem_example = push_lem paths in_cache answers disk new_store refl refl

abbrev operations : List Operation
operations =
    push_op answers disk
    ∷ add_op answers media_type_disk_image ""
    ∷ set_op answers
    ∷ push_op answers disk
    ∷ close_op []
    ∷ []

successes_once_example :
    count (λ n. n == "disk.img") (successes paths in_cache operations new_store)
      + (if any (λ n. n == "disk.img") new_store.existing then 1 else 0)
    ≤ 1
successes_once_example = successes_once paths in_cache operations new_store "disk.img"

successes_test : successes paths in_cache operations new_store ≡ "disk.img" ∷ "config.json" ∷ []
unfolding successes push mac_os_vz_kubelet.Oci.Processing.process_content_by_type
    mac_os_vz_kubelet.Oci.add mac_os_vz_kubelet.Oci.set
successes_test = refl

-- A coder whose bytes are the object itself.
unmarshal_json-marshal_json_example :
    let c = new_macos_config "hw" "id" in
    (unmarshal_json (λ d. d) (λ d. inr d) (marshal_json (λ d. d) (λ d. inr d) c) c
      ≡ inr (record c {
        media_type = if is_blank c.media_type then c.media_type else c.media_type;
        storage = c.storage ++ c.storage;
      }))
    × (unmarshal_json (λ d. d) (λ d. inr d) (marshal_json (λ d. d) (λ d. inr d) c) empty_config
        ≡ inr c)
unmarshal_json-marshal_json_example =
    unmarshal_json-marshal_json {Bytes = Document} (λ d. d) (λ d. inr d) (λ d. refl)
      (new_macos_config "hw" "id") (new_macos_config "hw" "id")
