-- ===== src/Downloader/DownloadExamples.antt =====
-- The theorems on one download at a registry that refuses the first pull.
use mac_os_vz_kubelet.Common.{
  ℕ, zero, suc, ap, ◌≤◌, String, ◌<>◌, ◌≡◌, refl, Bool, true, false, Option, none, some, List, [],
  ◌∷◌, map, take, GoError, text, inr, arith, text_comparable,
}
use mac_os_vz_kubelet.Store.Assoc.{assoc_map}
use mac_os_vz_kubelet.Oci.Processing.{Paths, OciStore}
use mac_os_vz_kubelet.Oci.{
  media_type_disk_image, media_type_aux_image, media_type_config_v1, get_file_path_for_media_type,
  close,
}
use mac_os_vz_kubelet.Oci.Lookup.{get_config}
use mac_os_vz_kubelet.Downloader.Download.{
  Params, Backoff, backoff_of, with_defaults, Library, Answers, pull, download, read_store,
  condition,
}
use mac_os_vz_kubelet.Downloader.Attempts.{RetryLaws, done_after, Pulled, download-Pulled}

-- A loop that calls its condition until it is done or fails, at most as often as there are steps.
abbrev counted : Option GoError × ℕ → Option GoError × ℕ
counted (e, n) = (e, suc n)

abbrev attempts : ℕ → List (Bool × Option GoError) → Option GoError × ℕ
attempts zero os = (some (text "timed out waiting for the condition"), 0)
attempts (suc n) [] = (some (text "timed out waiting for the condition"), 0)
attempts (suc n) ((true, none) ∷ os) = (none, 1)
attempts (suc n) ((false, none) ∷ os) = counted (attempts n os)
attempts (suc n) ((d, some e) ∷ os) = (some e, 1)

abbrev retrying : Backoff → List (Bool × Option GoError) → Option GoError × ℕ
retrying b os = attempts b.steps os

attempts_within : (n : ℕ) (os : List (Bool × Option GoError)) → (attempts n os).1 ≤ n
attempts_within zero os = omega arith
attempts_within (suc n) [] = omega arith
attempts_within (suc n) ((true, none) ∷ os) = omega arith
attempts_within (suc n) ((false, none) ∷ os) = omega (arith, attempts_within n os)
attempts_within (suc n) ((d, some e) ∷ os) = omega arith

take_zero : {A : Type 0} (xs : List A) → take 0 xs ≡ []
take_zero [] = refl
take_zero (x ∷ xs) = refl

attempts_succeed :
    (n : ℕ) (os : List (Bool × Option GoError))
    → (attempts n os).0 ≡ none
    → (k : ℕ) × (take (attempts n os).1 os ≡ done_after k)
attempts_succeed zero os h = ground (arith, h)
attempts_succeed (suc n) [] h = ground (arith, h)
attempts_succeed (suc n) ((true, none) ∷ os) h = (0, ap (λ r. (true, none) ∷ r) (take_zero os))
attempts_succeed (suc n) ((false, none) ∷ os) h =
    let (k, split) = attempts_succeed n os h in (suc k, ap (λ r. (false, none) ∷ r) split)
attempts_succeed (suc n) ((d, some e) ∷ os) h = ground (arith, h)

retrying-RetryLaws : RetryLaws retrying
retrying-RetryLaws = record {
  within = λ b os. attempts_within b.steps os;
  succeeds = λ b os. attempts_succeed b.steps os;
}

abbrev paths : Paths
paths = assoc_map

abbrev cached : String → String
cached name = "/cache/" <> name

abbrev pulled_store : OciStore paths
pulled_store = record {
  ignore_existing = false;
  closed = false;
  digest_to_path = [];
  media_type_to_path =
      (media_type_disk_image, "/cache/disk.img")
      ∷ (media_type_aux_image, "/cache/aux.img")
      ∷ (media_type_config_v1, "/cache/config.json")
      ∷ [];
  existing = [];
  tmp_files = [];
}

-- example.test/mac:1
abbrev reference : List ℕ
reference = 114 ∷ 47 ∷ 109 ∷ 58 ∷ 49 ∷ []

abbrev lib : Library
lib = record {
  to_text = λ s. "ref";
  blobs_path = λ a b. a <> "/blobs/" <> b;
  parse_ip = λ h. none;
  new_repository = λ r. inr (114 ∷ [], 49 ∷ []);
}

abbrev answers : Answers paths
answers = record {
  new_store = none;
  copies = (λ r. some (text "connection refused")) ∷ (λ r. none) ∷ [];
  store = pulled_store;
  open_file = λ p. none;
  decode = λ p. inr (record { hardware_model_data = "bW9kZWw="; machine_id_data = "aWQ=" });
  close_file = none;
  removed = [];
}

abbrev params : Params
params = record {
  ref = reference;
  store_path = "/cache";
  ignore_existing = false;
  credentials = record { server = ""; username = ""; password = ""; identity_token = "" };
  min_retry_delay = 0;
  max_delay = 0;
  max_attempts = 0;
}

downloaded : (download paths cached retrying lib answers params).0.1 ≡ none
unfolding download condition with_defaults pull read_store get_file_path_for_media_type get_config
    close
downloaded = refl

download-Pulled_example :
    Pulled paths cached
      (with_defaults params).max_attempts
      (retrying
        (backoff_of (with_defaults params))
        (map condition (map (pull lib reference params.credentials) answers.copies)))
      (map (pull lib reference params.credentials) answers.copies)
      pulled_store
      (download paths cached retrying lib answers params)
download-Pulled_example =
    download-Pulled paths cached retrying lib answers params retrying-RetryLaws downloaded
