-- ===== src/Disk/Examples.antt =====
-- The theorems on decompression at a small block size, and on the digest of a file.
use mac_os_vz_kubelet.Common.{
  ℕ, ◌-◌, ◌≡◌, refl, true, none, some, ◌==◌, text_comparable, List, [], ◌∷◌, ◌++◌, arith, concat,
  length, text, is_blank, not,
}
use mac_os_vz_kubelet.Disk.{Sink, decompress}
use mac_os_vz_kubelet.Disk.Digests.{Answers, validate_file_with_digest}
use mac_os_vz_kubelet.Disk.Digests.History.{
  Event, written, computed, validated, digest_removed, run_events, no_files, has_digest,
  validate-run_events,
}
use mac_os_vz_kubelet.Disk.Sparse.{zeros, decompress-eq-copy}

-- Two reads, with a whole block of zeros in the second.
abbrev reads : List (List ℕ)
reads = (7 ∷ 0 ∷ 5 ∷ []) ∷ (0 ∷ 0 ∷ 9 ∷ []) ∷ []

abbrev out : Sink
out = decompress 2 6 reads

decompress-eq-copy_example :
    (out.file ≡ concat reads ++ zeros (6 - length (concat reads)))
    × (out.hashed ≡ concat reads)
    × (6 ≡ length (concat reads) → out.file ≡ concat reads)
decompress-eq-copy_example = decompress-eq-copy 2 6 reads (omega arith) (omega arith)

abbrev fine : Answers
fine = record {
  stat_file = none;
  stat_digest_file = none;
  read_digest_file = none;
  open_file = none;
  copy_file = none;
  create = none;
  write = none;
  close = none;
  partial = "";
}

-- A failed write leaves a digest file with nothing in it.
abbrev disk_full : Answers
disk_full = record fine { write = some (text "no space left on device") }

-- The image is written, checked without a digest file being left, and checked again.
abbrev events : List (ℕ × Event)
events =
    (1, written "image")
    ∷ (1, computed disk_full "image")
    ∷ (1, digest_removed)
    ∷ (1, validated fine "image")
    ∷ []

validate-run_events_example :
    has_digest (λ d c. d == c) "image" (run_events (λ d c. d == c) events no_files).files.file
    ≡ true
unfolding run_events validate_file_with_digest
validate-run_events_example =
    validate-run_events (λ d c. d == c) (λ d. not (is_blank d)) events 1 fine "image"
      (tt, (refl, (tt, (refl, tt)))) refl refl
