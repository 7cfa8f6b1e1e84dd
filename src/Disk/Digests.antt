-- ===== src/Disk/Digests.antt =====
-- internal/disk/validator.go and digest.go: a file is checked against its digest, which is kept in a
-- second file beside it as long as the first is not changed.
pub mod History
use mac_os_vz_kubelet.Common.{
  ℕ, String, ◌<>◌, ◌==◌, text_comparable, Bool, Option, none, some, ltb, if◌then◌else◌, GoError,
  text, wrap, join_errors, ◌⊎◌, inl, inr,
}

-- A file and its digest file, each with its modification time; `none` is a file that is not there.
pub record Files : Type 0 where
  pub file : Option (String × ℕ)
  pub digest_file : Option (String × ℕ)

-- What the calls on the two files answer, besides that a file is not there; `partial` is what a
-- failed write leaves in the digest file.
pub record Answers : Type 0 where
  pub stat_file : Option GoError
  pub stat_digest_file : Option GoError
  pub read_digest_file : Option GoError
  pub open_file : Option GoError
  pub copy_file : Option GoError
  pub create : Option GoError
  pub write : Option GoError
  pub close : Option GoError
  pub partial : String

abbrev pub err_not_exist : GoError
err_not_exist = text "file does not exist"

-- A call on a file.
abbrev pub on_file : {A : Type 0} → Option GoError → Option A → GoError ⊎ A
on_file (some e) f = inl e
on_file none none = inl err_not_exist
on_file none (some a) = inr a

-- `verified` is what the Verifier of a valid digest says of a content, and `now` the time of the calls.
module _ (verified : String → String → Bool) (a : Answers) (now : ℕ) where
  unfoldable pub write_digest_file : String → Files → Option GoError × Files
  write_digest_file d fs = elim a.create [
    | some e ↦ (some e, fs)
    | none ↦ elim a.write [
      | some e ↦ (join_errors (some e) a.close, record fs { digest_file = some (a.partial, now) })
      | none ↦ (a.close, record fs { digest_file = some (d, now) })
    ]
  ]

  abbrev pub verify_content : String → String → Files → Option GoError × Files
  verify_content d content fs = elim a.copy_file [
    | some e ↦ (some e, fs)
    | none ↦
        if verified d content
        then write_digest_file d fs
        else (some (text "digest verification failed"), fs)
  ]

  unfoldable pub compute_and_verify_file_digest : String → Files → Option GoError × Files
  unfolding write_digest_file
  compute_and_verify_file_digest d fs = elim (on_file a.open_file fs.file) [
    | inl e ↦ (some e, fs)
    | inr (content, _) ↦ verify_content d content fs
  ]

  abbrev pub compare_stored : String → String → Option GoError
  compare_stored d stored = elim a.read_digest_file [
    | some e ↦ some (wrap "error reading digest file" e)
    | none ↦
        if d == stored
        then none
        else some (text ("digest does not match: got " <> stored <> ", expected " <> d))
  ]

  abbrev pub use_digest_file : String → ℕ → Option (String × ℕ) → Files → Option GoError × Files
  use_digest_file d mtime none fs = compute_and_verify_file_digest d fs
  use_digest_file d mtime (some (stored, time)) fs =
      if ltb mtime time then (compare_stored d stored, fs) else compute_and_verify_file_digest d fs

  unfoldable pub validate_file_with_digest : String → Files → Option GoError × Files
  unfolding compute_and_verify_file_digest
  validate_file_with_digest d fs = elim (on_file a.stat_file fs.file) [
    | inl e ↦ (some (wrap "error checking file" e), fs)
    | inr (_, mtime) ↦ elim a.stat_digest_file [
      | some e ↦ (some (wrap "error checking digest file" e), fs)
      | none ↦ use_digest_file d mtime fs.digest_file fs
    ]
  ]
