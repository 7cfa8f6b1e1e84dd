-- ===== src/Disk/Digests/History.antt =====
-- What the validation of a file proves of it, after any history of the two files.
use mac_os_vz_kubelet.Common.{
  ℕ, ◌+◌, ◌≤◌, String, ◌≡◌, Bool, true, false, ◌&&◌, ◌==◌, Option, none, some, List, [], ◌∷◌, All,
  ltb, arith, text_comparable, ◌⊎◌, inl, inr,
}
use mac_os_vz_kubelet.Disk.Digests.{
  Files, Answers, compute_and_verify_file_digest, validate_file_with_digest, write_digest_file,
}

-- What happens to the files: the file is written or removed, the digest file is removed, one of the two
-- checks runs, or the file is decompressed into, whose digest DecompressFileWithPath computes and
-- writes itself. A decompression has the content that it leaves and the digest of its stream.
pub data Event : Type 0 where
  written : String → Event
  removed digest_removed : Event
  computed validated : Answers → String → Event
  decompressed : Answers → String → String → Event

-- The files and the clock.
pub record World : Type 0 where
  pub files : Files
  pub now : ℕ

abbrev pub no_files : World
no_files = record { files = record { file = none; digest_file = none }; now = 0 }

module _ (verified : String → String → Bool) where
  -- There is a file, and it has the digest.
  abbrev pub has_digest : String → Option (String × ℕ) → Bool
  has_digest d none = false
  has_digest d (some (content, _)) = verified d content

  -- The digest file is newer than the file and holds the digest.
  abbrev pub is_kept : String → Option (String × ℕ) → Option (String × ℕ) → Bool
  is_kept d (some (_, t)) (some (stored, u)) = ltb t u && d == stored
  is_kept d _ _ = false

  -- What a check makes of the digest file.
  abbrev Checked : Answers → ℕ → String → Files → Files → Type 0
  Checked a now d fs fs' =
      (fs'.file ≡ fs.file)
      × ((fs'.digest_file ≡ fs.digest_file)
          ⊎ ((fs'.digest_file ≡ some (a.partial, now))
              ⊎ ((has_digest d fs.file ≡ true) × (fs'.digest_file ≡ some (d, now)))))

  compute_lem :
      (a : Answers) (now : ℕ) (d : String) (fs : Files)
      → let r = compute_and_verify_file_digest verified a now d fs in
        Checked a now d fs r.1 × (r.0 ≡ none → has_digest d fs.file ≡ true)
  unfolding compute_and_verify_file_digest write_digest_file
  compute_lem a now d fs = ground arith

  write_lem :
      (a : Answers) (now : ℕ) (d content : String) (fs : Files)
      → verified d content ≡ true
      → let gs = record fs { file = some (content, now) } in
        Checked a now d gs (write_digest_file verified a now d gs).1
  unfolding write_digest_file
  write_lem a now d content fs same = ground (arith, same)

  validate_lem :
      (a : Answers) (now : ℕ) (d : String) (fs : Files)
      → let r = validate_file_with_digest verified a now d fs in
        Checked a now d fs r.1
        × (r.0 ≡ none → (has_digest d fs.file ≡ true) ⊎ (is_kept d fs.file fs.digest_file ≡ true))
  unfolding validate_file_with_digest
  validate_lem a now d fs = ground (arith, compute_lem a now d fs, text_comparable.same_iff d)

  abbrev pub change : Event → ℕ → Files → Files
  change (written content) now fs = record fs { file = some (content, now) }
  change removed now fs = record fs { file = none }
  change digest_removed now fs = record fs { digest_file = none }
  change (computed a d) now fs = (compute_and_verify_file_digest verified a now d fs).1
  change (validated a d) now fs = (validate_file_with_digest verified a now d fs).1
  change (decompressed a content d) now fs =
      (write_digest_file verified a now d (record fs { file = some (content, now) })).1

  -- Each event comes some time after the one before it.
  unfoldable pub run_events : List (ℕ × Event) → World → World
  run_events [] w = w
  run_events ((wait, event) ∷ events) w =
      run_events events (record { files = change event (w.now + wait) w.files; now = w.now + wait })

  -- The text of a failed write is none of the digests that are checked, and a decompressed file has
  -- the digest of its stream, as it has where the announced size is that of the content.
  abbrev pub Fails : (String → Bool) → Event → Type 0
  Fails is_digest (computed a d) = is_digest a.partial ≡ false
  Fails is_digest (validated a d) = is_digest a.partial ≡ false
  Fails is_digest (decompressed a content d) =
      (is_digest a.partial ≡ false) × (verified d content ≡ true)
  Fails is_digest _ = Unit

  module _ (is_digest : String → Bool) where
    abbrev IsPast : Option (String × ℕ) → ℕ → Type 0
    IsPast none now = Unit
    IsPast (some (_, t)) now = t ≤ now

    -- A digest in a digest file that is newer than the file is that of the file.
    record IsHonest (fs : Files) (now : ℕ) : Type 0 where
      digest_past : IsPast fs.digest_file now
      honest :
          (d : String)
          → is_digest d ≡ true
          → is_kept d fs.file fs.digest_file ≡ true
          → has_digest d fs.file ≡ true

    Checked-IsHonest :
        (a : Answers) (now : ℕ) (d : String) (fs fs' : Files)
        → is_digest a.partial ≡ false
        → IsHonest fs now
        → Checked a now d fs fs'
        → IsHonest fs' now
    Checked-IsHonest a now d fs fs' part h (file, digest) = record {
      digest_past = ground (arith, h.digest_past, digest);
      honest = λ e dig kept.
          ground
            (arith, h.honest e, text_comparable.same_iff e a.partial, text_comparable.same_iff e d);
    }

    -- The digest file is that of an earlier time, and nothing is added to it.
    later-IsHonest : (fs : Files) (now wait : ℕ) → IsHonest fs now → IsHonest fs (now + wait)
    later-IsHonest fs now wait h = record {
      digest_past = ground (arith, h.digest_past);
      honest = h.honest;
    }

    written-IsHonest :
        (content : String) (now : ℕ) (fs : Files)
        → IsHonest fs now
        → IsHonest (record fs { file = some (content, now) }) now
    written-IsHonest content now fs h = record {
      digest_past = h.digest_past;
      honest = λ e dig kept. ground (arith, h.digest_past);
    }

    change-IsHonest :
        (event : Event) (now : ℕ) (fs : Files)
        → Fails is_digest event
        → IsHonest fs now
        → IsHonest (change event now fs) now
    change-IsHonest (written content) now fs f h = written-IsHonest content now fs h
    change-IsHonest removed now fs f h = record {
      digest_past = h.digest_past;
      honest = λ e dig kept. ground arith;
    }
    change-IsHonest digest_removed now fs f h = record {
      digest_past = tt;
      honest = λ e dig kept. ground (arith);
    }
    change-IsHonest (computed a d) now fs f h =
        Checked-IsHonest a now d fs (compute_and_verify_file_digest verified a now d fs).1 f h
          (compute_lem a now d fs).0
    change-IsHonest (validated a d) now fs f h =
        Checked-IsHonest a now d fs (validate_file_with_digest verified a now d fs).1 f h
          (validate_lem a now d fs).0
    change-IsHonest (decompressed a content d) now fs (f, same) h =
        Checked-IsHonest a now d (record fs { file = some (content, now) })
          (write_digest_file verified a now d (record fs { file = some (content, now) })).1 f
          (written-IsHonest content now fs h) (write_lem a now d content fs same)

    run-IsHonest :
        (events : List (ℕ × Event)) (w : World)
        → All (λ (e : ℕ × Event). Fails is_digest e.1) events
        → IsHonest w.files w.now
        → IsHonest (run_events events w).files (run_events events w).now
    unfolding run_events
    run-IsHonest [] w f h = h
    run-IsHonest ((wait, event) ∷ events) w (f, g) h =
        run-IsHonest events _ g
          (change-IsHonest event (w.now + wait) w.files f (later-IsHonest w.files w.now wait h))

    pub validate-run_events :
        (events : List (ℕ × Event)) (wait : ℕ) (a : Answers) (d : String)
        → All (λ (e : ℕ × Event). Fails is_digest e.1) events
        → is_digest d ≡ true
        → (validate_file_with_digest verified a
            ((run_events events no_files).now + wait)
            d
            (run_events events no_files).files).0
          ≡ none
        → has_digest d (run_events events no_files).files.file ≡ true
    validate-run_events events wait a d f dig ok =
        let w = run_events events no_files in
        let h : IsHonest w.files w.now =
          run-IsHonest events no_files f
            (record { digest_past = tt; honest = λ e g kept. ground arith }) in
        elim ((validate_lem a (w.now + wait) d w.files).1 ok) [
          | inl same ↦ same
          | inr kept ↦ h.honest d dig kept
        ]
