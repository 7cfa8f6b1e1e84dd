-- ===== src/Disk/Sparse.antt =====
-- The file that DecompressFileWithPath leaves is the one that a plain copy would leave.
use mac_os_vz_kubelet.Common.{
  ℕ, zero, suc, ◌+◌, ◌-◌, ◌≤◌, ◌<◌, ◌≡◌, refl, sym, ap, ◌∙◌, true, List, [], ◌∷◌, ◌++◌,
  append_assoc, append-nil, arith, nat_eq_iff, length, take, drop, replicate, length-append,
  append-take-drop, length-take-drop, length-drop-lt, subst, concat, if◌then◌else◌, Bool-cases, inl,
  inr,
}
use mac_os_vz_kubelet.Disk.{
  write_at, bytes_equal, Sink, write_chunk, write_chunks, write_reads, decompress,
}

abbrev pub zeros : ℕ → List ℕ
zeros n = replicate n 0

bytes_equal-eq : (xs ys : List ℕ) → bytes_equal xs ys ≡ true → xs ≡ ys
bytes_equal-eq [] [] h = refl
bytes_equal-eq [] (y ∷ ys) h = ground arith
bytes_equal-eq (x ∷ xs) [] h = ground arith
bytes_equal-eq (x ∷ xs) (y ∷ ys) h = ground (arith, bytes_equal-eq xs ys, nat_eq_iff x y)

zeros-add : (m n : ℕ) → zeros (m + n) ≡ zeros m ++ zeros n
zeros-add zero n = ap zeros (omega arith)
zeros-add (suc m) n =
    let e : suc m + n ≡ suc (m + n) = omega arith in rw e (ap (λ l. 0 ∷ l) (zeros-add m n))

length-zeros : (n : ℕ) → length (zeros n) ≡ n
length-zeros zero = refl
length-zeros (suc n) = omega (arith, length-zeros n)

-- A write over zeros that reach far enough.
write_at-zeros :
    (p c : List ℕ) (k : ℕ) → write_at (length p) c (p ++ zeros (length c + k)) ≡ p ++ (c ++ zeros k)
unfolding write_at
write_at-zeros [] [] k = ap zeros (omega arith)
write_at-zeros [] (b ∷ c) k =
    let e : length (b ∷ c) + k ≡ suc (length c + k) = omega arith in
    rw e (ap (λ l. b ∷ l) (write_at-zeros [] c k))
write_at-zeros (x ∷ p) [] k = ap (λ n. x ∷ (p ++ zeros n)) (omega arith)
write_at-zeros (x ∷ p) (b ∷ c) k = ap (λ l. x ∷ l) (write_at-zeros p (b ∷ c) k)

-- The file is what was hashed, and zeros for `rest` more bytes.
pub record IsFilled (rest : ℕ) (s : Sink) : Type 0 where
  pub contents : s.file ≡ s.hashed ++ zeros rest
  pub at_end : s.offset ≡ length s.hashed

-- A chunk of zeros is what the file has there.
zeros-length : (n : ℕ) (chunk : List ℕ) → chunk ≡ zeros n → zeros (length chunk) ≡ chunk
zeros-length n chunk e = rw (e, length-zeros n) refl

module _ (block : ℕ) where
  chunk-contents :
      (chunk : List ℕ) (k : ℕ) (s : Sink)
      → IsFilled (length chunk + k) s
      → (if bytes_equal chunk (zeros block) then s.file else write_at s.offset chunk s.file)
        ≡ s.hashed ++ (chunk ++ zeros k)
  chunk-contents chunk k s h = elim (Bool-cases (bytes_equal chunk (zeros block))) [
    | inl same ↦
        let e = zeros-length block chunk (bytes_equal-eq chunk (zeros block) same) in
        rw same (
          h.contents
          ∙ ap (λ l. s.hashed ++ l) (zeros-add (length chunk) k ∙ ap (λ l. l ++ zeros k) e))
    | inr other ↦ rw other (
        ap (λ n. write_at n chunk s.file) h.at_end
        ∙ ap (write_at (length s.hashed) chunk) h.contents
        ∙ write_at-zeros s.hashed chunk k)
  ]

  write_chunk-IsFilled :
      (chunk : List ℕ) (k : ℕ) (s : Sink)
      → IsFilled (length chunk + k) s
      → IsFilled k (write_chunk block chunk s)
  unfolding write_chunk
  write_chunk-IsFilled chunk k s h = record {
    contents = chunk-contents chunk k s h ∙ sym (append_assoc s.hashed chunk (zeros k));
    at_end = omega (arith, h.at_end, length-append s.hashed chunk);
  }

  -- What a part of the loop does that is given `bytes`.
  abbrev Writes : List ℕ → ℕ → Sink → Sink → Type 0
  Writes bytes k s s' = IsFilled k s' × (s'.hashed ≡ s.hashed ++ bytes)

  more_rest : (m n : ℕ) (s : Sink) → m ≡ n → IsFilled m s → IsFilled n s
  more_rest m n s e h = subst (λ k. IsFilled k s) e h

  Writes-nothing : (k : ℕ) (s : Sink) → IsFilled (0 + k) s → Writes [] k s s
  Writes-nothing k s h = (more_rest (0 + k) k s (omega arith) h, sym (append-nil s.hashed))

  Writes-trans :
      (xs ys : List ℕ) (k : ℕ) (s t u : Sink)
      → t.hashed ≡ s.hashed ++ xs
      → Writes ys k t u
      → Writes (xs ++ ys) k s u
  Writes-trans xs ys k s t u e (h, f) = (h, f ∙ ap (λ l. l ++ ys) e ∙ append_assoc s.hashed xs ys)

  write_chunks_lem :
      (fuel : ℕ) (bytes : List ℕ) (k : ℕ) (s : Sink)
      → 0 < block
      → length bytes ≤ fuel
      → IsFilled (length bytes + k) s
      → Writes bytes k s (write_chunks block fuel bytes s)
  unfolding write_chunks
  write_chunks_lem zero [] k s pos f h = Writes-nothing k s h
  write_chunks_lem zero (b ∷ bytes) k s pos f h = absurd (omega arith)
  write_chunks_lem (suc fuel) [] k s pos f h = Writes-nothing k s h
  write_chunks_lem (suc fuel) (b ∷ bytes) k s pos f h =
      let t = take block (b ∷ bytes) in
      let d = drop block (b ∷ bytes) in
      let u = write_chunk block t s in
      let filled = write_chunk-IsFilled t (length d + k) s (
        more_rest (length (b ∷ bytes) + k) (length t + (length d + k)) s
          (omega (arith, length-take-drop block (b ∷ bytes))) h) in
      let rest =
        write_chunks_lem fuel d k u pos (omega (arith, length-drop-lt block b bytes pos)) filled in
      subst (λ l. Writes l k s (write_chunks block fuel d u)) (append-take-drop block (b ∷ bytes))
        (Writes-trans t d k s u (write_chunks block fuel d u) (unfold write_chunk in refl) rest)

  write_reads_lem :
      (reads : List (List ℕ)) (k : ℕ) (s : Sink)
      → 0 < block
      → IsFilled (length (concat reads) + k) s
      → Writes (concat reads) k s (write_reads block reads s)
  unfolding write_reads
  write_reads_lem [] k s pos h = Writes-nothing k s h
  write_reads_lem (bytes ∷ reads) k s pos h =
      let filled =
        more_rest (length (bytes ++ concat reads) + k) (length bytes + (length (concat reads) + k))
          s (omega (arith, length-append bytes (concat reads))) h in
      let (g, e) =
        write_chunks_lem (length bytes) bytes (length (concat reads) + k) s pos (omega arith)
          filled in
      Writes-trans bytes (concat reads) k s (write_chunks block (length bytes) bytes s)
        (write_reads block reads (write_chunks block (length bytes) bytes s)) e
        (write_reads_lem reads k (write_chunks block (length bytes) bytes s) pos g)

  -- Where the content is no longer than the announced size and the size of a block is not zero: however
  -- the reads of the decompressor cut the content, the output file is the content, as a plain copy
  -- would leave it, followed by zeros up to the announced size if that is larger, and the digest is
  -- that of the content. So with the announced size that of the content, the file is the content.
  -- Nothing is said of a content that is longer than announced.
  pub decompress-eq-copy :
      (uncompressed_size : ℕ) (reads : List (List ℕ))
      → 0 < block
      → length (concat reads) ≤ uncompressed_size
      → let out = decompress block uncompressed_size reads in
        (out.file ≡ concat reads ++ zeros (uncompressed_size - length (concat reads)))
        × (out.hashed ≡ concat reads)
        × (uncompressed_size ≡ length (concat reads) → out.file ≡ concat reads)
  unfolding decompress
  decompress-eq-copy size reads pos fits =
      let bytes = concat reads in
      let start : Sink = record { offset = 0; file = zeros size; hashed = [] } in
      let k = size - length bytes in
      let filled : IsFilled (length bytes + k) start = record {
        contents = ap zeros (omega arith);
        at_end = refl;
      } in
      let (h, e) = write_reads_lem reads k start pos filled in
      let file = h.contents ∙ ap (λ l. l ++ zeros k) e in
      (
        file,
        e,
        λ same.
            let z : k ≡ 0 = omega arith in file ∙ ap (λ n. bytes ++ zeros n) z ∙ append-nil bytes,
      )
