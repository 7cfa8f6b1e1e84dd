-- ===== src/Disk.antt =====
-- internal/disk/compression.go: DecompressFileWithPath, which writes what it reads from the
-- decompressor block by block, and leaves out the blocks of zeros. A file is the list of its bytes.
-- `reads` is what the reads of the decompressor give before the one that gives io.EOF, which gives
-- no bytes.
pub mod Sparse
pub mod Digests
mod Examples
use mac_os_vz_kubelet.Common.{
  ℕ, zero, suc, ◌+◌, Bool, true, false, ◌&&◌, List, [], ◌∷◌, ◌++◌, nat_eq, if◌then◌else◌, length,
  take, drop, replicate,
}

-- The sequence of a Seek and a Write, the file grown with zeros up to the offset.
unfoldable pub write_at : ℕ → List ℕ → List ℕ → List ℕ
write_at offset [] file = file
write_at zero (b ∷ bs) [] = b ∷ bs
write_at zero (b ∷ bs) (c ∷ file) = b ∷ write_at zero bs file
write_at (suc n) (b ∷ bs) [] = 0 ∷ write_at n (b ∷ bs) []
write_at (suc n) (b ∷ bs) (c ∷ file) = c ∷ write_at n (b ∷ bs) file

-- bytes.Equal
abbrev pub bytes_equal : List ℕ → List ℕ → Bool
bytes_equal [] [] = true
bytes_equal (x ∷ xs) (y ∷ ys) = nat_eq x y && bytes_equal xs ys
bytes_equal _ _ = false

-- The variables of the loop: the offset, the output file, and the bytes that the hash was given.
pub record Sink : Type 0 where
  pub offset : ℕ
  pub file : List ℕ
  pub hashed : List ℕ

-- `block` is sparseBlockSize.
module _ (block : ℕ) where
  unfoldable pub write_chunk : List ℕ → Sink → Sink
  write_chunk chunk s = record {
    offset = s.offset + length chunk;
    file = if bytes_equal chunk (replicate block 0) then s.file else write_at s.offset chunk s.file;
    hashed = s.hashed ++ chunk;
  }

  -- The inner loop over what one read has given; its length is fuel enough.
  unfoldable pub write_chunks : ℕ → List ℕ → Sink → Sink
  unfolding write_chunk
  write_chunks zero bytes s = s
  write_chunks (suc fuel) [] s = s
  write_chunks (suc fuel) (b ∷ bytes) s =
      write_chunks fuel (drop block (b ∷ bytes)) (write_chunk (take block (b ∷ bytes)) s)

  unfoldable pub write_reads : List (List ℕ) → Sink → Sink
  unfolding write_chunks
  write_reads [] s = s
  write_reads (bytes ∷ reads) s = write_reads reads (write_chunks (length bytes) bytes s)

  -- The file that is left, and the bytes that its digest is of.
  unfoldable pub decompress : ℕ → List (List ℕ) → Sink
  unfolding write_reads
  decompress uncompressed_size reads =
      write_reads reads (record { offset = 0; file = replicate uncompressed_size 0; hashed = [] })
