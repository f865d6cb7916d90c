-- ===== src/Object/Write.antt =====
-- internal/object/object.go: Write, which cuts a stream into chunks. The stream is the bytes that it
-- yields and what comes after them: its end, or a failed read. The buffer is its length. `commit` is
-- an argument over a state of the caller's, and may add to the reference that it is given. The
-- checksum of package hash/crc32 and the random prefix are arguments.
pub mod Pieces
pub mod Keeps
pub mod Gathers
use kavo.Base.{
  ℕ, zero, suc, ◌+◌, ◌-◌, Bool, true, false, ◌||◌, ◌&&◌, Option, none, some, List, [], ◌∷◌, ◌++◌,
  ltb, ◌==◌, if◌then◌else◌, min, length, take, drop, Bytes, Result, ok, err, ◌>>=◌,
}
use kavo.Object.Manifest.{ChunkRef, Manifest, no_manifest, small_object, chunk_id}

-- A stream: its bytes, and whether a read past them fails.
pub record Source : Type 0 where
  pub content : Bytes
  pub fails : Bool

pub data WriteError (E : Type 0) : Type 0 where
  bad_chunk_size read_failed : WriteError E
  refused : E → WriteError E

module _ {E : Type 0} where
  -- readOrEnd: the bytes that fill a buffer of length `n`, or fewer at the end
  unfoldable pub read_or_end : Source → ℕ → Result (WriteError E) (Bytes × Source)
  read_or_end src n =
      if ltb (length src.content) n && src.fails
      then err read_failed
      else ok (take n src.content, record src { content = drop n src.content })

  -- readChunk: what was read, the length of the buffer from now on, and the rest of the stream
  unfoldable pub read_chunk : Source → ℕ → ℕ → Result (WriteError E) (Bytes × ℕ × Source)
  read_chunk src buf chunk_size = do
    (first, src1) ← read_or_end src buf
    if ltb (length first) buf || buf == chunk_size then ok (first, buf, src1) else do
      (probe, src2) ← read_or_end src1 1
      if length probe == 0 then ok (first, buf, src1) else do
        (rest, src3) ← read_or_end src2 (chunk_size - (length first + 1))
        ok (first ++ probe ++ rest, chunk_size, src3)

  module _ {S : Type 0} (crc : Bytes → ℕ) (commit : ChunkRef → Bytes → S → Result E ChunkRef × S)
      (prefix : Bytes) where
    -- The reference that a chunk is handed over with
    abbrev pub ref_of : ℕ → Bytes → ChunkRef
    ref_of i bytes = record {
      id = chunk_id prefix i;
      size = length bytes;
      crc = crc bytes;
      shard_crcs = [];
    }

    abbrev pub add_chunk : Manifest → ChunkRef → Manifest
    add_chunk m ref = record m { chunks = m.chunks ++ ref ∷ []; size = m.size + ref.size }

    -- The loop, with `none` when the fuel runs out
    unfoldable pub write_from :
        ℕ → ℕ → Source → ℕ → ℕ → Manifest → S → Option (Result (WriteError E) Manifest × S)
    write_from zero i src buf chunk_size m s = none
    write_from (suc fuel) i src buf chunk_size m s = elim (read_chunk src buf chunk_size) [
      | err e ↦ some (err e, s)
      | ok ([], buf', src') ↦ some (ok m, s)
      | ok (b ∷ bs, buf', src') ↦
          let outcome = commit (ref_of i (b ∷ bs)) (b ∷ bs) s in
          elim outcome.0 [
            | err e ↦ some (err (refused e), outcome.1)
            | ok ref ↦ write_from fuel (suc i) src' buf' chunk_size (add_chunk m ref) outcome.1
          ]
    ]

    -- Where the buffer starts
    abbrev pub start_buffer : ℕ → ℕ → ℕ
    start_buffer chunk_size expect =
        if ltb 0 expect then min chunk_size expect else min chunk_size small_object

    -- Write. A chunk size of zero stands for all that are not positive.
    unfoldable pub write : ℕ → Source → ℕ → ℕ → S → Option (Result (WriteError E) Manifest × S)
    write fuel src chunk_size expect s =
        let loop =
          write_from fuel 0 src (start_buffer chunk_size expect) chunk_size no_manifest s in
        if chunk_size == 0 then some (err bad_chunk_size, s) else loop
