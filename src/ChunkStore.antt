-- ===== src/ChunkStore.antt =====
-- internal/store/store.go: chunk files and how they are committed. The calls of packages os, io and
-- path/filepath are the argument `os`, and the checksum of package hash/crc32 is `crc32c`. A reader is
-- the bytes that it yields and whether it then fails; the copy buffer, which changes how many bytes a
-- system call moves, is `copy_size` alone.
pub mod Atomic
pub mod Verified
pub mod Tests
use kavo.Base.{
  ℕ, zero, suc, Bool, true, false, not, ◌&&◌, ◌||◌, ltb, leb, ◌==◌, min, max, List, [], ◌∷◌, length,
  take, Bytes, text, has_prefix, has_byte, if◌then◌else◌, Result, ok, err, Option, none, some,
}
use kavo.Base.Actions.{Action, pure, fail, given, fail_if, attempt, ignore, ◌>>=◌, ◌>>◌}
use kavo.Faults.{Fault, invalid_id, verification_failed, no_chunk, read_failed}
use kavo.Object.Write.{Source}
use kavo.Object.Read.{Reader}

-- Calls on files, which are named by their paths: os.CreateTemp, a write of bytes that were read,
-- File.Sync and File.Close, os.MkdirAll, os.Rename, the opening and syncing of a directory, os.Remove,
-- os.Open and os.Stat, with `none` and `false` for ErrNotExist
pub record Os (W E : Type 0) : Type 0 where
  pub create_temp : Bytes → Action W (Fault E) Bytes
  pub write_file : Bytes → Bytes → Action W (Fault E) (Unit {0})
  pub sync_file : Bytes → Action W (Fault E) (Unit {0})
  pub close_file : Bytes → Action W (Fault E) (Unit {0})
  pub mkdir_all : Bytes → Action W (Fault E) (Unit {0})
  pub rename : Bytes → Bytes → Action W (Fault E) (Unit {0})
  pub sync_dir : Bytes → Action W (Fault E) (Unit {0})
  pub remove : Bytes → Action W (Fault E) Bool
  pub remove_all : Bytes → Action W (Fault E) (Unit {0})
  pub open_file : Bytes → Action W (Fault E) (Option Source)
  pub stat : Bytes → Action W (Fault E) Bool
  pub join : List Bytes → Bytes
  pub dir : Bytes → Bytes

-- Store
pub record ChunkStore : Type 0 where
  pub tmp_dir : Bytes
  pub chunks_dir : Bytes

-- validateID
unfoldable pub validate_id : {E : Type 0} → Bytes → Result (Fault E) (Unit {0})
validate_id id =
    if ltb (length id) 2 || (has_byte b'/' id || (has_byte b'\\' id || has_byte b'.' id))
    then err invalid_id
    else ok tt

-- copySize
unfoldable pub copy_size : ℕ → ℕ
copy_size expect = min (max expect 32768) 262144

-- within
unfoldable pub within : Bytes → Bytes → Bool
within dir prefix =
    if ltb (length dir) (length prefix) then has_prefix prefix dir else has_prefix dir prefix

module _ {W E : Type 0} (os : Os W E) (crc32c : Bytes → ℕ) where
  -- Open
  unfoldable pub open_store : Bytes → Action W (Fault E) ChunkStore
  open_store root = do
    let s : ChunkStore = record {
      tmp_dir = os.join (root ∷ text "tmp" ∷ []);
      chunks_dir = os.join (root ∷ text "chunks" ∷ []);
    }
    os.remove_all s.tmp_dir
    os.mkdir_all s.tmp_dir
    os.mkdir_all s.chunks_dir
    pure s

  -- Verify and verifyingReader, read to the end: whether the last read is a final EOF
  unfoldable pub verify : Source → ℕ → Reader
  verify src want = record {
    pieces = src.content ∷ [];
    verified = not src.fails && (crc32c src.content == want);
  }

  -- The part of durableWrite after the temporary file has been made
  unfoldable pub staged :
      Bytes → Bytes → Source → (ℕ → ℕ → Result (Fault E) (Unit {0})) → Action W (Fault E) (ℕ × ℕ)
  staged tmp path src check = do
    os.write_file tmp src.content
    fail_if src.fails read_failed
    given (check (crc32c src.content) (length src.content))
    os.sync_file tmp
    os.close_file tmp
    os.mkdir_all (os.dir path)
    os.rename tmp path
    os.sync_dir (os.dir path)
    pure (crc32c src.content, length src.content)

  -- The deferred end of durableWrite, for a write that was not committed
  unfoldable pub abandon : {A : Type 0} → Bytes → Result (Fault E) A × W → Result (Fault E) A × W
  abandon tmp (ok a, w) = (ok a, w)
  abandon tmp (err e, w) =
      let (r, w1) = os.close_file tmp w in let (r', w2) = os.remove tmp w1 in (err e, w2)

  module _ (s : ChunkStore) where
    -- chunkPath
    unfoldable pub chunk_path : Bytes → Bytes
    chunk_path id = os.join (s.chunks_dir ∷ take 2 id ∷ id ∷ [])

    unfoldable pub durable_write :
        Bytes → Source → (ℕ → ℕ → Result (Fault E) (Unit {0})) → Action W (Fault E) (ℕ × ℕ)
    durable_write path src check =
        os.create_temp s.tmp_dir >>= λ tmp w. abandon tmp (staged tmp path src check w)

    unfoldable pub write_chunk : Bytes → Source → Action W (Fault E) (ℕ × ℕ)
    write_chunk id src = do
      given (validate_id id)
      durable_write (chunk_path id) src (λ crc size. ok tt)

    -- The check of WriteChunkVerified
    unfoldable pub matches : ℕ → ℕ → ℕ → ℕ → Result (Fault E) (Unit {0})
    matches want_crc want_size crc size =
        if not (size == want_size) || not (crc == want_crc) then err verification_failed else ok tt

    unfoldable pub write_chunk_verified : Bytes → Source → ℕ → ℕ → Action W (Fault E) (Unit {0})
    write_chunk_verified id src want_crc want_size = do
      given (validate_id id)
      written ← durable_write (chunk_path id) src (matches want_crc want_size)
      pure tt

    unfoldable pub read_chunk : Bytes → ℕ → Action W (Fault E) Reader
    read_chunk id want = do
      given (validate_id id)
      found ← os.open_file (chunk_path id)
      elim found [ none ↦ fail no_chunk | some src ↦ pure (verify src want) ]

    unfoldable pub has_chunk : Bytes → Action W (Fault E) Bool
    has_chunk id = do given (validate_id id); os.stat (chunk_path id)

    -- HasChunks
    unfoldable pub has_chunks : List Bytes → Action W (Fault E) (List Bytes)
    has_chunks [] w = (ok [], w)
    has_chunks (id ∷ ids) w =
        let (r, w1) = has_chunk id w in
        let (rest, w2) = has_chunks ids w1 in
        elim r [
          | err invalid_id ↦ (rest, w2)
          | err e ↦ (err e, w1)
          | ok held ↦ elim rest [
            | err e ↦ (err e, w2)
            | ok have ↦ (ok (if held then id ∷ have else have), w2)
          ]
        ]

    unfoldable pub remove_chunk : Bytes → Action W (Fault E) (Unit {0})
    remove_chunk id = do given (validate_id id); was ← os.remove (chunk_path id); pure tt
