-- ===== src/ChunkStore/Verified.antt =====
-- internal/store/store.go: WriteChunkVerified, and ReadChunk after it.
use kavo.Base.{
  ℕ, ◌≡◌, ◌≢◌, refl, sym, ◌∙◌, ◌⊎◌, inl, inr, arith, true, false, not, ◌||◌, ◌==◌, Bool-cases,
  Option, none, some, append-nil, length, Bytes, Result, ok, err, ok-ne-err, Result-cases,
}
use kavo.Base.Actions.{Action, pure, given, fail, ◌>>=◌, >>=-elim}
use kavo.Faults.{Fault, no_chunk}
use kavo.Object.Write.{Source}
use kavo.Object.Read.{Reader}
use kavo.Object.Read.Window.{joined}
use kavo.ChunkStore.{
  Os, ChunkStore, chunk_path, durable_write, matches, validate_id, write_chunk_verified, read_chunk,
  verify,
}
use kavo.ChunkStore.Atomic.{Files, Committed, Atomic, durable_write-Atomic}

module _ {W E : Type 0} (os : Os W E) (crc32c : Bytes → ℕ) (at : W → Bytes → Option Bytes)
    (files : Files os at) (s : ChunkStore) (id : Bytes) (src : Source)
    (want_crc want_size : ℕ) where
  -- The whole of the source lies at the chunk's path, with the length and the checksum that were
  -- declared.
  abbrev pub Stored : W → Type 0
  Stored w =
      (at w (chunk_path os crc32c s id) ≡ some src.content)
      × (src.fails ≡ false)
      × (length src.content ≡ want_size)
      × (crc32c src.content ≡ want_crc)

  abbrev pub Lands : Option Bytes → Result (Fault E) (Unit {0}) × W → Type 0
  Lands was (ok u, w) = Stored w
  Lands was (err e, w) = (at w (chunk_path os crc32c s id) ≡ was) ⊎ Stored w

  stored :
      (w : W)
      → Committed os crc32c at files
          (chunk_path os crc32c s id)
          src
          (matches os crc32c s want_crc want_size)
          w
      → Stored w
  unfolding matches
  stored w (there, sound, passed) =
      elim (Bool-cases
        (not (length src.content == want_size) || not (crc32c src.content == want_crc))) [
          | inl wrong ↦ absurd (ok-ne-err (sym (rw (wrong, matches) at passed)))
          | inr right ↦ (there, sound, ground arith, ground arith)
        ]

  unless_stored :
      (was : Option Bytes) (w : W)
      → (at w (chunk_path os crc32c s id) ≡ was)
        ⊎ Committed os crc32c at files
            (chunk_path os crc32c s id)
            src
            (matches os crc32c s want_crc want_size)
            w
      → (at w (chunk_path os crc32c s id) ≡ was) ⊎ Stored w
  unless_stored was w (inl h) = inl h
  unless_stored was w (inr h) = inr (stored w h)

  finish :
      (was : Option Bytes) (r : Result (Fault E) (ℕ × ℕ) × W)
      → Atomic os crc32c at files
          (chunk_path os crc32c s id)
          src
          (matches os crc32c s want_crc want_size)
          was
          r
      → Lands was (elim r.0 [ err e ↦ (err e, r.1) | ok written ↦ (ok tt, r.1) ])
  finish was (ok written, w) h = stored w h
  finish was (err e, w) h = unless_stored was w h

  Lands-ok :
      (was : Option Bytes) (r : Result (Fault E) (Unit {0}) × W)
      → r.0 ≡ ok tt
      → Lands was r
      → Stored r.1
  Lands-ok was (ok u, w) done h = h
  Lands-ok was (err e, w) done h = absurd (ok-ne-err (sym done))

  -- WriteChunkVerified leaves at the chunk's path what was there, or the whole source with the
  -- declared length and checksum, whichever call fails; if it succeeds it leaves the source. Chunks lie
  -- outside of the directory of temporary files.
  pub write_chunk_verified-Lands :
      (w : W)
      → os.dir (chunk_path os crc32c s id) ≢ s.tmp_dir
      → Lands
          (at w (chunk_path os crc32c s id))
          (write_chunk_verified os crc32c s id src want_crc want_size w)
  unfolding write_chunk_verified
  write_chunk_verified-Lands w elsewhere =
      let path = chunk_path os crc32c s id in
      let check = matches os crc32c s want_crc want_size in
      let act : Action W (Fault E) (ℕ × ℕ) = durable_write os crc32c s path src check in
      >>=-elim (Lands (at w path)) (given (validate_id id)) (λ _. act >>= (λ _. pure tt)) w
        (λ e bad. inl refl)
        (λ u valid.
          finish (at w path) (act w)
            (durable_write-Atomic os crc32c at files path src check s w elsewhere))

  read_opened :
      (w : W) (bytes : Bytes)
      → validate_id {E = E} id ≡ ok tt
      → (os.open_file (chunk_path os crc32c s id) w).0
        ≡ ok (some (record { content = bytes; fails = false }))
      → (read_chunk os crc32c s id want_crc w).0
        ≡ ok (verify os crc32c (record { content = bytes; fails = false }) want_crc)
  unfolding read_chunk
  read_opened w bytes valid opened =
      >>=-elim
        (λ (r : Result (Fault E) Reader × W).
          r.0 ≡ ok (verify os crc32c (record { content = bytes; fails = false }) want_crc))
        (given (validate_id id))
        (λ _. os.open_file (chunk_path os crc32c s id) >>= (λ found. elim found [
          | none ↦ fail no_chunk
          | some src ↦ pure (verify os crc32c src want_crc)
        ]))
        w (λ e bad. absurd (ok-ne-err (sym valid ∙ bad))) (λ u good. rw (opened, ◌>>=◌))

  written_valid :
      (w : W)
      → (write_chunk_verified os crc32c s id src want_crc want_size w).0 ≡ ok tt
      → validate_id {E = E} id ≡ ok tt
  unfolding write_chunk_verified
  written_valid w done = elim (Result-cases (validate_id {E = E} id)) [
    | inl (e, bad) ↦ absurd (ok-ne-err (sym (rw (bad, write_chunk_verified) at done)))
    | inr (u, valid) ↦ valid
  ]

  -- ReadChunk, with the checksum that was declared, gives back the bytes of a WriteChunkVerified that
  -- succeeded, and they verify, if the file that is opened has what its path names.
  pub read_chunk-write_chunk_verified :
      (w : W)
      → os.dir (chunk_path os crc32c s id) ≢ s.tmp_dir
      → (write_chunk_verified os crc32c s id src want_crc want_size w).0 ≡ ok tt
      → ((w' : W) (bytes : Bytes)
          → at w' (chunk_path os crc32c s id) ≡ some bytes
          → (os.open_file (chunk_path os crc32c s id) w').0
            ≡ ok (some (record { content = bytes; fails = false })))
      → (rc : Reader) × ((read_chunk os crc32c s id want_crc
            (write_chunk_verified os crc32c s id src want_crc want_size w).1).0
          ≡ ok rc)
        × (joined rc.pieces ≡ src.content)
        × (rc.verified ≡ true)
  unfolding verify
  read_chunk-write_chunk_verified w elsewhere done opens =
      let path = chunk_path os crc32c s id in
      let w1 = (write_chunk_verified os crc32c s id src want_crc want_size w).1 in
      let (there, sound, fits, sum) =
        Lands-ok (at w path) _ done (write_chunk_verified-Lands w elsewhere) in
      let sum_ok : (crc32c src.content == want_crc) ≡ true = ground arith in
      (
        verify os crc32c (record { content = src.content; fails = false }) want_crc,
        read_opened w1 src.content (written_valid w done) (opens w1 src.content there),
        append-nil src.content,
        sum_ok,
      )
