-- ===== src/Object/Write/Keeps.antt =====
-- internal/object/object.go: what the commits of a write establish of its chunks.
use kavo.Base.{
  ℕ, zero, suc, ◌≡◌, inl, inr, Bool-cases, Option, none, some, [], ◌∷◌, All, All-append_one,
  All-map, Bytes, Result, ok, err, Result-cases, ◌==◌,
}
use kavo.Object.Manifest.{ChunkRef, Manifest, no_manifest}
use kavo.Object.Write.{Source, WriteError, read_chunk, ref_of, add_chunk, write_from, write}

module _ {E S : Type 0} (crc : Bytes → ℕ) (commit : ChunkRef → Bytes → S → Result E ChunkRef × S)
    (prefix : Bytes) (P : ChunkRef → S → Type 0)
    (holds : (i : ℕ) (bytes : Bytes) (ref : ChunkRef) (s : S)
      → (commit (ref_of crc commit prefix i bytes) bytes s).0 ≡ ok ref
      → P ref (commit (ref_of crc commit prefix i bytes) bytes s).1)
    (stays : (given : ChunkRef) (bytes : Bytes) (ref : ChunkRef) (s : S)
      → P ref s
      → P ref (commit given bytes s).1) where
  -- What a write that succeeds has done, or nothing if it did not succeed
  abbrev pub Holding : Option (Result (WriteError E) Manifest × S) → Type 0
  Holding none = Unit
  Holding (some (err e, s)) = Unit
  Holding (some (ok m, s)) = All (λ ref. P ref s) m.chunks

  write_from-Holding :
      (fuel i : ℕ) (src : Source) (buf size : ℕ) (m : Manifest) (s : S)
      → All (λ ref. P ref s) m.chunks
      → Holding (write_from crc commit prefix fuel i src buf size m s)
  unfolding write_from
  write_from-Holding zero i src buf size m s a = tt
  write_from-Holding (suc fuel) i src buf size m s a =
      elim (Result-cases (read_chunk {E = E} src buf size)) [
        | inl (e, failed) ↦ rw (failed, write_from) tt
        | inr (([], buf', src'), done) ↦ rw (done, write_from) a
        | inr ((b ∷ bs, buf', src'), done) ↦
            let call = commit (ref_of crc commit prefix i (b ∷ bs)) (b ∷ bs) s in
            elim (Result-cases call.0) [
              | inl (e, refused) ↦ rw (done, refused, write_from) tt
              | inr (ref, stored) ↦
                  rw (done, stored, write_from)
                    (write_from-Holding fuel (suc i) src' buf' size
                      (add_chunk crc commit prefix m ref) call.1
                      (All-append_one (λ r. P r call.1) m.chunks ref
                        (All-map _ _ m.chunks (λ r h. stays _ (b ∷ bs) r s h) a)
                        (holds i (b ∷ bs) ref s stored)))
            ]
      ]

  -- What every commit establishes of its chunk, and later commits keep, holds of every chunk of the
  -- manifest that a write returns.
  pub write-Holding :
      (fuel : ℕ) (src : Source) (size expect : ℕ) (s : S)
      → Holding (write crc commit prefix fuel src size expect s)
  unfolding write
  write-Holding fuel src size expect s = elim (Bool-cases (size == 0)) [
    | inl none_left ↦ rw (none_left, write) tt
    | inr some_left ↦ rw (some_left, write) (write_from-Holding fuel 0 src _ size no_manifest s tt)
  ]
