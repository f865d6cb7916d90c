-- ===== src/Object/Write/Gathers.antt =====
-- internal/object/object.go: what a write has handed over, put together.
use kavo.Base.{
  ℕ, zero, suc, ◌≤◌, ◌<◌, ◌≡◌, refl, ap, sym, ◌∙◌, inl, inr, arith, Bool, false, Bool-cases, Option,
  none, some, [], ◌∷◌, ◌++◌, append-nil, append_assoc, length, take, drop, take-append-drop, ltb,
  ◌&&◌, ◌==◌, Bytes, Result, ok, err, Result-cases,
}
use kavo.Object.Manifest.{ChunkRef, Manifest, no_manifest}
use kavo.Object.Write.{Source, WriteError, ref_of, add_chunk, write_from, write, start_buffer}
use kavo.Object.Write.Pieces.{read_chunk-ChunkRead}

module _ {E S : Type 0} (crc : Bytes → ℕ) (commit : ChunkRef → Bytes → S → Result E ChunkRef × S)
    (prefix : Bytes) (seen : S → Bytes)
    (adds : (given : ChunkRef) (bytes : Bytes) (ref : ChunkRef) (s : S)
      → (commit given bytes s).0 ≡ ok ref
      → seen (commit given bytes s).1 ≡ seen s ++ bytes) where
  -- What a write that succeeds has handed over, or nothing if it did not succeed
  abbrev pub Gathered : Bytes → Option (Result (WriteError E) Manifest × S) → Type 0
  Gathered total none = Unit
  Gathered total (some (err e, s)) = Unit
  Gathered total (some (ok m, s)) = seen s ≡ total

  write_from-Gathered :
      (fuel i : ℕ) (xs : Bytes) (fails : Bool) (buf c : ℕ) (m : Manifest) (s : S) (total : Bytes)
      → 0 < buf
      → buf ≤ suc c
      → seen s ++ xs ≡ total
      → Gathered total (
          write_from crc commit prefix fuel i
            (record { content = xs; fails = fails })
            buf
            (suc c)
            m
            s)
  unfolding write_from
  write_from-Gathered zero i xs fails buf c m s total h k t = tt
  write_from-Gathered (suc fuel) i [] fails buf c m s total h k t =
      let (buf', pos, small, read) = read_chunk-ChunkRead {E = E} [] fails buf (suc c) h k in
      elim (Bool-cases (ltb 0 (suc c) && fails)) [
        | inl failed ↦ rw (read, failed, write_from) tt
        | inr good ↦ rw (read, good, write_from) (sym (append-nil (seen s)) ∙ t)
      ]
  write_from-Gathered (suc fuel) i (x ∷ xs) fails buf c m s total h k t =
      let (buf', pos, small, read) = read_chunk-ChunkRead {E = E} (x ∷ xs) fails buf (suc c) h k in
      elim (Bool-cases (ltb (length (x ∷ xs)) (suc c) && fails)) [
        | inl failed ↦ rw (read, failed, write_from) tt
        | inr good ↦
            let given = ref_of crc commit prefix i (x ∷ take c xs) in
            let call = commit given (x ∷ take c xs) s in
            elim (Result-cases call.0) [
              | inl (e, refused) ↦ rw (read, good, refused, write_from) tt
              | inr (ref, stored) ↦
                  let cut : (x ∷ take c xs) ++ drop c xs ≡ x ∷ xs =
                    take-append-drop (suc c) (x ∷ xs) in
                  rw (read, good, stored, write_from)
                    (write_from-Gathered fuel (suc i) (drop c xs) fails buf' c
                      (add_chunk crc commit prefix m ref) call.1 total pos small
                      (ap (◌++ drop c xs) (adds given (x ∷ take c xs) ref s stored)
                        ∙ append_assoc (seen s) (x ∷ take c xs) (drop c xs)
                        ∙ ap (seen s ++◌) cut
                        ∙ t))
            ]
      ]

  -- If every commit adds the bytes that it is given to what has been seen, a write that succeeds has
  -- added the whole stream.
  pub write-Gathered :
      (fuel : ℕ) (src : Source) (size expect : ℕ) (s : S)
      → Gathered (seen s ++ src.content) (write crc commit prefix fuel src size expect s)
  unfolding write
  write-Gathered fuel src zero expect s = tt
  write-Gathered fuel src (suc c) expect s =
      let positive : (suc c == 0) ≡ false = ground arith in
      rw positive (
        write_from-Gathered fuel 0 src.content src.fails
          (start_buffer crc commit prefix (suc c) expect) c no_manifest s _ (ground arith)
          (ground arith) refl)
