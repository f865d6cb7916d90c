-- ===== src/Object/Tests.antt =====
-- Writing and reading at a small object: five bytes in chunks of two.
use kavo.Base.{
  ℕ, zero, suc, ◌-◌, ◌≤◌, ◌≡◌, refl, ◌∙◌, ap, true, false, not, some, List, [], ◌∷◌, ◌++◌,
  append-nil, arith, ◌==◌, if◌then◌else◌, length, take, drop, replicate, take-append-drop, Bytes,
  text, same, Result, ok, err,
}
use kavo.Object.Manifest.{ChunkRef, Manifest, no_manifest}
use kavo.Object.Write.{write}
use kavo.Object.Write.Pieces.{pieces, hand_over, write_lem}
use kavo.Object.Read
use kavo.Object.Read.{Reader, Writer, read_range}
use kavo.Object.Read.Window.{joined}
use kavo.Object.Read.Withhold.{read_range-withholds}
use kavo.Object.Read.Exact.{content, read_range_exact}

abbrev five : Bytes
five = text "hello"

-- A commit that keeps the pieces, and takes three of them at most.
abbrev keep_piece : ChunkRef → Bytes → List Bytes → Result Bytes ChunkRef × List Bytes
keep_piece ref bytes s = if length s == 3 then (err (text "full"), s) else (ok ref, s ++ bytes ∷ [])

write_lem_example :
    write length keep_piece (text "w-") 6 (record { content = five; fails = false }) 2 1 []
    ≡ some (hand_over length keep_piece (text "w-") 0 (pieces 2 five) no_manifest [])
write_lem_example =
    write_lem length keep_piece (text "w-") 6 five 2 1 [] (omega arith) (omega arith)

length-replicate : (n b : ℕ) → length (replicate n b) ≡ n
length-replicate zero b = refl
length-replicate (suc n) b = omega (arith, length-replicate n b)

abbrev bytes_of : ChunkRef → Bytes
bytes_of c = replicate c.size c.crc

-- Chunks that come in two pieces, and one of which does not verify.
abbrev fetch : ChunkRef → Result Bytes Reader
fetch c = ok (record {
  pieces = take 1 (bytes_of c) ∷ drop 1 (bytes_of c) ∷ [];
  verified = not (same c.id (text "bad"));
})

fetch_faithful :
    (c : ChunkRef) (rc : Reader)
    → fetch c ≡ ok rc
    → rc.verified ≡ true
    → joined rc.pieces ≡ bytes_of c
fetch_faithful c rc h v =
    let e : rc.pieces ≡ take 1 (bytes_of c) ∷ drop 1 (bytes_of c) ∷ [] = cc in
    rw e (
      ap (◌++◌ (take 1 (bytes_of c))) (append-nil (drop 1 (bytes_of c)))
      ∙ take-append-drop 1 (bytes_of c))

abbrev chunk : Bytes → ℕ → ℕ → ChunkRef
chunk id size b = record { id = id; size = size; crc = b; shard_crcs = [] }

abbrev good : Manifest
good = record no_manifest { size = 5; chunks = chunk (text "c1") 3 7 ∷ chunk (text "c2") 2 8 ∷ [] }

abbrev bad : Manifest
bad = record no_manifest { size = 5; chunks = chunk (text "c1") 3 7 ∷ chunk (text "bad") 2 8 ∷ [] }

-- A writer that takes as many bytes as it is given
abbrev takes : Writer
takes got p = length p

-- One that is full after two bytes
abbrev fills : Writer
fills got p = 2 - length got

read_full : read_range fills fetch good 1 3 [] ≡ (7 ∷ 7 ∷ [], false)
unfolding read_range Read.read_chunks Read.read_window Read.discard Read.finish_window
    Read.copy_held same Read.release Read.write_held Read.all_but_last Read.last_of Read.add_int64
    Read.is_above Read.or_zero
read_full = refl

-- An offset and a length whose sum wraps around
read_wrapped : read_range takes fetch good 9223372036854775807 2 [] ≡ ([], false)
unfolding read_range Read.read_chunks Read.add_int64 Read.is_above Read.or_zero
read_wrapped = refl

read_good : read_range takes fetch good 1 3 [] ≡ (7 ∷ 7 ∷ 8 ∷ [], true)
unfolding read_range Read.read_chunks Read.read_window Read.discard Read.finish_window
    Read.copy_held same Read.release Read.write_held Read.add_int64 Read.is_above Read.or_zero
    Read.all_but_last Read.last_of
read_good = refl

-- The byte of the chunk that does not verify is not delivered.
read_bad : read_range takes fetch bad 1 3 [] ≡ (7 ∷ 7 ∷ [], false)
unfolding read_range Read.read_chunks Read.read_window Read.discard Read.finish_window
    Read.copy_held same Read.release Read.write_held Read.add_int64 Read.is_above Read.or_zero
    Read.all_but_last Read.last_of
read_bad = refl

read_range-withholds_example :
    ((read_range takes fetch bad 1 3 []).1 ≡ (length (read_range takes fetch bad 1 3 []).0 == 3))
    × (length (read_range takes fetch bad 1 3 []).0 ≤ 3)
read_range-withholds_example = read_range-withholds takes fetch bad 1 3 [] (omega arith)

read_good_fine : (read_range takes fetch good 1 3 []).1 ≡ true
read_good_fine = ap (λ r. r.1) read_good

read_range_exact_example :
    (read_range takes fetch good 1 3 []).0 ≡ take 3 (drop 1 (content bytes_of good.chunks))
read_range_exact_example =
    read_range_exact bytes_of takes fetch (λ c. length-replicate c.size c.crc) fetch_faithful good 1
      3 [] read_good_fine
