-- ===== src/Object/Write/Pieces.antt =====
-- internal/object/object.go: Write next to the pieces of a stream and their handing over.
use native.Mathlib.Nat.{le_refl}
use kavo.Base.{
  ℕ, zero, suc, ◌+◌, ◌-◌, ◌≤◌, ◌<◌, ◌≡◌, refl, ap, ◌∙◌, Bool, true, false, ◌&&◌, inl, inr, Option,
  some, List, [], ◌∷◌, ◌++◌, arith, ltb, ◌==◌, if◌then◌else◌, Bool-cases, length, take, drop,
  length-take, length-drop, take-append-drop, take_all, drop_all, drop-drop, take-append-take-drop,
  Bytes, Result, ok, err,
}
use kavo.Object.Manifest.{ChunkRef, Manifest, no_manifest}
use kavo.Object.Write.{
  Source, WriteError, read_failed, refused, read_or_end, read_chunk, ref_of, add_chunk, write_from,
  start_buffer, write,
}

-- The pieces of a text, at most `n` of them.
pub pieces_up_to : ℕ → ℕ → Bytes → List Bytes
pieces_up_to zero size xs = []
pieces_up_to (suc n) size [] = []
pieces_up_to (suc n) size (x ∷ xs) = take size (x ∷ xs) ∷ pieces_up_to n size (drop size (x ∷ xs))

abbrev pub pieces : ℕ → Bytes → List Bytes
pieces size xs = pieces_up_to (length xs) size xs

-- Every piece but the last has the full size, and the last is not empty.
abbrev pub IsCut : ℕ → List Bytes → Type 0
IsCut size [] = Unit
IsCut size (p ∷ []) = (0 < length p) × (length p ≤ size)
IsCut size (p ∷ q ∷ ps) = (length p ≡ size) × IsCut size (q ∷ ps)

abbrev pub joined : List Bytes → Bytes
joined [] = []
joined (p ∷ ps) = p ++ joined ps

joined-pieces_up_to :
    (n size : ℕ) (xs : Bytes) → 0 < size → length xs ≤ n → joined (pieces_up_to n size xs) ≡ xs
unfolding pieces_up_to
joined-pieces_up_to zero size [] s h = refl
joined-pieces_up_to zero size (x ∷ xs) s h = absurd (omega arith)
joined-pieces_up_to (suc n) size [] s h = refl
joined-pieces_up_to (suc n) size (x ∷ xs) s h =
    ap (◌++◌ (take size (x ∷ xs)))
      (joined-pieces_up_to n size (drop size (x ∷ xs)) s (omega (arith, length-drop size (x ∷ xs))))
    ∙ take-append-drop size (x ∷ xs)

IsCut-cons :
    (n size : ℕ) (x : ℕ) (xs rest : Bytes) (ps : List Bytes)
    → 0 < size
    → rest ≡ drop size (x ∷ xs)
    → ps ≡ pieces_up_to n size rest
    → IsCut size ps
    → IsCut size (take size (x ∷ xs) ∷ ps)
unfolding pieces_up_to
IsCut-cons n size x xs rest [] s e e' c = omega (arith, length-take size (x ∷ xs))
IsCut-cons zero size x xs rest (p ∷ ps) s e e' c = cc
IsCut-cons (suc n) size x xs [] (p ∷ ps) s e e' c = cc
IsCut-cons (suc n) size x xs (y ∷ ys) (p ∷ ps) s e e' c =
    (omega (arith, length-take size (x ∷ xs), length-drop size (x ∷ xs), ap length e), c)

pieces_up_to-IsCut : (n size : ℕ) (xs : Bytes) → 0 < size → IsCut size (pieces_up_to n size xs)
unfolding pieces_up_to
pieces_up_to-IsCut zero size xs s = tt
pieces_up_to-IsCut (suc n) size [] s = tt
pieces_up_to-IsCut (suc n) size (x ∷ xs) s =
    IsCut-cons n size x xs (drop size (x ∷ xs)) _ s refl refl
      (pieces_up_to-IsCut n size (drop size (x ∷ xs)) s)

-- Pieces put together give the text back, and they are cut as they should be.
pieces-IsCut :
    (size : ℕ) (xs : Bytes)
    → 0 < size
    → IsCut size (pieces size xs) × (joined (pieces size xs) ≡ xs)
pieces-IsCut size xs s = (
  pieces_up_to-IsCut (length xs) size xs s,
  joined-pieces_up_to (length xs) size xs s (le_refl _),
)

module _ {E : Type 0} where
  -- What a read of one chunk gives, whatever the buffer.
  abbrev pub ChunkRead : Bytes → Bool → ℕ → Result (WriteError E) (Bytes × ℕ × Source) → Type 0
  ChunkRead xs fails size r =
      (buf : ℕ) × (0 < buf)
      × (buf ≤ size)
      × (r ≡ (
          if ltb (length xs) size && fails
          then err read_failed
          else ok (take size xs, buf, record { content = drop size xs; fails = fails })))

  read_past :
      (xs : Bytes) (fails : Bool) (buf size : ℕ)
      → buf < size
      → buf < length xs
      → read_chunk {E = E} (record { content = xs; fails = fails }) buf size ≡ (
          if ltb (length xs) size && fails
          then err read_failed
          else ok (take size xs, size, record { content = drop size xs; fails = fails }))
  unfolding read_chunk read_or_end
  read_past xs fails buf size h k =
      let some_left : length (drop buf xs) ≡ length xs - buf = length-drop buf xs in
      let f1 : ltb (length xs) buf ≡ false = ground arith in
      let f2 : ltb (length (take buf xs)) buf ≡ false = ground (arith, length-take buf xs) in
      let at : length (take buf xs) ≡ buf = omega (arith, length-take buf xs) in
      let f3 : (buf == size) ≡ false = ground arith in
      let f4 : ltb (length (drop buf xs)) 1 ≡ false = ground arith in
      let f5 : (length (take 1 (drop buf xs)) == 0) ≡ false =
        ground (arith, length-take 1 (drop buf xs)) in
      let e : buf + 1 + (size - (buf + 1)) ≡ size = omega arith in
      let whole : take buf xs
            ++ take 1 (drop buf xs)
            ++ take (size - (buf + 1)) (drop 1 (drop buf xs))
          ≡ take size xs =
        rw (take-append-take-drop buf 1 xs, drop-drop buf 1 xs)
          (take-append-take-drop (buf + 1) (size - (buf + 1)) xs ∙ rw e) in
      let rest : drop (size - (buf + 1)) (drop 1 (drop buf xs)) ≡ drop size xs =
        rw (drop-drop buf 1 xs) (drop-drop (buf + 1) (size - (buf + 1)) xs ∙ rw e) in
      elim (Bool-cases (ltb (length xs) size && fails)) [
        | inl bad ↦
            let f6 : (ltb (length (drop 1 (drop buf xs))) (size - (buf + 1)) && fails) ≡ true =
              ground (arith, length-drop 1 (drop buf xs)) in
            rw (f1, f2, at, f3, f4, f5, f6, bad)
        | inr good ↦
            let f6 : (ltb (length (drop 1 (drop buf xs))) (size - (buf + 1)) && fails) ≡ false =
              ground (arith, length-drop 1 (drop buf xs)) in
            rw (f1, f2, at, f3, f4, f5, f6, good, whole, rest)
      ]

  pub read_chunk-ChunkRead :
      (xs : Bytes) (fails : Bool) (buf size : ℕ)
      → 0 < buf
      → buf ≤ size
      → ChunkRead xs fails size (read_chunk (record { content = xs; fails = fails }) buf size)
  unfolding read_chunk read_or_end
  read_chunk-ChunkRead xs fails buf size h k = elim (Bool-cases (ltb (length xs) buf)) [
    | inl short ↦ (
      buf,
      h,
      k,
      ground (arith, take_all buf xs, take_all size xs, drop_all buf xs, drop_all size xs),
    )
    | inr full ↦ elim (Bool-cases (ltb buf size && ltb buf (length xs))) [
      | inl more ↦ (
        size,
        omega arith,
        le_refl size,
        read_past xs fails buf size (ground arith) (ground arith),
      )
      | inr last ↦ (
        buf,
        h,
        k,
        ground (
          arith,
          length-take buf xs,
          length-take 1 (drop buf xs),
          length-drop buf xs,
          take_all buf xs,
          take_all size xs,
          drop_all buf xs,
          drop_all size xs,
        ),
      )
    ]
  ]

  -- A stream that does not fail yields the next piece.
  read_piece :
      (xs : Bytes) (buf size : ℕ)
      → 0 < buf
      → buf ≤ size
      → (buf' : ℕ) × (0 < buf')
        × (buf' ≤ size)
        × (read_chunk {E = E} (record { content = xs; fails = false }) buf size
            ≡ ok (take size xs, buf', record { content = drop size xs; fails = false }))
  read_piece xs buf size h k =
      let (buf', pos, small, e) = read_chunk-ChunkRead xs false buf size h k in
      let never : (ltb (length xs) size && false) ≡ false = ground arith in
      (buf', pos, small, e ∙ rw never)

  module _ {S : Type 0} (crc : Bytes → ℕ) (commit : ChunkRef → Bytes → S → Result E ChunkRef × S)
      (prefix : Bytes) where
    -- Pieces handed over in order, until one is refused.
    pub hand_over : ℕ → List Bytes → Manifest → S → Result (WriteError E) Manifest × S
    hand_over i [] m s = (ok m, s)
    hand_over i (p ∷ ps) m s =
        let outcome = commit (ref_of crc commit prefix i p) p s in
        elim outcome.0 [
          | err e ↦ (err (refused e), outcome.1)
          | ok ref ↦ hand_over (suc i) ps (add_chunk crc commit prefix m ref) outcome.1
        ]

    after_commit :
        (r : Result E ChunkRef) (s : S) (f : ChunkRef → Option (Result (WriteError E) Manifest × S))
        (g : ChunkRef → Result (WriteError E) Manifest × S)
        → ((ref : ChunkRef) → f ref ≡ some (g ref))
        → (elim r [ err e ↦ some (err (refused e), s) | ok ref ↦ f ref ])
          ≡ some (elim r [ err e ↦ (err (refused e), s) | ok ref ↦ g ref ])
    after_commit (err e) s f g h = refl
    after_commit (ok ref) s f g h = h ref

    write_from_lem :
        (fuel n i : ℕ) (xs : Bytes) (buf c : ℕ) (m : Manifest) (s : S)
        → 0 < buf
        → buf ≤ suc c
        → length xs < fuel
        → length xs ≤ n
        → write_from crc commit prefix fuel i
            (record { content = xs; fails = false })
            buf
            (suc c)
            m
            s
          ≡ some (hand_over i (pieces_up_to n (suc c) xs) m s)
    unfolding write_from hand_over pieces_up_to
    write_from_lem zero n i xs buf c m s h k l o = absurd (omega arith)
    write_from_lem (suc fuel) zero i [] buf c m s h k l o =
        rw ((read_piece [] buf (suc c) h k).3, write_from)
    write_from_lem (suc fuel) (suc n) i [] buf c m s h k l o =
        rw ((read_piece [] buf (suc c) h k).3, write_from)
    write_from_lem (suc fuel) zero i (x ∷ xs) buf c m s h k l o = absurd (omega arith)
    write_from_lem (suc fuel) (suc n) i (x ∷ xs) buf c m s h k l o =
        let (buf', pos, small, e) = read_piece (x ∷ xs) buf (suc c) h k in
        rw (e, write_from)
          (after_commit _ _ _ _ (λ ref.
            write_from_lem fuel n (suc i) (drop c xs) buf' c (add_chunk crc commit prefix m ref) _
              pos small (omega (arith, length-drop c xs)) (omega (arith, length-drop c xs))))

    -- Write hands the pieces of the stream over in order and returns the manifest of their
    -- references, or the first refusal, if the chunk size is positive, the stream does not fail, and
    -- the fuel is above its length. The expected length changes nothing.
    pub write_lem :
        (fuel : ℕ) (xs : Bytes) (size expect : ℕ) (s : S)
        → 0 < size
        → length xs < fuel
        → write crc commit prefix fuel (record { content = xs; fails = false }) size expect s
          ≡ some (hand_over 0 (pieces size xs) no_manifest s)
    unfolding write
    write_lem fuel xs zero expect s h l = absurd (omega arith)
    write_lem fuel xs (suc c) expect s h l =
        let positive : (suc c == 0) ≡ false = ground arith in
        rw positive (
          write_from_lem fuel (length xs) 0 xs (start_buffer crc commit prefix (suc c) expect) c
            no_manifest s (ground arith) (ground arith) l (le_refl (length xs)))
