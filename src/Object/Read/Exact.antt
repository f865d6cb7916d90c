-- ===== src/Object/Read/Exact.antt =====
-- internal/object/object.go: what a read that succeeds delivers.
use kavo.Base.{
  ℕ, zero, suc, ◌+◌, ◌-◌, ◌≡◌, refl, ap, sym, ◌∙◌, true, false, ◌||◌, inl, inr, ◌⊎◌, List, [], ◌∷◌,
  ◌++◌, append-nil, append_assoc, arith, ltb, leb, ◌==◌, if◌then◌else◌, Bool, max, Bool-cases,
  Result-cases, min, length, take, drop, length-drop, take_all, take_nil, Bytes, Result, ok,
}
use kavo.Object.Manifest.{ChunkRef, Manifest}
use kavo.Object.Read.{Reader, Writer, is_above, or_zero, read_chunks, read_range}
use kavo.Object.Read.Window.{
  joined, drop_nil, add_int64-cases, read_chunks_zero, read_window-WindowGives, drop-append_within,
  drop-append_inside,
}

take-append : (n : ℕ) (xs ys : Bytes) → take n (xs ++ ys) ≡ take n xs ++ take (n - length xs) ys
take-append n [] ys = let e : n - 0 ≡ n = omega arith in rw (e, take_nil {A = ℕ} n)
take-append zero (x ∷ xs) ys = let e : 0 - suc (length xs) ≡ 0 = omega arith in rw e
take-append (suc n) (x ∷ xs) ys =
    let e : suc n - suc (length xs) ≡ n - length xs = omega arith in
    rw e (ap (◌∷◌ x) (take-append n xs ys))

-- As many bytes of a text as there are, or as are asked for, are the same ones.
take_enough : (m n : ℕ) (xs : Bytes) → m ≡ min n (length xs) → take m xs ≡ take n xs
take_enough m n xs e = elim (Bool-cases (leb n (length xs))) [
  | inl h ↦ let k : m ≡ n = ground arith in rw k
  | inr h ↦ take_all m xs (ground arith) ∙ sym (take_all n xs (ground arith))
]

module _ (bytes_of : ChunkRef → Bytes) where
  -- The bytes of chunks, in order
  abbrev pub content : List ChunkRef → Bytes
  content [] = []
  content (c ∷ cs) = bytes_of c ++ content cs

  -- The window from `off` to `end` of chunks that start at `at`
  abbrev window : ℕ → ℕ → ℕ → List ChunkRef → Bytes
  window off end at cs = take (end - max off at) (drop (off - at) (content cs))

  window_past :
      (off end at : ℕ) (c : ChunkRef) (cs : List ChunkRef)
      → length (bytes_of c) ≡ c.size
      → (leb (at + c.size) off || leb end at) ≡ true
      → window off end (at + c.size) cs ≡ window off end at (c ∷ cs)
  window_past off end at c cs e h = elim (Bool-cases (leb (at + c.size) off)) [
    | inl before ↦
        let e1 : max off (at + c.size) ≡ max off at = ground arith in
        let e2 : off - at - length (bytes_of c) ≡ off - (at + c.size) = omega (arith, e) in
        rw (e1, drop-append_within (off - at) (bytes_of c) (content cs) (ground arith), e2)
    | inr after ↦
        let e1 : end - max off (at + c.size) ≡ 0 = ground arith in
        let e2 : end - max off at ≡ 0 = ground arith in rw (e1, e2)
  ]

  window_in :
      (off end at : ℕ) (c : ChunkRef) (cs : List ChunkRef)
      → length (bytes_of c) ≡ c.size
      → (leb (at + c.size) off || leb end at) ≡ false
      → take (min (at + c.size) end - (at + (off - at))) (drop (off - at) (bytes_of c))
          ++ window off end (at + c.size) cs
        ≡ window off end at (c ∷ cs)
  window_in off end at c cs e h =
      let e1 : off - (at + c.size) ≡ 0 = ground arith in
      let e2 : end - max off at - length (drop (off - at) (bytes_of c))
          ≡ end - max off (at + c.size) =
        ground (arith, length-drop (off - at) (bytes_of c)) in
      rw
        (
          drop-append_inside (off - at) (bytes_of c) (content cs) (ground arith),
          take-append (end - max off at) (drop (off - at) (bytes_of c)) (content cs),
          e1,
          e2,
        )
        (ap (λ w. w ++ take (end - max off (at + c.size)) (content cs))
          (take_enough _ _ (drop (off - at) (bytes_of c))
            (ground (arith, length-drop (off - at) (bytes_of c)))))

  module _ (takes : Writer) {E : Type 0} (fetch : ChunkRef → Result E Reader)
      (sized : (c : ChunkRef) → length (bytes_of c) ≡ c.size)
      (faithful : (c : ChunkRef) (rc : Reader)
        → fetch c ≡ ok rc
        → rc.verified ≡ true
        → joined rc.pieces ≡ bytes_of c) where
    read_chunks-window :
        (off end : ℕ) (cs : List ChunkRef) (at total : ℕ) (got : Bytes)
        → ((read_chunks takes fetch off end cs at total got).fine ≡ false)
          ⊎ ((read_chunks takes fetch off end cs at total got).got ≡ got ++ window off end at cs)
    unfolding read_chunks
    read_chunks-window off end [] at total got =
        inr (rw (drop_nil (off - at), take_nil {A = ℕ} (end - max off at)) (sym (append-nil got)))
    read_chunks-window off end (c ∷ cs) at total got =
        elim (Bool-cases (leb (at + c.size) off || leb end at)) [
          | inl outside ↦
              rw (outside, sym (window_past off end at c cs (sized c) outside), read_chunks)
                (read_chunks-window off end cs (at + c.size) total got)
          | inr inside ↦ elim (Result-cases (fetch c)) [
            | inl (e, failed) ↦ rw (inside, failed, read_chunks) (inl refl)
            | inr (rc, fetched) ↦
                elim (read_window-WindowGives takes got rc (off - at)
                  (min (at + c.size) end - (at + (off - at)))) [
                    | inl (fine, good, copied, enough, e) ↦
                        rw (inside, fetched, fine, read_chunks)
                          (elim (read_chunks-window off end cs (at + c.size) _ _) [
                            | inl bad ↦ inl bad
                            | inr delivered ↦ inr (
                                delivered
                                ∙ ap (λ w. w ++ window off end (at + c.size) cs)
                                    (e ∙ rw (faithful c rc fetched good))
                                ∙ append_assoc got _ (window off end (at + c.size) cs)
                                ∙ ap (◌++◌ got) (window_in off end at c cs (sized c) inside))
                          ])
                    | inr (bad, kept) ↦ rw (inside, fetched, bad, read_chunks) (inl refl)
                  ]
          ]
        ]

    -- A read that succeeds delivers exactly the window that it was asked for, whatever the writer does,
    -- if the bytes of every chunk are as many as its reference says, and a chunk's reader that verifies
    -- yields them.
    pub read_range_exact :
        (m : Manifest) (off len : ℕ) (got : Bytes)
        → (read_range takes fetch m off len got).1 ≡ true
        → (read_range takes fetch m off len got).0 ≡ got ++ take len (drop off (content m.chunks))
    unfolding read_range is_above or_zero
    read_range_exact m off len got h = elim (add_int64-cases off len) [
      | inl wrapped ↦
          let nothing : (0 == len) ≡ true =
            rw
              (
                wrapped,
                is_above,
                or_zero,
                read_chunks_zero takes fetch off m.chunks 0 0 got,
                read_range,
              )
              at h in
          let z : len ≡ 0 = ground arith in
          rw
            (
              wrapped,
              is_above,
              or_zero,
              read_chunks_zero takes fetch off m.chunks 0 0 got,
              z,
              read_range,
            )
            (sym (append-nil got))
      | inr added ↦
          let loop = read_chunks takes fetch off (off + len) m.chunks 0 0 got in
          let r : Bytes × Bool =
            if ltb m.size (off + len)
            then (got, false)
            else (loop.got, if loop.fine then loop.copied == len else false) in
          let k : r.1 ≡ true = rw (added, is_above, or_zero, read_range) at h in
          let inside : ltb m.size (off + len) ≡ false = ground arith in
          let fine : loop.fine ≡ true = ground arith in
          let e1 : off + len - max off 0 ≡ len = omega arith in
          let e2 : off - 0 ≡ off = omega arith in
          elim (read_chunks-window off (off + len) m.chunks 0 0 got) [
            | inl bad ↦ cc
            | inr delivered ↦
                rw (added, is_above, or_zero, inside, read_range) (delivered ∙ rw (e1, e2))
          ]
    ]
