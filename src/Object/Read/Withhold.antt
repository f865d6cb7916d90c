-- ===== src/Object/Read/Withhold.antt =====
-- internal/object/object.go: how many bytes ReadRange delivers, by its outcome.
use kavo.Base.{
  ℕ, suc, ◌+◌, ◌-◌, ◌≤◌, ◌<◌, ◌≡◌, refl, ap, ◌∙◌, true, false, ◌||◌, inl, inr, ◌⊎◌, List, [], ◌∷◌,
  arith, ltb, leb, ◌==◌, Bool-cases, Result-cases, min, length, take, drop, length-append,
  length-take, Bytes, Result,
}
use kavo.Object.Manifest.{ChunkRef, Manifest}
use kavo.Object.Read.{Reader, Writer, Outcome, is_above, or_zero, read_chunks, read_range}
use kavo.Object.Read.Window.{read_window-WindowGives, joined, add_int64-cases, read_chunks_zero}

-- The bytes from offset `off` up to `end` that lie below `at`
abbrev below : ℕ → ℕ → ℕ → ℕ
below off end at = min at end - off

-- What the loop gives: everything up to the last chunk, or less than was asked for and an error.
abbrev LoopGives : ℕ → ℕ → ℕ → Outcome → Type 0
LoopGives before off end o =
    (length o.got ≤ before + (end - off))
    × (((o.fine ≡ true) × (length o.got ≡ before + o.copied))
        ⊎ ((o.fine ≡ false) × (off < end → length o.got < before + (end - off))))

-- A window that is in place brings the loop to its end.
step-below :
    (off end at size total got more before : ℕ)
    → (leb (at + size) off || leb end at) ≡ false
    → total ≡ below off end at
    → got ≡ before + total
    → more ≡ min (at + size) end - (at + (off - at))
    → (total + more ≡ below off end (at + size))
      × (got + more ≤ before + (end - off))
      × (off < end → got < before + (end - off))
step-below off end at size total got more before inside t g m =
    let f1 : suc off ≤ at + size = ground arith in
    let f2 : suc at ≤ end = ground arith in (omega arith, omega arith, λ h. omega arith)

module _ (takes : Writer) {E : Type 0} (fetch : ChunkRef → Result E Reader) where
  read_chunks-LoopGives :
      (off end before : ℕ) (cs : List ChunkRef) (at total : ℕ) (got : Bytes)
      → off ≤ end
      → total ≡ below off end at
      → length got ≡ before + total
      → LoopGives before off end (read_chunks takes fetch off end cs at total got)
  unfolding read_chunks
  read_chunks-LoopGives off end before [] at total got o t g = (omega arith, inl (refl, g))
  read_chunks-LoopGives off end before (c ∷ cs) at total got o t g =
      elim (Bool-cases (leb (at + c.size) off || leb end at)) [
        | inl outside ↦
            rw (outside, read_chunks)
              (read_chunks-LoopGives off end before cs (at + c.size) total got o (ground arith) g)
        | inr inside ↦
            let (moved, fits, short) =
              step-below off end at c.size total (length got) _ before inside t g refl in
            elim (Result-cases (fetch c)) [
              | inl (e, failed) ↦ rw (inside, failed, read_chunks) (omega arith, inr (refl, short))
              | inr (rc, fetched) ↦
                  elim (read_window-WindowGives takes got rc (off - at)
                    (min (at + c.size) end - (at + (off - at)))) [
                      | inl (fine, good, copied, enough, e) ↦
                          rw (inside, fetched, fine, read_chunks)
                            (read_chunks-LoopGives off end before cs (at + c.size) _ _ o
                              (ap (◌+◌ total) copied ∙ moved)
                              (omega (
                                arith,
                                ap length e,
                                length-append got (
                                    take (min (at + c.size) end - (at + (off - at)))
                                      (drop (off - at) (joined rc.pieces))),
                                length-take (min (at + c.size) end - (at + (off - at)))
                                    (drop (off - at) (joined rc.pieces)),
                              )))
                      | inr (bad, kept) ↦
                          rw (inside, fetched, bad, read_chunks)
                            (omega arith, inr (refl, λ h. let s = short h in omega arith))
                    ]
            ]
      ]

  -- A read of a window that is not empty succeeds exactly if it delivers as many bytes as were asked
  -- for, and no read delivers more, whatever the chunks' readers yield and whichever write fails.
  pub read_range-withholds :
      (m : Manifest) (off len : ℕ) (got : Bytes)
      → 0 < len
      → ((read_range takes fetch m off len got).1
          ≡ (length (read_range takes fetch m off len got).0 == length got + len))
        × (length (read_range takes fetch m off len got).0 ≤ length got + len)
  unfolding read_range is_above or_zero
  read_range-withholds m off len got h = elim (add_int64-cases off len) [
    | inl wrapped ↦
        rw
          (
            wrapped,
            is_above,
            or_zero,
            read_chunks_zero takes fetch off m.chunks 0 0 got,
            read_range,
          )
          (ground arith, omega arith)
    | inr added ↦ elim (Bool-cases (ltb m.size (off + len))) [
      | inl outside ↦ rw (added, is_above, outside, read_range) (ground arith, omega arith)
      | inr inside ↦
          let (most, outcome) =
            read_chunks-LoopGives off (off + len) (length got) m.chunks 0 0 got (omega arith)
              (omega arith) (omega arith) in
          rw (added, is_above, or_zero, inside, read_range)
            (elim outcome [
              | inl (fine, e) ↦ rw fine (ground arith, omega arith)
              | inr (bad, short) ↦ let s = short (omega arith) in rw bad (ground arith, omega arith)
            ])
    ]
  ]
