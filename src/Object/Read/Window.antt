-- ===== src/Object/Read/Window.antt =====
-- internal/object/object.go: what a window of one chunk delivers, by its outcome.
use kavo.Base.{
  ℕ, zero, suc, ◌+◌, ◌-◌, ◌≤◌, ◌≡◌, refl, ap, sym, ◌∙◌, Bool, true, false, ◌&&◌, inl, inr, ◌⊎◌,
  ◌||◌, ◌^◌, ltb, Result, Option-cases, none, some, List, [], ◌∷◌, ◌++◌, append-nil, append_assoc,
  arith, leb, ◌==◌, Bool-cases, min, length, take, drop, length-append, length-take, take_nil,
  take_all, Bytes,
}
use kavo.Object.Manifest.{ChunkRef}
use kavo.Object.Read.{
  Reader, Writer, HeldBack, send, release, all_but_last, last_of, write_held, discard, copy_held,
  Outcome, finish_window, read_window, add_int64, read_chunks,
}

abbrev pub joined : List Bytes → Bytes
joined [] = []
joined (p ∷ ps) = p ++ joined ps

-- What has been written, the byte that is kept back included.
abbrev pub whole : HeldBack → Bytes
whole h = elim h.held [ none ↦ h.got | some b ↦ h.got ++ b ∷ [] ]

all_but_last_lem : (b : ℕ) (bs : Bytes) → all_but_last b bs ++ last_of b bs ∷ [] ≡ b ∷ bs
unfolding all_but_last last_of
all_but_last_lem b [] = refl
all_but_last_lem b (c ∷ cs) = ap (◌∷◌ b) (all_but_last_lem c cs)

length-all_but_last : (b : ℕ) (bs : Bytes) → length (all_but_last b bs) ≡ length bs
unfolding all_but_last
length-all_but_last b [] = refl
length-all_but_last b (c ∷ cs) = ap suc (length-all_but_last c cs)

-- A writer that has been written to keeps a byte back.
abbrev KeepsBack : Bytes → HeldBack → Type 0
KeepsBack got h = (h.got ≡ got) ⊎ (suc (length h.got) ≡ length (whole h))

take-append_within :
    (n : ℕ) (xs ys : Bytes) → length xs ≤ n → take n (xs ++ ys) ≡ xs ++ take (n - length xs) ys
take-append_within n [] ys h = let e : n - 0 ≡ n = omega arith in rw e
take-append_within zero (x ∷ xs) ys h = absurd (omega arith)
take-append_within (suc n) (x ∷ xs) ys h =
    let e : suc n - suc (length xs) ≡ n - length xs = omega arith in
    rw e (ap (◌∷◌ x) (take-append_within n xs ys (omega arith)))

take-append_inside : (n : ℕ) (xs ys : Bytes) → n ≤ length xs → take n (xs ++ ys) ≡ take n xs
take-append_inside zero xs ys h = refl
take-append_inside (suc n) [] ys h = absurd (omega arith)
take-append_inside (suc n) (x ∷ xs) ys h = ap (◌∷◌ x) (take-append_inside n xs ys (omega arith))

pub drop_nil : (n : ℕ) → drop {A = ℕ} n [] ≡ []
drop_nil zero = refl
drop_nil (suc n) = refl

pub drop-append_within :
    (n : ℕ) (xs ys : Bytes) → length xs ≤ n → drop n (xs ++ ys) ≡ drop (n - length xs) ys
drop-append_within n [] ys h = let e : n - 0 ≡ n = omega arith in rw e
drop-append_within zero (x ∷ xs) ys h = absurd (omega arith)
drop-append_within (suc n) (x ∷ xs) ys h =
    let e : suc n - suc (length xs) ≡ n - length xs = omega arith in
    rw e (drop-append_within n xs ys (omega arith))

pub drop-append_inside :
    (n : ℕ) (xs ys : Bytes) → n ≤ length xs → drop n (xs ++ ys) ≡ drop n xs ++ ys
drop-append_inside zero xs ys h = refl
drop-append_inside (suc n) [] ys h = absurd (omega arith)
drop-append_inside (suc n) (x ∷ xs) ys h = drop-append_inside n xs ys (omega arith)

-- A text of one byte is its last byte.
only_one : (b : ℕ) (bs : Bytes) → (length bs == 0) ≡ true → last_of b bs ∷ [] ≡ b ∷ bs
unfolding last_of
only_one b [] h = refl
only_one b (c ∷ cs) h = absurd (ground arith)

module _ (takes : Writer) where
  -- A write takes all that it is given, or fewer bytes and an error.
  abbrev Sent : Bytes → Bytes → Bytes × Bool → Type 0
  Sent got p s =
      ((s.1 ≡ true) × (s.0 ≡ got ++ p))
      ⊎ ((s.1 ≡ false) × (suc (length s.0) ≤ length got + length p))

  send-Sent : (got p : Bytes) → Sent got p (send takes got p)
  send-Sent got p = elim (Bool-cases (leb (length p) (takes got p))) [
    | inl all ↦ inl (all, ap (◌++◌ got) (take_all (takes got p) p (ground arith)))
    | inr few ↦
        inr (
          few,
          ground (arith, length-append got (take (takes got p) p), length-take (takes got p) p),
        )
  ]

  abbrev Released : HeldBack → HeldBack × Bool → Type 0
  Released h r =
      ((r.1 ≡ true) × (r.0.got ≡ whole h))
      ⊎ ((r.1 ≡ false) × (suc (length r.0.got) ≤ length (whole h)))

  release-Released : (h : HeldBack) → Released h (release takes h)
  unfolding release
  release-Released h = elim (Option-cases h.held) [
    | inl nothing ↦ rw (nothing, release) (inl (refl, refl))
    | inr (b, back) ↦
        rw (back, release)
          (elim (send-Sent h.got (b ∷ [])) [
            | inl (fine, e) ↦ inl (fine, e)
            | inr (bad, few) ↦ inr (bad, omega (arith, few, length-append h.got (b ∷ [])))
          ])
  ]

  -- A write to the writer that keeps a byte back adds its bytes, or it fails and not all of them, nor
  -- the byte kept back with them, have come through.
  abbrev Wrote : Bytes → HeldBack → Bytes → HeldBack × Bool → Type 0
  Wrote got h p r =
      ((r.1 ≡ true) × (whole r.0 ≡ whole h ++ p) × KeepsBack got r.0)
      ⊎ ((r.1 ≡ false) × (suc (length r.0.got) ≤ length (whole h) + length p))

  -- The bytes that are written, in place of those that were kept back
  kept_last :
      (freed : Bytes) (b : ℕ) (bs : Bytes)
      → (freed ++ all_but_last b bs) ++ last_of b bs ∷ [] ≡ freed ++ b ∷ bs
  kept_last freed b bs =
      append_assoc freed (all_but_last b bs) (last_of b bs ∷ [])
      ∙ ap (◌++◌ freed) (all_but_last_lem b bs)

  write_held-Wrote :
      (got : Bytes) (h : HeldBack) (p : Bytes)
      → KeepsBack got h
      → Wrote got h p (write_held takes h p)
  unfolding write_held
  write_held-Wrote got h [] k = inl (refl, sym (append-nil (whole h)), k)
  write_held-Wrote got h (b ∷ bs) k =
      let r = release takes h in
      let front = all_but_last b bs in
      elim (release-Released h) [
        | inr (bad, few) ↦ rw (bad, write_held) (inr (refl, omega (arith, few)))
        | inl (freed, e) ↦ elim (Bool-cases (length bs == 0)) [
          | inl one ↦
              rw (freed, one, write_held)
                (inl (
                  refl,
                  ap (λ g. g ++ last_of b bs ∷ []) e ∙ ap (◌++◌ (whole h)) (only_one b bs one),
                  inr (omega (arith, length-append r.0.got (last_of b bs ∷ []))),
                ))
          | inr more ↦ elim (send-Sent r.0.got front) [
            | inl (sent, all) ↦
                rw (freed, more, sent, write_held)
                  (inl (
                    refl,
                    ap (λ g. g ++ last_of b bs ∷ []) all
                        ∙ kept_last r.0.got b bs
                        ∙ ap (λ g. g ++ b ∷ bs) e,
                    inr (
                        omega
                          (arith, length-append (send takes r.0.got front).0 (last_of b bs ∷ []))),
                  ))
            | inr (cut, few) ↦
                rw (freed, more, cut, write_held)
                  (inr (refl, omega (arith, few, ap length e, length-all_but_last b bs)))
          ]
        ]
      ]

  -- What a copy writes: the first bytes of the pieces, as many as there are of them; or a write of it
  -- fails, and fewer bytes have come through than were asked for.
  record Copied (got : Bytes) (h : HeldBack) (n : ℕ) (ps : List Bytes) (r : HeldBack × ℕ × Bool)
      : Type 0 where
    written : whole r.0 ≡ whole h ++ take n (joined ps)
    counted : r.1 ≡ min n (length (joined ps))
    full : r.2 ≡ leb n (length (joined ps))
    keeps : KeepsBack got r.0

  abbrev CutOff : HeldBack → ℕ → HeldBack × ℕ × Bool → Type 0
  CutOff h n r = (r.2 ≡ false) × (suc (length r.0.got) ≤ length (whole h) + n)

  copy_held-Copied :
      (got : Bytes) (h : HeldBack) (n : ℕ) (ps : List Bytes)
      → KeepsBack got h
      → Copied got h n ps (copy_held takes h n ps) ⊎ CutOff h n (copy_held takes h n ps)
  unfolding copy_held
  copy_held-Copied got h n [] k = inl (record {
    written = rw (take_nil n) (sym (append-nil (whole h)));
    counted = omega arith;
    full = ground arith;
    keeps = k;
  })
  copy_held-Copied got h n (p ∷ ps) k = elim (Bool-cases (n == 0)) [
    | inl none_left ↦
        let z : n ≡ 0 = ground arith in
        rw (none_left, z)
          (inl (record {
            written = sym (append-nil (whole h));
            counted = omega arith;
            full = ground arith;
            keeps = k;
          }))
    | inr some_left ↦ elim (Bool-cases (leb (length p) n)) [
      | inl whole_piece ↦ elim (write_held-Wrote got h p k) [
        | inr (bad, few) ↦ rw (some_left, whole_piece, bad) (inr (refl, ground (arith, few)))
        | inl (fine, all, k') ↦
            elim (copy_held-Copied got (write_held takes h p).0 (n - length p) ps k') [
              | inr (cut, few) ↦
                  rw (some_left, whole_piece, fine)
                    (inr (cut, ground (arith, few, ap length all, length-append (whole h) p)))
              | inl further ↦
                  rw (some_left, whole_piece, fine)
                    (inl (record {
                      written =
                          further.written
                          ∙ ap (λ w. w ++ take (n - length p) (joined ps)) all
                          ∙ append_assoc (whole h) p (take (n - length p) (joined ps))
                          ∙ ap (◌++◌ (whole h))
                              (sym (take-append_within n p (joined ps) (ground arith)));
                      counted = ground (arith, further.counted, length-append p (joined ps));
                      full = further.full ∙ ground (arith, length-append p (joined ps));
                      keeps = further.keeps;
                    }))
            ]
      ]
      | inr part ↦ elim (write_held-Wrote got h (take n p) k) [
        | inr (bad, few) ↦
            rw (some_left, part, bad) (inr (refl, ground (arith, few, length-take n p)))
        | inl (fine, all, k') ↦
            rw (some_left, part, fine)
              (inl (record {
                written =
                    all
                    ∙ ap (◌++◌ (whole h)) (sym (take-append_inside n p (joined ps) (ground arith)));
                counted = ground (arith, length-append p (joined ps));
                full = ground (arith, length-append p (joined ps));
                keeps = k';
              }))
      ]
    ]
  ]

discard-drop :
    (n : ℕ) (ps : List Bytes)
    → (discard n ps ≡ none)
      ⊎ ((qs : List Bytes) × (discard n ps ≡ some qs) × (joined qs ≡ drop n (joined ps)))
unfolding discard
discard-drop n [] = elim (Bool-cases (n == 0)) [
  | inl none_left ↦ inr ([], rw none_left, sym (drop_nil n))
  | inr some_left ↦ inl (rw some_left)
]
discard-drop n (p ∷ ps) = elim (Bool-cases (n == 0)) [
  | inl none_left ↦ let z : n ≡ 0 = ground arith in inr (p ∷ ps, rw none_left, rw z)
  | inr some_left ↦ elim (Bool-cases (leb (length p) n)) [
    | inl whole_piece ↦ elim (discard-drop (n - length p) ps) [
      | inl e ↦ inl (rw (some_left, whole_piece) e)
      | inr (qs, e, j) ↦ inr (
        qs,
        rw (some_left, whole_piece) e,
        j ∙ sym (drop-append_within n p (joined ps) (ground arith)),
      )
    ]
    | inr part ↦ inr (
      drop n p ∷ ps,
      rw (some_left, part),
      sym (drop-append_inside n p (joined ps) (ground arith)),
    )
  ]
]

-- A window leaves what was asked for, taken from the reader's bytes, or fewer bytes and an error.
abbrev pub WindowGives : Bytes → Reader → ℕ → ℕ → Outcome → Type 0
WindowGives got rc skip n o =
    ((o.fine ≡ true)
      × (rc.verified ≡ true)
      × (o.copied ≡ n)
      × (n ≤ length (drop skip (joined rc.pieces)))
      × (o.got ≡ got ++ take n (drop skip (joined rc.pieces))))
    ⊎ ((o.fine ≡ false) × ((length o.got ≡ length got) ⊎ (suc (length o.got) ≤ length got + n)))

module _ (takes : Writer) where
  finish_window-WindowGives :
      (got : Bytes) (rc : Reader) (skip n : ℕ) (qs : List Bytes) (r : HeldBack × ℕ × Bool)
      → joined qs ≡ drop skip (joined rc.pieces)
      → Copied takes got (record { got = got; held = none }) n qs r
        ⊎ CutOff takes (record { got = got; held = none }) n r
      → WindowGives got rc skip n (finish_window takes rc r)
  unfolding finish_window
  finish_window-WindowGives got rc skip n qs (h, copied, all) j (inr (cut, few)) =
      rw cut (inr (refl, inr few))
  finish_window-WindowGives got rc skip n qs (h, copied, all) j (inl c) =
      let size : length (whole h) ≡ length got + min n (length (joined qs)) = omega (
        arith,
        ap length c.written,
        length-append got (take n (joined qs)),
        length-take n (joined qs),
      ) in
      elim (Bool-cases (all && rc.verified)) [
        | inl good ↦ elim (release-Released takes h) [
          | inl (fine, e) ↦ rw good (
              inl (
                fine,
                ground arith,
                ground (arith, c.counted, c.full),
                ground (arith, c.full, ap length j),
                e ∙ c.written ∙ rw j,
              ))
          | inr (bad, few) ↦ rw good (inr (bad, inr (omega (arith, few, size))))
        ]
        | inr bad ↦ rw bad (
            inr (
              refl,
              elim c.keeps [ inl e ↦ inl (ap length e) | inr e ↦ inr (omega (arith, size)) ],
            ))
      ]

  pub read_window-WindowGives :
      (got : Bytes) (rc : Reader) (skip n : ℕ)
      → WindowGives got rc skip n (read_window takes got rc skip n)
  unfolding read_window
  read_window-WindowGives got rc skip n = elim (discard-drop skip rc.pieces) [
    | inl e ↦ rw (e, read_window) (inr (refl, inl refl))
    | inr (qs, e, j) ↦
        rw (e, read_window)
          (finish_window-WindowGives got rc skip n qs _ j
            (copy_held-Copied takes got _ n qs (inl refl)))
  ]

pub add_int64-cases : (a b : ℕ) → (add_int64 a b ≡ none) ⊎ (add_int64 a b ≡ some (a + b))
unfolding add_int64
add_int64-cases a b = elim (Bool-cases (ltb (a + b) (2 ^ 63))) [
  | inl fits ↦ inr (rw (fits, add_int64) refl)
  | inr wraps ↦ inl (rw (wraps, add_int64) refl)
]

-- No chunk starts before an end of 0.
pub read_chunks_zero :
    (takes : Writer) {E : Type 0} (fetch : ChunkRef → Result E Reader) (off : ℕ)
    (cs : List ChunkRef) (at total : ℕ) (got : Bytes)
    → read_chunks takes fetch off 0 cs at total got
      ≡ record { got = got; copied = total; fine = true }
unfolding read_chunks
read_chunks_zero takes fetch off [] at total got = refl
read_chunks_zero takes fetch off (c ∷ cs) at total got =
    let outside : (leb (at + c.size) off || leb 0 at) ≡ true = ground arith in
    rw (outside, read_chunks) (read_chunks_zero takes fetch off cs (at + c.size) total got)
