-- ===== src/Object/Read.antt =====
-- internal/object/object.go: ReadRange, which puts a window of an object back together. A chunk's
-- reader is the pieces that its reads yield and whether the last of them is followed by a verified
-- end; `fetch` is an argument, and so is the writer, which may fail at any write. An offset and a
-- length are int64s that are not negative, and their sum wraps around.
pub mod Window
pub mod Withhold
pub mod Exact
use kavo.Base.{
  ℕ, zero, suc, ◌+◌, ◌-◌, Bool, true, false, ◌&&◌, ◌||◌, not, ◌^◌, Option, none, some, List, [],
  ◌∷◌, ◌++◌, ltb, leb, ◌==◌, if◌then◌else◌, min, length, take, drop, Bytes, Result, ok, err,
}
use kavo.Object.Manifest.{ChunkRef, Manifest}

pub record Reader : Type 0 where
  pub pieces : List Bytes
  pub verified : Bool

-- heldBack: what has reached the writer, and the byte that is kept back
pub record HeldBack : Type 0 where
  pub got : Bytes
  pub held : Option ℕ

-- io.Writer: how many bytes of a text it takes, after what it has got. One that takes fewer than it
-- is given returns an error.
abbrev pub Writer : Type 0
Writer = Bytes → Bytes → ℕ

-- All but the last of the bytes, and the last.
unfoldable pub all_but_last : ℕ → Bytes → Bytes
all_but_last b [] = []
all_but_last b (c ∷ cs) = b ∷ all_but_last c cs

unfoldable pub last_of : ℕ → Bytes → ℕ
last_of b [] = b
last_of b (c ∷ cs) = last_of c cs

-- io.CopyN to io.Discard: the pieces that are left, or `none` if they end too soon
unfoldable pub discard : ℕ → List Bytes → Option (List Bytes)
discard n [] = if n == 0 then some [] else none
discard n (p ∷ ps) =
    let rest = discard (n - length p) ps in
    if n == 0 then some (p ∷ ps) else if leb (length p) n then rest else some (drop n p ∷ ps)

-- What a window of one chunk leaves: the writer's bytes, how many were copied, and no error.
pub record Outcome : Type 0 where
  pub got : Bytes
  pub copied : ℕ
  pub fine : Bool

-- The sum of two int64s that are not negative, or `none` if it wraps around to a negative number
unfoldable pub add_int64 : ℕ → ℕ → Option ℕ
add_int64 a b = if ltb (a + b) (2 ^ 63) then some (a + b) else none

-- A negative end is above no size, and at or below every offset, as 0 is.
unfoldable pub is_above : Option ℕ → ℕ → Bool
is_above none size = false
is_above (some end) size = ltb size end

unfoldable pub or_zero : Option ℕ → ℕ
or_zero none = 0
or_zero (some end) = end

module _ (takes : Writer) where
  -- Write of the underlying writer: what it has got then, and whether there was no error
  abbrev pub send : Bytes → Bytes → Bytes × Bool
  send got p = (got ++ take (takes got p) p, leb (length p) (takes got p))

  -- release, and whether there was no error
  unfoldable pub release : HeldBack → HeldBack × Bool
  release h = elim h.held [
    | none ↦ (h, true)
    | some b ↦ let (got, fine) = send h.got (b ∷ []) in (record { got = got; held = none }, fine)
  ]

  -- heldBack.Write, and whether there was no error
  unfoldable pub write_held : HeldBack → Bytes → HeldBack × Bool
  write_held h [] = (h, true)
  write_held h (b ∷ bs) =
      let (freed, released) = release h in
      let (got, sent) = send freed.got (all_but_last b bs) in
      if not released
      then (freed, false)
      else if length bs == 0
      then (record { got = freed.got; held = some (last_of b bs) }, true)
      else if sent
      then (record { got = got; held = some (last_of b bs) }, true)
      else (record { got = got; held = none }, false)

  -- io.CopyN to the held-back writer: the writer, how much was copied, and whether it was all. It
  -- ends at a write that fails.
  unfoldable pub copy_held : HeldBack → ℕ → List Bytes → HeldBack × ℕ × Bool
  copy_held h n [] = (h, 0, n == 0)
  copy_held h n (p ∷ ps) =
      let put = write_held h p in
      let rest = copy_held put.0 (n - length p) ps in
      let part = write_held h (take n p) in
      if n == 0
      then (h, 0, true)
      else if leb (length p) n
      then (if put.1 then (rest.0, length p + rest.1, rest.2) else (put.0, 0, false))
      else (if part.1 then (part.0, n, true) else (part.0, 0, false))

  -- The end of readWindow. What is left of the reader is drained, which is an error unless the chunk
  -- verifies, and then the byte that was kept back is written.
  unfoldable pub finish_window : Reader → HeldBack × ℕ × Bool → Outcome
  finish_window rc (h, copied, all) =
      if all && rc.verified
      then (let (h', fine) = release h in record { got = h'.got; copied = copied; fine = fine })
      else record { got = h.got; copied = copied; fine = false }

  -- readWindow
  unfoldable pub read_window : Bytes → Reader → ℕ → ℕ → Outcome
  read_window got rc skip n = elim (discard skip rc.pieces) [
    | none ↦ record { got = got; copied = 0; fine = false }
    | some ps ↦ finish_window rc (copy_held (record { got = got; held = none }) n ps)
  ]

  module _ {E : Type 0} (fetch : ChunkRef → Result E Reader) where
    -- The loop of ReadRange over the chunks, from offset `at`.
    unfoldable pub read_chunks : ℕ → ℕ → List ChunkRef → ℕ → ℕ → Bytes → Outcome
    read_chunks off end [] at total got = record { got = got; copied = total; fine = true }
    read_chunks off end (c ∷ cs) at total got =
        let next = at + c.size in
        let skipped = read_chunks off end cs next total got in
        if leb next off || leb end at then skipped else elim (fetch c) [
          | err e ↦ record { got = got; copied = total; fine = false }
          | ok rc ↦
              let skip = off - at in
              let window = read_window got rc skip (min next end - (at + skip)) in
              let rest = read_chunks off end cs next (total + window.copied) window.got in
              if window.fine
              then rest
              else record { got = window.got; copied = total + window.copied; fine = false }
        ]

    -- ReadRange: what has reached the writer, and whether there was no error
    unfoldable pub read_range : Manifest → ℕ → ℕ → Bytes → Bytes × Bool
    read_range m off len got =
        let end = add_int64 off len in
        if is_above end m.size
        then (got, false)
        else let r = read_chunks off (or_zero end) m.chunks 0 0 got in
          (r.got, if r.fine then r.copied == len else false)
