-- ===== src/S3/Range.antt =====
-- internal/s3/s3.go and internal/s3/upload.go: the byte range that a read or a copy asks for.
-- int64 arithmetic wraps as Go's does. The size of an object is a number below 2 ^ 63.
pub mod Windows
pub mod RoundTrip
pub mod Tests
use kavo.Base.{
  ℕ, zero, suc, ◌+◌, ◌-◌, ◌^◌, Bool, true, false, ◌||◌, Option, none, some, List, [], ◌∷◌, ltb, leb,
  ◌==◌, if◌then◌else◌, max, min, Bytes, text, cut, cut_prefix, has_byte, Result, ok, err,
}
use kavo.Base.Integers.{ℤ, pos, negsuc, pos_part, neg_part, ltb_ℤ, add64, sub64, min_ℤ, parse_int}

-- A window: where it starts and how long it is.
abbrev pub Window : Type 0
Window = ℤ × ℤ

-- `bytes=-N`
pub suffix_window : ℕ → Option ℤ → Result (Unit {0}) Window
suffix_window size none = err tt
suffix_window size (some (negsuc n)) = err tt
suffix_window size (some (pos zero)) = err tt
suffix_window size (some (pos (suc n))) = ok (pos (size - suc n), pos (min (suc n) size))

-- `bytes=N-`
pub open_window : ℕ → Option ℤ → Result (Unit {0}) Window
open_window size none = err tt
open_window size (some (negsuc n)) = err tt
open_window size (some (pos off)) = if leb size off then err tt else ok (pos off, pos (size - off))

-- `bytes=N-M`
pub closed_window : ℕ → Option ℤ → Option ℤ → Result (Unit {0}) Window
closed_window size none end = err tt
closed_window size (some off) none = err tt
closed_window size (some off) (some end) =
    if ltb_ℤ off (pos 0) || ltb_ℤ end off || leb size (pos_part off)
    then err tt
    else ok (off, sub64 (min_ℤ (add64 end (pos 1)) (pos size)) off)

abbrev pub window_of : ℕ → Bytes → Bytes → Result (Unit {0}) Window
window_of size [] last = suffix_window size (parse_int last)
window_of size (c ∷ first) [] = open_window size (parse_int (c ∷ first))
window_of size (c ∷ first) (d ∷ last) =
    closed_window size (parse_int (c ∷ first)) (parse_int (d ∷ last))

abbrev pub spec_window : ℕ → Bytes → Result (Unit {0}) Window
spec_window size spec = elim (cut b'-' spec) [
  | none ↦ err tt
  | some (first, last) ↦ window_of size first last
]

-- parseRange
pub parse_range : Bytes → ℕ → Result (Unit {0}) Window
unfolding suffix_window open_window closed_window
parse_range header size = elim (cut_prefix header (text "bytes=")) [
  | none ↦ ok (pos 0, pos size)
  | some spec ↦ if has_byte b',' spec then ok (pos 0, pos size) else spec_window size spec
]

-- errRangeSyntax, and the error of a range that the source does not cover
pub data CopyRangeError : Type 0 where
  range_syntax past_the_end : CopyRangeError

pub copy_window : ℕ → Option ℤ → Option ℤ → Result CopyRangeError Window
copy_window size none end = err range_syntax
copy_window size (some start) none = err range_syntax
copy_window size (some start) (some end) =
    if ltb_ℤ start (pos 0) || ltb_ℤ end start
    then err range_syntax
    else if leb size (pos_part end)
    then err past_the_end
    else ok (start, add64 (sub64 end start) (pos 1))

-- parseCopyRange
pub parse_copy_range : Bytes → ℕ → Result CopyRangeError Window
unfolding copy_window
parse_copy_range [] size = ok (pos 0, pos size)
parse_copy_range (h ∷ header) size = elim (cut_prefix (h ∷ header) (text "bytes=")) [
  | none ↦ err range_syntax
  | some spec ↦ elim (cut b'-' spec) [
    | none ↦ err range_syntax
    | some (first, last) ↦ copy_window size (parse_int first) (parse_int last)
  ]
]
