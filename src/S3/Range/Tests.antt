-- ===== src/S3/Range/Tests.antt =====
-- Ranges read on headers that a client sends.
use mathlib.Core.Path.{Path}
use kavo.Base.{
  ◌-◌, ◌+◌, ◌<◌, ◌≡◌, ◌⊎◌, min, refl, arith, text, cut, cut_prefix, has_byte, ok, err, [],
}
use kavo.Base.Integers.{pos, pos_part, parse_int}
use kavo.S3.Range.{Window, range_syntax, past_the_end, parse_range, parse_copy_range}
use kavo.S3.Range.Windows.{
  AsksFor, Fits, EndsAtLimit, last_int64, parse_range-Fits, parse_copy_range-Fits,
}
use kavo.S3.Range.RoundTrip.{range_header, parse_range-range_header, parse_range_overflows}

suffix_run : parse_range (text "bytes=-5") 12 ≡ ok (pos 7, pos 5)
unfolding parse_range parse_int cut cut_prefix has_byte
suffix_run = refl

open_run : parse_range (text "bytes=9-") 12 ≡ ok (pos 9, pos 3)
unfolding parse_range parse_int cut cut_prefix has_byte
open_run = refl

closed_run : parse_range (text "bytes=2-40") 12 ≡ ok (pos 2, pos 10)
unfolding parse_range parse_int cut cut_prefix has_byte
closed_run = refl

several_run : parse_range (text "bytes=0-1,4-5") 12 ≡ ok (pos 0, pos 12)
unfolding parse_range parse_int cut cut_prefix has_byte
several_run = refl

past_run : parse_range (text "bytes=12-") 12 ≡ err tt
unfolding parse_range parse_int cut cut_prefix has_byte
past_run = refl

copy_run : parse_copy_range (text "bytes=2-11") 12 ≡ ok (pos 2, pos 10)
unfolding parse_copy_range parse_int cut cut_prefix
copy_run = refl

copy_past_run : parse_copy_range (text "bytes=2-12") 12 ≡ err past_the_end
unfolding parse_copy_range parse_int cut cut_prefix
copy_past_run = refl

copy_open_run : parse_copy_range (text "bytes=2-") 12 ≡ err range_syntax
unfolding parse_copy_range parse_int cut cut_prefix
copy_open_run = refl

parse_range-Fits_example : Fits 12 (pos 2, pos 10) ⊎ EndsAtLimit (text "bytes=2-40")
parse_range-Fits_example =
    parse_range-Fits (text "bytes=2-40") 12 (pos 2, pos 10) (omega arith) closed_run

parse_copy_range-Fits_example :
    Fits 12 (pos 2, pos 10)
    × (((text "bytes=2-11" ≡ []) × Path Window (pos 2, pos 10) (pos 0, pos 12))
        ⊎ ((0 < pos_part (pos 10)) × AsksFor (text "bytes=2-11") (pos 2, pos 10)))
parse_copy_range-Fits_example =
    parse_copy_range-Fits (text "bytes=2-11") 12 (pos 2, pos 10) (omega arith) copy_run

parse_range-range_header_example :
    parse_range (range_header 2 40) 12 ≡ ok (pos 2, pos (min (40 + 1) 12 - 2))
parse_range-range_header_example =
    parse_range-range_header 2 40 12 (omega arith) (omega arith) (omega arith) (omega arith)

parse_range_overflows_example :
    (w : Window) × (parse_range (range_header 0 last_int64) 12 ≡ ok w) × (¬ Fits 12 w)
parse_range_overflows_example = parse_range_overflows 0 12 (omega arith) (omega arith)
