-- ===== src/S3/Range/RoundTrip.antt =====
-- internal/s3/s3.go: parseRange at the header of a closed range.
use kavo.Base.{
  ℕ, zero, suc, ◌+◌, ◌-◌, ◌*◌, ◌/◌, ◌%◌, ◌^◌, ◌≤◌, ◌<◌, ◌≡◌, ◌≢◌, min, refl, ap, sym, subst, ◌∙◌,
  true, false, some, [], ◌∷◌, ◌++◌, arith, ltb, leb, Bool-cases, inl, inr, All, Bytes, text, cut,
  cut_prefix, has_byte, ok, decimal, decimal_onto,
}
use kavo.Base.Integers.{pos, digits, magnitude, parse_int}
use kavo.S3.Range.{Window, closed_window, window_of, spec_window, parse_range}
use kavo.S3.Range.Windows.{Fits, last_int64, closed_window_lem, closed_window_limit}

abbrev IsDigit : ℕ → Type 0
IsDigit c = (48 ≤ c) × (c ≤ 57)

All-digits-decimal_onto :
    (f n : ℕ) (out : Bytes) → n < f → All IsDigit out → All IsDigit (decimal_onto f n out)
unfolding decimal_onto
All-digits-decimal_onto zero n out h a = absurd (omega arith)
All-digits-decimal_onto (suc f) n out h a =
    ground (arith, All-digits-decimal_onto f (n / 10) ((48 + n % 10) ∷ out))

All-digits-decimal : (n : ℕ) → All IsDigit (decimal n)
unfolding decimal
All-digits-decimal n = All-digits-decimal_onto (suc n) n [] (omega arith) tt

digits-decimal_onto :
    (f n : ℕ) (out : Bytes) → n < f → digits 0 (decimal_onto f n out) ≡ digits n out
unfolding decimal_onto digits
digits-decimal_onto zero n out h = absurd (omega arith)
digits-decimal_onto (suc f) n out h = elim (Bool-cases (ltb n 10)) [
  | inl small ↦
      let digit : leb 48 (48 + n) ≡ true = ground arith in
      let digit' : leb (48 + n) 57 ≡ true = ground arith in
      let value : 0 * 10 + (48 + n - 48) ≡ n = omega arith in rw (small, digit, digit', value)
  | inr large ↦
      let digit : leb 48 (48 + n % 10) ≡ true = ground arith in
      let digit' : leb (48 + n % 10) 57 ≡ true = ground arith in
      let value : n / 10 * 10 + (48 + n % 10 - 48) ≡ n = omega arith in
      rw large (
        digits-decimal_onto f (n / 10) ((48 + n % 10) ∷ out) (ground arith)
        ∙ rw (digit, digit', value))
]

digits-decimal : (n : ℕ) → digits 0 (decimal n) ≡ some n
unfolding decimal digits
digits-decimal n = digits-decimal_onto (suc n) n [] (omega arith)

-- A decimal text has a first digit.
decimal_nonempty :
    (f n : ℕ) (out : Bytes) → n < f → (c : ℕ) × (s : Bytes) × (decimal_onto f n out ≡ c ∷ s)
unfolding decimal_onto
decimal_nonempty zero n out h = absurd (omega arith)
decimal_nonempty (suc f) n out h = elim (Bool-cases (ltb n 10)) [
  | inl small ↦ (48 + n, out, rw small)
  | inr large ↦
      let (c, s, e) = decimal_nonempty f (n / 10) ((48 + n % 10) ∷ out) (ground arith) in
      (c, s, rw large e)
]

decimal_first : (n : ℕ) → (c : ℕ) × (s : Bytes) × (decimal n ≡ c ∷ s)
unfolding decimal
decimal_first n = decimal_nonempty (suc n) n [] (omega arith)

parse_int-digits :
    (c : ℕ) (s : Bytes) (n : ℕ)
    → IsDigit c
    → digits 0 (c ∷ s) ≡ some n
    → n < 2 ^ 63
    → parse_int (c ∷ s) ≡ some (pos n)
unfolding parse_int magnitude
parse_int-digits c s n d e h = ground arith

parse_int-decimal : (n : ℕ) → n < 2 ^ 63 → parse_int (decimal n) ≡ some (pos n)
parse_int-decimal n h =
    let (c, s, e) = decimal_first n in
    let digit : All IsDigit (c ∷ s) = subst (All IsDigit) e (All-digits-decimal n) in
    ap parse_int e ∙ parse_int-digits c s n digit.0 (ap (digits 0) (sym e) ∙ digits-decimal n) h

cut-append :
    (sep : ℕ) (xs ys : Bytes) → All (λ c. c ≢ sep) xs → cut sep (xs ++ sep ∷ ys) ≡ some (xs, ys)
unfolding cut
cut-append sep [] ys a = ground arith
cut-append sep (x ∷ xs) ys a = ground (arith, cut-append sep xs ys a.1)

has_byte-append_absent :
    (b : ℕ) (xs ys : Bytes) → All (λ c. c ≢ b) xs → has_byte b (xs ++ ys) ≡ has_byte b ys
unfolding has_byte
has_byte-append_absent b [] ys a = refl
has_byte-append_absent b (x ∷ xs) ys a = ground (arith, has_byte-append_absent b xs ys a.1)

All-absent : (b : ℕ) (xs : Bytes) → b < 48 → All IsDigit xs → All (λ c. c ≢ b) xs
All-absent b [] h a = tt
All-absent b (x ∷ xs) h a = (omega arith, All-absent b xs h a.1)

has_byte_absent : (b : ℕ) (xs : Bytes) → All (λ c. c ≢ b) xs → has_byte b xs ≡ false
unfolding has_byte
has_byte_absent b [] a = refl
has_byte_absent b (x ∷ xs) a = ground (arith, has_byte_absent b xs a.1)

window_nonempty :
    (size : ℕ) (first last : Bytes) {c d : ℕ} {s t : Bytes}
    → first ≡ c ∷ s
    → last ≡ d ∷ t
    → window_of size first last ≡ closed_window size (parse_int first) (parse_int last)
window_nonempty size first last e e' = rw (e, e')

spec_window-cut :
    (size : ℕ) (spec first last : Bytes)
    → cut b'-' spec ≡ some (first, last)
    → spec_window size spec ≡ window_of size first last
spec_window-cut size spec first last e = rw (e, spec_window)

parse_range_single :
    (header : Bytes) (size : ℕ) (spec : Bytes)
    → cut_prefix header (text "bytes=") ≡ some spec
    → has_byte b',' spec ≡ false
    → parse_range header size ≡ spec_window size spec
unfolding parse_range
parse_range_single header size spec e h = rw (e, parse_range, h)

-- The header of a closed range.
abbrev pub range_header : ℕ → ℕ → Bytes
range_header off end = text "bytes=" ++ decimal off ++ b'-' ∷ decimal end

cut_prefix-range_header :
    (off end : ℕ)
    → cut_prefix (range_header off end) (text "bytes=") ≡ some (decimal off ++ b'-' ∷ decimal end)
unfolding cut_prefix
cut_prefix-range_header off end = refl

no_comma : (off end : ℕ) → has_byte b',' (decimal off ++ b'-' ∷ decimal end) ≡ false
unfolding has_byte
no_comma off end =
    has_byte-append_absent b',' (decimal off) (b'-' ∷ decimal end)
      (All-absent b',' (decimal off) (omega arith) (All-digits-decimal off))
    ∙ has_byte_absent b',' (decimal end)
        (All-absent b',' (decimal end) (omega arith) (All-digits-decimal end))

at_dash :
    (off end : ℕ) → cut b'-' (decimal off ++ b'-' ∷ decimal end) ≡ some (decimal off, decimal end)
at_dash off end =
    cut-append b'-' (decimal off) (decimal end)
      (All-absent b'-' (decimal off) (omega arith) (All-digits-decimal off))

parse_range_closed :
    (off end size : ℕ)
    → off < 2 ^ 63
    → end < 2 ^ 63
    → parse_range (range_header off end) size ≡ closed_window size (some (pos off)) (some (pos end))
parse_range_closed off end size h k =
    parse_range_single (range_header off end) size _ (cut_prefix-range_header off end)
      (no_comma off end)
    ∙ spec_window-cut size _ (decimal off) (decimal end) (at_dash off end)
    ∙ window_nonempty size (decimal off) (decimal end) (decimal_first off).2 (decimal_first end).2
    ∙ rw (parse_int-decimal off h, parse_int-decimal end k)

-- A printed range `bytes=off-end` that begins in the object and ends before the largest int64 is
-- read as the bytes from `off` to `end`, or to the end of the object if that comes first.
pub parse_range-range_header :
    (off end size : ℕ)
    → off < size
    → size < 2 ^ 63
    → off ≤ end
    → end < last_int64
    → parse_range (range_header off end) size ≡ ok (pos off, pos (min (end + 1) size - off))
parse_range-range_header off end size h k l m =
    parse_range_closed off end size (omega arith) (omega arith)
    ∙ closed_window_lem size off end h k l m

-- A range that ends at the largest int64 is accepted with a window that does not lie within the
-- object, though the bytes from `off` to the end of the object are what it asks for.
pub parse_range_overflows :
    (off size : ℕ)
    → off < size
    → size < 2 ^ 63
    → (w : Window) × (parse_range (range_header off last_int64) size ≡ ok w) × (¬ Fits size w)
parse_range_overflows off size h k =
    let (w, e, out) = closed_window_limit size off h k in
    (w, parse_range_closed off last_int64 size (omega arith) (omega arith) ∙ e, out)
