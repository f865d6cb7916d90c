-- ===== src/S3/Range/Windows.antt =====
-- internal/s3/s3.go and internal/s3/upload.go: the windows that range headers are read as.
use kavo.Base.{
  ℕ, zero, suc, ◌+◌, ◌-◌, ◌^◌, ◌≤◌, ◌<◌, ◌≡◌, min, refl, sym, ◌∙◌, ◌==◌, ◌⊎◌, inl, inr, Option,
  none, some, [], ◌∷◌, arith, Bool-cases, Option-cases, Bytes, text, cut, cut_prefix, has_byte,
  Result, ok, ok_inj,
}
use kavo.Base.Integers.{ℤ, pos, negsuc, pos_part, neg_part, parse_int}
use kavo.S3.Range.{
  Window, suffix_window, open_window, closed_window, window_of, spec_window, parse_range,
  copy_window, parse_copy_range,
}

-- A window of an object of this size.
abbrev pub Fits : ℕ → Window → Type 0
Fits size w = (neg_part w.0 ≡ 0) × (neg_part w.1 ≡ 0) × (pos_part w.0 + pos_part w.1 ≤ size)

-- The largest int64.
abbrev pub last_int64 : ℕ
last_int64 = 2 ^ 63 - 1

-- The header is `bytes=N-M` with the largest int64 for M.
pub record EndsAtLimit (header : Bytes) : Type 0 where
  pub spec : Bytes
  pub first : Bytes
  pub last : Bytes
  pub is_range : cut_prefix header (text "bytes=") ≡ some spec
  pub parts : cut b'-' spec ≡ some (first, last)
  pub limit : parse_int last ≡ some (pos last_int64)

parse_int-lt : (s : Bytes) (n : ℕ) → parse_int s ≡ some (pos n) → n < 2 ^ 63
unfolding parse_int
parse_int-lt [] n h = cc
parse_int-lt (c ∷ s) n h = ground arith

pub suffix_window-Fits :
    (size : ℕ) (n : Option ℤ) (w : Window) → suffix_window size n ≡ ok w → Fits size w
unfolding suffix_window
suffix_window-Fits size none w h = cc
suffix_window-Fits size (some (negsuc n)) w h = cc
suffix_window-Fits size (some (pos zero)) w h = cc
suffix_window-Fits size (some (pos (suc n))) w h = ground arith

open_window-Fits : (size : ℕ) (n : Option ℤ) (w : Window) → open_window size n ≡ ok w → Fits size w
unfolding open_window
open_window-Fits size none w h = cc
open_window-Fits size (some (negsuc n)) w h = cc
open_window-Fits size (some (pos off)) w h = ground arith

-- Short of the largest int64, a closed range is cut at the end of the object.
pub closed_window_lem :
    (size off end : ℕ)
    → off < size
    → size < 2 ^ 63
    → off ≤ end
    → end < last_int64
    → closed_window size (some (pos off)) (some (pos end))
      ≡ ok (pos off, pos (min (end + 1) size - off))
unfolding closed_window
closed_window_lem size off end h k l m = ground arith

closed_window-Fits :
    (size : ℕ) (off end : Option ℤ) (w : Window)
    → size < 2 ^ 63
    → ((n : ℕ) → end ≡ some (pos n) → n < last_int64)
    → closed_window size off end ≡ ok w
    → Fits size w
unfolding closed_window
closed_window-Fits size none end w s l h = cc
closed_window-Fits size (some off) none w s l h = cc
closed_window-Fits size (some (pos off)) (some (pos end)) w s l h = ground (arith, l end refl)
closed_window-Fits size (some (pos off)) (some (negsuc end)) w s l h = ground arith
closed_window-Fits size (some (negsuc off)) (some end) w s l h = ground arith

limit_cases :
    (o : Option ℤ)
    → ((n : ℕ) → o ≡ some (pos n) → n < 2 ^ 63)
    → (o ≡ some (pos last_int64)) ⊎ ((n : ℕ) → o ≡ some (pos n) → n < last_int64)
limit_cases none b = inr (λ n e. cc)
limit_cases (some (negsuc m)) b = inr (λ n e. cc)
limit_cases (some (pos m)) b = elim (Bool-cases (m == last_int64)) [
  | inl h ↦ inl (ground arith)
  | inr h ↦ inr (λ n e. ground (arith, b m refl))
]

window_of-Fits :
    (size : ℕ) (first last : Bytes) (w : Window)
    → size < 2 ^ 63
    → window_of size first last ≡ ok w
    → Fits size w ⊎ (parse_int last ≡ some (pos last_int64))
window_of-Fits size [] last w s h = inl (suffix_window-Fits size (parse_int last) w h)
window_of-Fits size (c ∷ first) [] w s h = inl (open_window-Fits size (parse_int (c ∷ first)) w h)
window_of-Fits size (c ∷ first) (d ∷ last) w s h =
    elim (limit_cases (parse_int (d ∷ last)) (parse_int-lt (d ∷ last))) [
      | inl e ↦ inr e
      | inr l ↦ inl (closed_window-Fits size (parse_int (c ∷ first)) (parse_int (d ∷ last)) w s l h)
    ]

spec_window-Fits :
    (header spec : Bytes) (size : ℕ) (w : Window)
    → size < 2 ^ 63
    → cut_prefix header (text "bytes=") ≡ some spec
    → spec_window size spec ≡ ok w
    → Fits size w ⊎ EndsAtLimit header
spec_window-Fits header spec size w s c h = elim (Option-cases (cut b'-' spec)) [
  | inl e ↦ absurd (ground arith)
  | inr ((first, last), e) ↦
      elim (window_of-Fits size first last w s (sym (rw (e, spec_window)) ∙ h)) [
        | inl f ↦ inl f
        | inr l ↦
            inr (record {
              spec = spec;
              first = first;
              last = last;
              is_range = c;
              parts = e;
              limit = l;
            })
      ]
]

-- Whatever the header, a range that is accepted lies within the object, unless it is `bytes=N-M`
-- with the largest int64 for M.
pub parse_range-Fits :
    (header : Bytes) (size : ℕ) (w : Window)
    → size < 2 ^ 63
    → parse_range header size ≡ ok w
    → Fits size w ⊎ EndsAtLimit header
unfolding parse_range
parse_range-Fits header size w s h = elim (Option-cases (cut_prefix header (text "bytes="))) [
  | inl e ↦ inl (whole (sym (rw (e, parse_range)) ∙ h))
  | inr (spec, e) ↦ elim (Bool-cases (has_byte b',' spec)) [
    | inl several ↦ inl (whole (sym (rw (e, parse_range, several)) ∙ h))
    | inr one ↦ spec_window-Fits header spec size w s e (sym (rw (e, parse_range, one)) ∙ h)
  ]
]
  where
    whole : ◌≡◌ {A = Result Unit Window} (ok (pos 0, pos size)) (ok w) → Fits size w
    whole e = ground arith

copy_window-Fits :
    (size : ℕ) (start end : Option ℤ) (w : Window)
    → size < 2 ^ 63
    → copy_window size start end ≡ ok w
    → Fits size w × (0 < pos_part w.1)
unfolding copy_window
copy_window-Fits size none end w s h = cc
copy_window-Fits size (some start) none w s h = cc
copy_window-Fits size (some (pos start)) (some (pos end)) w s h = ground arith
copy_window-Fits size (some (pos start)) (some (negsuc end)) w s h = ground arith
copy_window-Fits size (some (negsuc start)) (some end) w s h = ground arith

-- The header is `bytes=N-M` for two numbers, and the window is that of the bytes from N to M, both
-- of them in it.
pub record AsksFor (header : Bytes) (w : Window) : Type 0 where
  pub spec : Bytes
  pub first : Bytes
  pub last : Bytes
  pub from : ℕ
  pub to : ℕ
  pub is_range : cut_prefix header (text "bytes=") ≡ some spec
  pub parts : cut b'-' spec ≡ some (first, last)
  pub from_is : parse_int first ≡ some (pos from)
  pub to_is : parse_int last ≡ some (pos to)
  pub starts : pos_part w.0 ≡ from
  pub ends : pos_part w.0 + pos_part w.1 ≡ to + 1

copy_window-whole :
    (size : ℕ) (start end : Option ℤ) (w : Window)
    → size < 2 ^ 63
    → copy_window size start end ≡ ok w
    → (from : ℕ) × (to : ℕ) × (start ≡ some (pos from))
      × (end ≡ some (pos to))
      × (pos_part w.0 ≡ from)
      × (pos_part w.0 + pos_part w.1 ≡ to + 1)
unfolding copy_window
copy_window-whole size none end w s h = cc
copy_window-whole size (some start) none w s h = cc
copy_window-whole size (some (pos start)) (some (pos end)) w s h =
    (start, end, refl, refl, ground arith, ground arith)
copy_window-whole size (some (pos start)) (some (negsuc end)) w s h = absurd (ground arith)
copy_window-whole size (some (negsuc start)) (some end) w s h = absurd (ground arith)

-- A copy range that is accepted lies within the source. Without a header it is the whole source; with
-- one it is not empty, and it is exactly the bytes that the header names, with nothing cut off.
pub parse_copy_range-Fits :
    (header : Bytes) (size : ℕ) (w : Window)
    → size < 2 ^ 63
    → parse_copy_range header size ≡ ok w
    → Fits size w
      × (((header ≡ []) × (w ≡ (pos 0, pos size))) ⊎ ((0 < pos_part w.1) × AsksFor header w))
unfolding parse_copy_range
parse_copy_range-Fits [] size w s h = (ground arith, inl (refl, sym (ok_inj h)))
parse_copy_range-Fits (c ∷ header) size w s h =
    elim (Option-cases (cut_prefix (c ∷ header) (text "bytes="))) [
      | inl e ↦ absurd (ground arith)
      | inr (spec, e) ↦ elim (Option-cases (cut b'-' spec)) [
        | inl e' ↦ absurd (ground arith)
        | inr ((first, last), e') ↦
            let accepted : copy_window size (parse_int first) (parse_int last) ≡ ok w =
              sym (rw (e, parse_copy_range, e')) ∙ h in
            let fits = copy_window-Fits size (parse_int first) (parse_int last) w s accepted in
            let (from, to, from_is, to_is, starts, ends) =
              copy_window-whole size (parse_int first) (parse_int last) w s accepted in
            (
              fits.0,
              inr (
                fits.1,
                record {
                  spec = spec;
                  first = first;
                  last = last;
                  from = from;
                  to = to;
                  is_range = e;
                  parts = e';
                  from_is = from_is;
                  to_is = to_is;
                  starts = starts;
                  ends = ends;
                },
              ),
            )
      ]
    ]

pub closed_window_limit :
    (size off : ℕ)
    → off < size
    → size < 2 ^ 63
    → (w : Window) × (closed_window size (some (pos off)) (some (pos last_int64)) ≡ ok w)
      × (¬ Fits size w)
unfolding closed_window
closed_window_limit size zero h k = ((pos 0, negsuc last_int64), ground arith, λ f. ground arith)
closed_window_limit size (suc off) h k =
    ((pos (suc off), pos (2 ^ 63 - suc off)), ground arith, λ f. omega arith)
