-- ===== src/Base/Integers.antt =====
-- Signed 64-bit integers, and strconv.ParseInt in base 10.
use Prim.Native.Nat.{ℕ, zero, suc, ◌+◌, ◌-◌, ◌*◌, ◌%◌, ◌^◌}
use mathlib.Core.Bool.{Bool, ◌&&◌}
use mathlib.Core.Option.{Option, none, some}
use mathlib.Core.List.{[], ◌∷◌}
use kavo.Base.Tests.{ltb, leb, ◌==◌, if◌then◌else◌}
use kavo.Base.Text.{Bytes}

-- `negsuc n` is -(n + 1).
pub data ℤ : Type 0 where
  pos : ℕ → ℤ
  negsuc : ℕ → ℤ

abbrev pub pos_part : ℤ → ℕ
pos_part (pos n) = n
pos_part (negsuc n) = 0

abbrev pub neg_part : ℤ → ℕ
neg_part (pos n) = 0
neg_part (negsuc n) = suc n

abbrev pub ltb_ℤ : ℤ → ℤ → Bool
ltb_ℤ a b = ltb (pos_part a + neg_part b) (pos_part b + neg_part a)

abbrev pub sub_ℕ : ℕ → ℕ → ℤ
sub_ℕ a b = if leb b a then pos (a - b) else negsuc (b - a - 1)

-- The int64 with the low 64 bits of `a - b`.
abbrev pub wrap64 : ℕ → ℕ → ℤ
wrap64 a b =
    let bits = (a + 2 ^ 64 - b % 2 ^ 64) % 2 ^ 64 in
    if ltb bits (2 ^ 63) then pos bits else negsuc (2 ^ 64 - 1 - bits)

-- Addition and subtraction of int64 values.
abbrev pub add64 : ℤ → ℤ → ℤ
add64 a b = wrap64 (pos_part a + pos_part b) (neg_part a + neg_part b)

abbrev pub sub64 : ℤ → ℤ → ℤ
sub64 a b = wrap64 (pos_part a + neg_part b) (neg_part a + pos_part b)

abbrev pub min_ℤ : ℤ → ℤ → ℤ
min_ℤ a b = if ltb_ℤ b a then b else a

unfoldable pub digits : ℕ → Bytes → Option ℕ
digits acc [] = some acc
digits acc (c ∷ s) =
    let rest = digits (acc * 10 + (c - 48)) s in if leb 48 c && leb c 57 then rest else none

unfoldable pub magnitude : Bytes → Option ℕ
unfolding digits
magnitude [] = none
magnitude (c ∷ s) = digits 0 (c ∷ s)

abbrev positive : Option ℕ → Option ℤ
positive none = none
positive (some n) = if ltb n (2 ^ 63) then some (pos n) else none

abbrev minus : ℕ → ℤ
minus zero = pos 0
minus (suc n) = negsuc n

abbrev negative : Option ℕ → Option ℤ
negative none = none
negative (some n) = if leb n (2 ^ 63) then some (minus n) else none

-- strconv.ParseInt(s, 10, 64), with `none` for an error
unfoldable pub parse_int : Bytes → Option ℤ
unfolding magnitude
parse_int [] = none
parse_int (c ∷ s) =
    if c == b'-'
    then negative (magnitude s)
    else if c == b'+'
    then positive (magnitude s)
    else positive (magnitude (c ∷ s))
