-- ===== src/Object/Crc.antt =====
-- internal/object/crc.go: the checksum of two payloads in a row from their checksums. A matrix over
-- two elements is the list of its columns, each a number whose digits are the column. The two sizes of
-- word, 32 and 64 digits, are one argument.
pub mod Xor
pub mod Combine
pub mod Tests
use Prim.Native.Nat.{bit_xor}
use kavo.Base.{ℕ, zero, suc, ◌+◌, ◌*◌, ◌/◌, ◌%◌, ◌-◌, ◌==◌, List, [], ◌∷◌, map, if◌then◌else◌}

-- gf2Times and gf2Times64: the exclusive or of the columns that the digits of the vector pick. A
-- vector has no more digits than the matrix has columns.
unfoldable pub gf2_times : List ℕ → ℕ → ℕ
gf2_times [] vec = 0
gf2_times (m ∷ mat) vec =
    let rest = gf2_times mat (vec / 2) in if vec % 2 == 1 then bit_xor m rest else rest

-- gf2Square and gf2Square64
unfoldable pub gf2_square : List ℕ → List ℕ
gf2_square mat = map (gf2_times mat) mat

-- The rows 1, 2, 4, … of the first operator
unfoldable pub shifted_rows : ℕ → ℕ → List ℕ
shifted_rows zero row = []
shifted_rows (suc k) row = row ∷ shifted_rows k (row * 2)

-- The operator that appends one zero bit
unfoldable pub append_bit : ℕ → ℕ → List ℕ
append_bit poly width = poly ∷ shifted_rows (width - 1) 1

-- The loop, which has its operators in two arrays in turn. A round is taken on fuel.
unfoldable pub combine_from : ℕ → List ℕ → ℕ → ℕ → ℕ
combine_from zero mat a n = a
combine_from (suc fuel) mat a n =
    let square = gf2_square mat in
    let a' = if n % 2 == 1 then gf2_times square a else a in
    let rest = combine_from fuel square a' (n / 2) in if n / 2 == 0 then a' else rest

-- CombineCRC32C, CombineCRC32 and CombineCRC64NVME, for their polynomials. A length is an int64, for
-- which 63 rounds are enough; zero stands for all lengths that are not positive.
unfoldable pub combine_crc : ℕ → ℕ → ℕ → ℕ → ℕ → ℕ
combine_crc poly width a b n =
    if n == 0
    then a
    else bit_xor (combine_from 63 (gf2_square (gf2_square (append_bit poly width))) a n) b

-- crc32.Castagnoli and crc32.IEEE of package hash/crc32, and bits.Reverse64(crc64NVMEPoly)
abbrev pub combine_crc32c : ℕ → ℕ → ℕ → ℕ
combine_crc32c = combine_crc 2197175160 32

abbrev pub combine_crc32 : ℕ → ℕ → ℕ → ℕ
combine_crc32 = combine_crc 3988292384 32

abbrev pub combine_crc64nvme : ℕ → ℕ → ℕ → ℕ
combine_crc64nvme = combine_crc 11127430586519243189 64
