-- ===== src/Object/Crc/Combine.antt =====
-- internal/object/crc.go: the combination of two checksums next to the appending of zero bits, one by
-- one.
use Prim.Native.Nat.{bit_xor}
use native.Mathlib.Nat.{pow-succ'}
use kavo.Base.{
  true, false, ℕ, zero, suc, ◌+◌, ◌*◌, ◌/◌, ◌%◌, ◌^◌, ◌<◌, ◌≡◌, refl, ap, sym, ◌∙◌, arith, inl, inr,
  Bool-cases, ◌==◌, List, [], ◌∷◌, map, if◌then◌else◌,
}
use kavo.Object.Crc.{gf2_times, gf2_square, append_bit, combine_from, combine_crc}
use kavo.Object.Crc.Xor.{zero_xor, xor_zero, xor_self, xor_half, xor_digit, xor_medial}

-- A column, if the digit picks it
abbrev pick : ℕ → ℕ → ℕ
pick vec m = if vec % 2 == 1 then m else 0

times-pick :
    (m : ℕ) (mat : List ℕ) (vec : ℕ)
    → gf2_times (m ∷ mat) vec ≡ bit_xor (pick vec m) (gf2_times mat (vec / 2))
unfolding gf2_times
times-pick m mat vec = elim (Bool-cases (vec % 2 == 1)) [
  | inl e ↦ rw e
  | inr e ↦ rw e (sym (zero_xor _))
]

pick-xor : (a b m : ℕ) → pick (bit_xor a b) m ≡ bit_xor (pick a m) (pick b m)
pick-xor a b m = elim (Bool-cases (a % 2 == 1)) [
  | inl e ↦ elim (Bool-cases (b % 2 == 1)) [
    | inl k ↦
        let both : (bit_xor a b % 2 == 1) ≡ false = ground (arith, xor_digit a b) in
        rw (e, k, both) (sym (xor_self m))
    | inr k ↦
        let one : (bit_xor a b % 2 == 1) ≡ true = ground (arith, xor_digit a b) in
        rw (e, k, one) (sym (xor_zero m))
  ]
  | inr e ↦ elim (Bool-cases (b % 2 == 1)) [
    | inl k ↦
        let one : (bit_xor a b % 2 == 1) ≡ true = ground (arith, xor_digit a b) in
        rw (e, k, one) (sym (zero_xor m))
    | inr k ↦
        let neither : (bit_xor a b % 2 == 1) ≡ false = ground (arith, xor_digit a b) in
        rw (e, k, neither) (sym (zero_xor 0))
  ]
]

times_nil : (vec : ℕ) → gf2_times [] vec ≡ 0
unfolding gf2_times
times_nil vec = refl

times-xor :
    (mat : List ℕ) (a b : ℕ)
    → gf2_times mat (bit_xor a b) ≡ bit_xor (gf2_times mat a) (gf2_times mat b)
times-xor [] a b = rw (times_nil (bit_xor a b), times_nil a, times_nil b) (sym (zero_xor 0))
times-xor (m ∷ mat) a b =
    rw
      (
        times-pick m mat (bit_xor a b),
        times-pick m mat a,
        times-pick m mat b,
        pick-xor a b m,
        xor_half a b,
        times-xor mat (a / 2) (b / 2),
      )
      (xor_medial (pick a m) (pick b m) (gf2_times mat (a / 2)) (gf2_times mat (b / 2)))

times_zero : (mat : List ℕ) → gf2_times mat 0 ≡ 0
times_zero [] = times_nil 0
times_zero (m ∷ mat) = times-pick m mat 0 ∙ zero_xor _ ∙ times_zero mat

times-pick_column :
    (mat : List ℕ) (vec m : ℕ) → pick vec (gf2_times mat m) ≡ gf2_times mat (pick vec m)
times-pick_column mat vec m = elim (Bool-cases (vec % 2 == 1)) [
  | inl e ↦ rw e
  | inr e ↦ rw e (sym (times_zero mat))
]

times-map :
    (mat ms : List ℕ) (vec : ℕ)
    → gf2_times (map (gf2_times mat) ms) vec ≡ gf2_times mat (gf2_times ms vec)
times-map mat [] vec =
    times_nil vec ∙ sym (times_zero mat) ∙ ap (gf2_times mat) (sym (times_nil vec))
times-map mat (m ∷ ms) vec =
    rw
      (
        times-pick (gf2_times mat m) (map (gf2_times mat) ms) vec,
        times-pick m ms vec,
        times-xor mat (pick vec m) (gf2_times ms (vec / 2)),
        times-map mat ms (vec / 2),
        times-pick_column mat vec m,
      )
      refl

-- A square is its matrix, twice.
times-square :
    (mat : List ℕ) (vec : ℕ) → gf2_times (gf2_square mat) vec ≡ gf2_times mat (gf2_times mat vec)
unfolding gf2_square
times-square mat vec = times-map mat mat vec

-- `k` zero bits after a checksum, one by one
pub append_zeros : List ℕ → ℕ → ℕ → ℕ
append_zeros mat zero a = a
append_zeros mat (suc k) a = append_zeros mat k (gf2_times mat a)

append_zeros-add :
    (mat : List ℕ) (j k a : ℕ)
    → append_zeros mat (j + k) a ≡ append_zeros mat k (append_zeros mat j a)
unfolding append_zeros
append_zeros-add mat zero k a = let e : 0 + k ≡ k = omega arith in rw e
append_zeros-add mat (suc j) k a =
    let e : suc j + k ≡ suc (j + k) = omega arith in
    rw e (append_zeros-add mat j k (gf2_times mat a))

append_zeros-square :
    (mat : List ℕ) (k a : ℕ) → append_zeros (gf2_square mat) k a ≡ append_zeros mat (k + k) a
unfolding append_zeros
append_zeros-square mat zero a = refl
append_zeros-square mat (suc k) a =
    let e : suc k + suc k ≡ suc (suc (k + k)) = omega arith in
    rw (e, times-square mat a) (append_zeros-square mat k (gf2_times mat (gf2_times mat a)))

last_digit :
    (mat : List ℕ) (a n : ℕ)
    → (if n % 2 == 1 then gf2_times mat a else a) ≡ append_zeros mat (n % 2) a
unfolding append_zeros
last_digit mat a n = elim (Bool-cases (n % 2 == 1)) [
  | inl e ↦ let one : n % 2 ≡ 1 = ground arith in rw (e, one) refl
  | inr e ↦ let none_left : n % 2 ≡ 0 = ground arith in rw (e, none_left) refl
]

combine_from_lem :
    (fuel : ℕ) (mat : List ℕ) (a n : ℕ)
    → 0 < n
    → n < 2 ^ fuel
    → combine_from fuel mat a n ≡ append_zeros mat (n + n) a
unfolding combine_from
combine_from_lem zero mat a n h k = absurd (omega arith)
combine_from_lem (suc fuel) mat a n h k =
    let sq = gf2_square mat in
    elim (Bool-cases (n / 2 == 0)) [
      | inl done ↦
          let e : n % 2 ≡ n = ground arith in
          rw (last_digit sq a n, done, e) (append_zeros-square mat n a)
      | inr more ↦
          let e : n % 2 + (n / 2 + n / 2) ≡ n = omega arith in
          let pow : 2 ^ suc fuel ≡ 2 * 2 ^ fuel = pow-succ' 2 fuel in
          let some_left : 0 < n / 2 = ground arith in
          rw (last_digit sq a n, more)
            (combine_from_lem fuel sq (append_zeros sq (n % 2) a) (n / 2) some_left (omega arith)
              ∙ sym (append_zeros-add sq (n % 2) (n / 2 + n / 2) a)
              ∙ ap (λ x. append_zeros sq x a) e
              ∙ append_zeros-square mat n a)
    ]

-- The combined checksum is the first one with a zero bit appended for each bit of the second
-- payload, exclusive or the second one, if that payload has at least one byte and its length is an
-- int64.
pub combine_crc_lem :
    (poly width a b n : ℕ)
    → 0 < n
    → n < 2 ^ 63
    → combine_crc poly width a b n ≡ bit_xor (append_zeros (append_bit poly width) (8 * n) a) b
unfolding combine_crc
combine_crc_lem poly width a b n h k =
    let some_left : (n == 0) ≡ false = ground arith in
    let first = append_bit poly width in
    let e : n + n + (n + n) + (n + n + (n + n)) ≡ 8 * n = omega arith in
    rw
      (
        some_left,
        combine_from_lem 63 (gf2_square (gf2_square first)) a n h k,
        append_zeros-square (gf2_square first) (n + n) a,
        append_zeros-square first (n + n + (n + n)) a,
        e,
      )
      refl
