-- ===== src/Object/Crc/Xor.antt =====
-- Laws of the exclusive or of numbers, digit by digit.
use Prim.Native.Nat.{bit_xor, bit_xor-bitwise, differ, digits}
use kavo.Base.{
  ℕ, zero, suc, ◌+◌, ◌*◌, ◌/◌, ◌%◌, ◌≤◌, ◌<◌, ◌≡◌, refl, ap, sym, ◌∙◌, arith, inl, inr, ◌⊎◌,
  Bool-cases, ◌==◌,
}

-- Fuel above the number changes nothing.
digits-fuel :
    (n k a b : ℕ) → a ≤ n → a ≤ k → digits (λ b. b) differ n a b ≡ digits (λ b. b) differ k a b
digits-fuel zero zero zero b h l = refl
digits-fuel zero (suc k) zero b h l = refl
digits-fuel (suc n) zero zero b h l = refl
digits-fuel (suc n) (suc k) zero b h l = refl
digits-fuel zero k (suc a) b h l = absurd (omega arith)
digits-fuel (suc n) zero (suc a) b h l = absurd (omega arith)
digits-fuel (suc n) (suc k) (suc a) b h l =
    ap (λ x. x * 2 + differ (suc a % 2) (b % 2))
      (digits-fuel n k (suc a / 2) (b / 2) (omega arith) (omega arith))

xor_digits : (a b : ℕ) → bit_xor a b ≡ digits (λ b. b) differ a a b
xor_digits a b = λ i. bit_xor-bitwise a b i

pub zero_xor : (b : ℕ) → bit_xor 0 b ≡ b
zero_xor b = xor_digits 0 b

digit : (x : ℕ) → (x % 2 ≡ 0) ⊎ (x % 2 ≡ 1)
digit x = elim (Bool-cases (x % 2 == 0)) [ inl e ↦ inl (ground arith) | inr e ↦ inr (ground arith) ]

differ_sum : (a b : ℕ) → differ (a % 2) (b % 2) ≡ (a + b) % 2
differ_sum a b = elim (digit a) [
  | inl e ↦ rw e (omega arith)
  | inr e ↦ elim (digit b) [ inl k ↦ rw (e, k) (omega arith) | inr k ↦ rw (e, k) (omega arith) ]
]

-- The last digit, and the digits before it.
xor_step : (a b : ℕ) → bit_xor a b ≡ bit_xor (a / 2) (b / 2) * 2 + (a + b) % 2
xor_step zero b = omega (arith, zero_xor b, zero_xor (b / 2))
xor_step (suc a) b =
    xor_digits (suc a) b
    ∙ ap (λ x. x * 2 + differ (suc a % 2) (b % 2))
        (digits-fuel a (suc a / 2) (suc a / 2) (b / 2) (omega arith) (omega arith)
          ∙ sym (xor_digits (suc a / 2) (b / 2)))
    ∙ ap (◌+◌ (bit_xor (suc a / 2) (b / 2) * 2)) (differ_sum (suc a) b)

pub xor_half : (a b : ℕ) → bit_xor a b / 2 ≡ bit_xor (a / 2) (b / 2)
xor_half a b = omega (arith, xor_step a b)

pub xor_digit : (a b : ℕ) → bit_xor a b % 2 ≡ (a + b) % 2
xor_digit a b = omega (arith, xor_step a b)

xor_self_below : (n a : ℕ) → a ≤ n → bit_xor a a ≡ 0
xor_self_below n zero h = zero_xor 0
xor_self_below zero (suc a) h = absurd (omega arith)
xor_self_below (suc n) (suc a) h =
    omega (arith, xor_step (suc a) (suc a), xor_self_below n (suc a / 2) (omega arith))

pub xor_self : (a : ℕ) → bit_xor a a ≡ 0
xor_self a = xor_self_below a a (omega arith)

xor_zero_below : (n a : ℕ) → a ≤ n → bit_xor a 0 ≡ a
xor_zero_below n zero h = zero_xor 0
xor_zero_below zero (suc a) h = absurd (omega arith)
xor_zero_below (suc n) (suc a) h =
    omega (arith, xor_step (suc a) 0, xor_zero_below n (suc a / 2) (omega arith))

pub xor_zero : (a : ℕ) → bit_xor a 0 ≡ a
xor_zero a = xor_zero_below a a (omega arith)

xor_medial_zero :
    (a b c d : ℕ)
    → a + b + c + d ≡ 0
    → bit_xor (bit_xor a b) (bit_xor c d) ≡ bit_xor (bit_xor a c) (bit_xor b d)
xor_medial_zero a b c d h =
    let b0 : b ≡ 0 = omega arith in let c0 : c ≡ 0 = omega arith in rw (b0, c0)

xor_medial_below :
    (n a b c d : ℕ)
    → a + b + c + d ≤ n
    → bit_xor (bit_xor a b) (bit_xor c d) ≡ bit_xor (bit_xor a c) (bit_xor b d)
xor_medial_below zero a b c d h = xor_medial_zero a b c d (omega arith)
xor_medial_below (suc n) a b c d h = elim (Bool-cases (a + b + c + d == 0)) [
  | inl e ↦ xor_medial_zero a b c d (ground arith)
  | inr e ↦
      let some_left : 0 < a + b + c + d = ground arith in
      let ih = xor_medial_below n (a / 2) (b / 2) (c / 2) (d / 2) (omega arith) in
      let left : bit_xor (bit_xor a b / 2) (bit_xor c d / 2)
          ≡ bit_xor (bit_xor a c / 2) (bit_xor b d / 2) =
        rw (xor_half a b, xor_half c d, xor_half a c, xor_half b d) ih in
      omega (
        arith,
        left,
        xor_step (bit_xor a b) (bit_xor c d),
        xor_step (bit_xor a c) (bit_xor b d),
        xor_digit a b,
        xor_digit c d,
        xor_digit a c,
        xor_digit b d,
      )
]

pub xor_medial :
    (a b c d : ℕ) → bit_xor (bit_xor a b) (bit_xor c d) ≡ bit_xor (bit_xor a c) (bit_xor b d)
xor_medial a b c d = xor_medial_below (a + b + c + d) a b c d (omega arith)
