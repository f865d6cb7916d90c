-- ===== src/Base/Text.antt =====
-- Texts as lists of bytes: Go's `==` and `<` on strings, and the functions of package strings that
-- the program calls.
use Prim.Native.Nat.{ℕ, zero, suc, ◌+◌, ◌/◌, ◌%◌, ◌<◌}
use Prim.Native.Char.{code}
use Prim.Native.String.{String}
use mathlib.Core.Path.{◌≡◌, refl}
use mathlib.Core.Logic.{◌↔◌}
use mathlib.Core.Bool.{Bool, true, false, ◌&&◌, ◌||◌}
use mathlib.Core.Option.{Option, none, some}
use mathlib.Core.List.{List, [], ◌∷◌}
use native.Mathlib.Omega.{arith}
use kavo.Base.Tests.{ltb, ◌==◌, ==_iff, if◌then◌else◌}
use kavo.Base.Lists.{All}

abbrev pub Bytes : Type 0
Bytes = List ℕ

-- The bytes of an ASCII literal.
abbrev pub text : String → Bytes
text String.[] = []
text (String.◌∷◌ c s) = code c ∷ text s

-- Every element is a byte.
abbrev pub IsBytes : Bytes → Type 0
IsBytes = All (λ c. c < 256)

unfoldable pub same : Bytes → Bytes → Bool
same [] [] = true
same [] (y ∷ ys) = false
same (x ∷ xs) [] = false
same (x ∷ xs) (y ∷ ys) = x == y && same xs ys

pub same_iff : (a b : Bytes) → (same a b ≡ true) ↔ (a ≡ b)
unfolding same
same_iff [] [] = (λ _. refl, λ _. refl)
same_iff [] (y ∷ ys) = (λ h. cc, λ h. cc)
same_iff (x ∷ xs) [] = (λ h. cc, λ h. cc)
same_iff (x ∷ xs) (y ∷ ys) = ground (arith, same_iff xs ys, ==_iff x y)

pub same_refl : (a : Bytes) → same a a ≡ true
same_refl a = (same_iff a a).1 refl

-- Go's `a < b` on strings.
unfoldable pub less : Bytes → Bytes → Bool
less [] [] = false
less [] (y ∷ ys) = true
less (x ∷ xs) [] = false
less (x ∷ xs) (y ∷ ys) = ltb x y || (x == y && less xs ys)

-- strings.HasPrefix(s, prefix)
unfoldable pub has_prefix : Bytes → Bytes → Bool
has_prefix s [] = true
has_prefix [] (p ∷ ps) = false
has_prefix (c ∷ s) (p ∷ ps) = c == p && has_prefix s ps

-- strings.TrimPrefix(s, prefix)
unfoldable pub trim_prefix : Bytes → Bytes → Bytes
unfolding has_prefix
trim_prefix s [] = s
trim_prefix [] (p ∷ ps) = []
trim_prefix (c ∷ s) (p ∷ ps) = if c == p && has_prefix s ps then trim_prefix s ps else c ∷ s

-- strings.Index(s, sep), with `none` for -1.
unfoldable pub index : Bytes → Bytes → Option ℕ
unfolding has_prefix
index [] sep = if has_prefix [] sep then some 0 else none
index (c ∷ s) sep =
    let rest = index s sep in
    if has_prefix (c ∷ s) sep then some 0 else elim rest [ none ↦ none | some i ↦ some (suc i) ]

-- slices.Contains of a list of texts
unfoldable pub has : List Bytes → Bytes → Bool
unfolding same
has [] x = false
has (y ∷ ys) x = same y x || has ys x

-- The decimal digits of a number, before what is already written. Ten to the fuel is above `n`.
unfoldable pub decimal_onto : ℕ → ℕ → Bytes → Bytes
decimal_onto zero n out = out
decimal_onto (suc fuel) n out =
    let rest = decimal_onto fuel (n / 10) ((48 + n % 10) ∷ out) in
    if ltb n 10 then (48 + n) ∷ out else rest

-- fmt's %d, of a number that is not negative
unfoldable pub decimal : ℕ → Bytes
unfolding decimal_onto
decimal n = decimal_onto (suc n) n []

-- strings.Cut at a one-byte separator, with `none` if it is not there.
unfoldable pub cut : ℕ → Bytes → Option (Bytes × Bytes)
cut sep [] = none
cut sep (c ∷ s) =
    let rest = cut sep s in
    if c == sep
    then some ([], s)
    else elim rest [ none ↦ none | some (before, after) ↦ some (c ∷ before, after) ]

-- strings.Contains of a one-byte text
unfoldable pub has_byte : ℕ → Bytes → Bool
has_byte b [] = false
has_byte b (c ∷ s) = c == b || has_byte b s

-- strings.CutPrefix, with `none` if the prefix is not there
unfoldable pub cut_prefix : Bytes → Bytes → Option Bytes
cut_prefix s [] = some s
cut_prefix [] (p ∷ ps) = none
cut_prefix (c ∷ s) (p ∷ ps) = if c == p then cut_prefix s ps else none

-- strings.Split at a one-byte separator
unfoldable pub split : ℕ → Bytes → List Bytes
split sep [] = [] ∷ []
split sep (c ∷ s) =
    let rest = split sep s in
    if c == sep
    then [] ∷ rest
    else elim rest [ [] ↦ (c ∷ []) ∷ [] | word ∷ words ↦ (c ∷ word) ∷ words ]

abbrev pub is_space : ℕ → Bool
is_space c = c == 32 || (ltb 8 c && ltb c 14)

unfoldable pub trim_left : Bytes → Bytes
trim_left [] = []
trim_left (c ∷ s) = if is_space c then trim_left s else c ∷ s

unfoldable pub trim_right : Bytes → Bytes
trim_right [] = []
trim_right (c ∷ s) =
    let rest = trim_right s in
    elim rest [ [] ↦ (if is_space c then [] else c ∷ []) | d ∷ ds ↦ c ∷ d ∷ ds ]

-- strings.TrimSpace, of ASCII text
unfoldable pub trim_space : Bytes → Bytes
unfolding trim_left trim_right
trim_space s = trim_right (trim_left s)
