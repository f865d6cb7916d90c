-- ===== src/Meta/Keys.antt =====
-- internal/meta/meta.go: the two positions that a scan resumes from.
use kavo.Base.{
  ℕ, ◌+◌, ◌/◌, ◌%◌, Bool, ◌≡◌, ◌≢◌, refl, true, false, not, ◌||◌, [], ◌∷◌, ◌++◌, arith,
  if◌then◌else◌, ltb, Bytes, IsBytes, less, has_prefix,
}

-- After
unfoldable pub after : Bytes → Bytes
after key = key ++ 0 ∷ []

-- string(b) of a byte b: the UTF-8 encoding of the code point, of two bytes from 0x80 on
unfoldable pub rune_text : ℕ → Bytes
rune_text b = if ltb b 128 then b ∷ [] else (192 + b / 64) ∷ (128 + b % 64) ∷ []

-- PastPrefix. The source looks for the last byte below 0xff from the end; here the bytes before it
-- are kept on the way back.
unfoldable pub past_prefix : Bytes → Bytes
past_prefix [] = []
past_prefix (c ∷ cs) =
    let rest = past_prefix cs in
    elim rest [ [] ↦ (if ltb c 255 then rune_text (c + 1) else []) | d ∷ ds ↦ c ∷ d ∷ ds ]

-- The last byte below 0xff is below 0x7f, so that the byte that PastPrefix puts in its place is one
-- byte as a text too.
unfoldable pub ends_plain : Bytes → Bool
unfolding past_prefix
ends_plain [] = false
ends_plain (c ∷ cs) =
    let further = ends_plain cs in elim (past_prefix cs) [ [] ↦ ltb c 127 | d ∷ ds ↦ further ]

pub less_trans : (a b c : Bytes) → less a b ≡ true → less b c ≡ true → less a c ≡ true
unfolding less
less_trans [] [] c h k = cc
less_trans [] (x ∷ b) [] h k = cc
less_trans [] (x ∷ b) (y ∷ c) h k = refl
less_trans (x ∷ a) [] c h k = cc
less_trans (x ∷ a) (y ∷ b) [] h k = cc
less_trans (x ∷ a) (y ∷ b) (z ∷ c) h k = ground (arith, less_trans a b c)

pub less_total : (a b : Bytes) → less a b ≡ false → less b a ≡ false → a ≡ b
unfolding less
less_total [] [] h k = refl
less_total [] (x ∷ b) h k = cc
less_total (x ∷ a) [] h k = cc
less_total (x ∷ a) (y ∷ b) h k = ground (arith, less_total a b)

pub less_nil : (a : Bytes) → less a [] ≡ false
unfolding less
less_nil [] = refl
less_nil (x ∷ a) = refl

-- After gives the smallest key above a key: what lies below it is exactly what is not above the key.
pub less-after : (key j : Bytes) → less j (after key) ≡ not (less key j)
unfolding less after
less-after [] [] = refl
less-after [] (d ∷ ds) = ground (arith, less_nil ds)
less-after (c ∷ cs) [] = refl
less-after (c ∷ cs) (d ∷ ds) = ground (arith, less-after cs ds)

-- PastPrefix is empty only where no key of bytes lies past the keys with the prefix.
pub past_prefix_empty :
    (prefix j : Bytes)
    → IsBytes j
    → past_prefix prefix ≡ []
    → (less j prefix || has_prefix j prefix) ≡ true
unfolding past_prefix less has_prefix rune_text
past_prefix_empty [] j b e = ground arith
past_prefix_empty (c ∷ cs) [] b e = refl
past_prefix_empty (c ∷ cs) (d ∷ ds) b e = ground (arith, past_prefix_empty cs ds)

-- Where the last byte below 0xff is below 0x7f, PastPrefix gives the smallest key above all keys with
-- the prefix: what lies below it is exactly what lies below the prefix or begins with it.
pub less-past_prefix :
    (prefix j : Bytes)
    → IsBytes j
    → ends_plain prefix ≡ true
    → less j (past_prefix prefix) ≡ (less j prefix || has_prefix j prefix)
unfolding past_prefix less has_prefix ends_plain rune_text
less-past_prefix [] j b plain = cc
less-past_prefix (c ∷ cs) [] b plain = ground arith
less-past_prefix (c ∷ cs) (d ∷ ds) b plain =
    ground (arith, less-past_prefix cs ds, past_prefix_empty cs ds, less_nil ds)

ends_plain_some : (d : Bytes) → ends_plain d ≡ true → past_prefix d ≢ []
unfolding ends_plain past_prefix rune_text
ends_plain_some [] h e = cc
ends_plain_some (c ∷ cs) h e = ground (arith, ends_plain_some cs)

pub ends_plain-append : (a d : Bytes) → ends_plain d ≡ true → ends_plain (a ++ d) ≡ true
unfolding ends_plain
ends_plain-append [] d h = h
ends_plain-append (c ∷ a) d h =
    let rest = ends_plain-append a d h in ground (arith, rest, ends_plain_some (a ++ d) rest)
