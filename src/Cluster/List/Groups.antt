-- ===== src/Cluster/List/Groups.antt =====
-- internal/cluster/list.go: groups of keys and the positions past them.
use mathlib.Core.Path.{ap₂}
use mathlib.Core.Option.{some_inj, none-ne-some}
use kavo.Base.{
  ℕ, zero, suc, ◌+◌, ◌≡◌, refl, ap, sym, ◌∙◌, subst, length-append, length-take, ◌<◌, inl, inr,
  arith, true, false, ◌||◌, ◌==◌, Bool-cases, some, Option-cases, [], ◌∷◌, ◌++◌, length, take,
  Bytes, less, has_prefix, trim_prefix, index,
}
use kavo.Meta.Keys.{ends_plain, ends_plain-append}
use kavo.Cluster.List.{group_of}

trim_prefix-append :
    (key prefix : Bytes) → has_prefix key prefix ≡ true → prefix ++ trim_prefix key prefix ≡ key
unfolding trim_prefix has_prefix
trim_prefix-append key [] h = refl
trim_prefix-append [] (p ∷ ps) h = absurd cc
trim_prefix-append (c ∷ s) (p ∷ ps) h = ground (arith, trim_prefix-append s ps)

index-some : (r d : Bytes) (i : ℕ) → index r d ≡ some i → 0 < length d → 0 < length r
unfolding index has_prefix
index-some [] [] i e h = absurd (omega arith)
index-some [] (x ∷ d) i e h = absurd (none-ne-some i e)
index-some (c ∷ r) d i e h = omega arith

has_prefix-append : (p r : Bytes) (n : ℕ) → has_prefix (p ++ r) (p ++ take n r) ≡ true
unfolding has_prefix
has_prefix-append [] r zero = refl
has_prefix-append [] [] (suc n) = refl
has_prefix-append [] (x ∷ r) (suc n) = ground (arith, has_prefix-append [] r n)
has_prefix-append (x ∷ p) r n = ground (arith, has_prefix-append p r n)

positive : (d : Bytes) → (length d == 0) ≡ false → 0 < length d
positive d h = ground arith

-- A group is a prefix of its key, and not empty.
pub group_of-prefix :
    (key prefix delimiter g : Bytes)
    → has_prefix key prefix ≡ true
    → group_of key prefix delimiter ≡ some g
    → (has_prefix key g ≡ true) × ((length g == 0) ≡ false)
unfolding group_of
group_of-prefix key prefix delimiter g h e = elim (Bool-cases (length delimiter == 0)) [
  | inl bare ↦ absurd (none-ne-some g (rw (bare, group_of) at e))
  | inr marked ↦ elim (Option-cases (index (trim_prefix key prefix) delimiter)) [
    | inl missing ↦ absurd (none-ne-some g (rw (marked, missing, group_of) at e))
    | inr (i, found) ↦
        let rest = trim_prefix key prefix in
        let is_g : prefix ++ take (i + length delimiter) rest ≡ g =
          some_inj.0 (rw (marked, found, group_of) at e) in
        let whole = trim_prefix-append key prefix h in
        let some_left : 0 < length rest = index-some rest delimiter i found (ground arith) in
        let long : 0 < length (prefix ++ take (i + length delimiter) rest) = omega (
          arith,
          length-append prefix (take (i + length delimiter) rest),
          length-take (i + length delimiter) rest,
          positive delimiter marked,
        ) in
        (
          subst (λ x. has_prefix key x ≡ true) is_g
              (subst (λ k. has_prefix k (prefix ++ take (i + length delimiter) rest) ≡ true) whole
                (has_prefix-append prefix rest (i + length delimiter))),
          subst (λ x. (length x == 0) ≡ false) is_g (ground (arith, long)),
        )
  ]
]

has_prefix-take : (r d : Bytes) → has_prefix r d ≡ true → take (length d) r ≡ d
unfolding has_prefix
has_prefix-take r [] h = refl
has_prefix-take [] (x ∷ d) h = absurd cc
has_prefix-take (c ∷ r) (x ∷ d) h =
    let e : c ≡ x = ground arith in
    let rest : has_prefix r d ≡ true = ground arith in ap₂ ◌∷◌ e (has_prefix-take r d rest)

-- What is taken up to the end of a text that is found ends with that text.
take-index :
    (r d : Bytes) (i : ℕ)
    → index r d ≡ some i
    → (front : Bytes) × (take (i + length d) r ≡ front ++ d)
unfolding index
take-index [] d i e = elim (Bool-cases (has_prefix [] d)) [
  | inl at_start ↦
      let z : 0 ≡ i = some_inj.0 (rw at_start at e) in
      let m : i + length d ≡ length d = omega (arith, z) in
      ([], ap (λ n. take n []) m ∙ has_prefix-take [] d at_start)
  | inr not_there ↦ absurd (none-ne-some i (rw not_there at e))
]
take-index (c ∷ r) d i e = elim (Bool-cases (has_prefix (c ∷ r) d)) [
  | inl at_start ↦
      let z : 0 ≡ i = some_inj.0 (rw at_start at e) in
      let m : i + length d ≡ length d = omega (arith, z) in
      ([], ap (λ n. take n (c ∷ r)) m ∙ has_prefix-take (c ∷ r) d at_start)
  | inr later ↦ elim (Option-cases (index r d)) [
    | inl missing ↦ absurd (none-ne-some i (rw (later, missing) at e))
    | inr (j, found) ↦
        let z : suc j ≡ i = some_inj.0 (rw (later, found) at e) in
        let (front, k) = take-index r d j found in
        let m : i + length d ≡ suc (j + length d) = omega (arith, z) in
        (c ∷ front, ap (λ n. take n (c ∷ r)) m ∙ ap (◌∷◌ c) k)
  ]
]

-- A group ends with the delimiter.
pub group_of-plain :
    (key prefix delimiter g : Bytes)
    → (0 < length delimiter → ends_plain delimiter ≡ true)
    → group_of key prefix delimiter ≡ some g
    → ends_plain g ≡ true
unfolding group_of
group_of-plain key prefix delimiter g plain e = elim (Bool-cases (length delimiter == 0)) [
  | inl bare ↦ absurd (none-ne-some g (rw (bare, group_of) at e))
  | inr marked ↦ elim (Option-cases (index (trim_prefix key prefix) delimiter)) [
    | inl missing ↦ absurd (none-ne-some g (rw (marked, missing, group_of) at e))
    | inr (i, found) ↦
        let is_g : prefix ++ take (i + length delimiter) (trim_prefix key prefix) ≡ g =
          some_inj.0 (rw (marked, found, group_of) at e) in
        let (front, k) = take-index (trim_prefix key prefix) delimiter i found in
        let ends = ends_plain-append front delimiter (plain (positive delimiter marked)) in
        subst (λ x. ends_plain x ≡ true) (ap (◌++◌ prefix) (sym k) ∙ is_g)
          (ends_plain-append prefix (front ++ delimiter) ends)
  ]
]

-- A key above one that has the prefix is not below the prefix.
pub above_prefix : (k g j : Bytes) → has_prefix k g ≡ true → less k j ≡ true → less j g ≡ false
unfolding has_prefix less
above_prefix k [] [] h l = refl
above_prefix k [] (y ∷ j) h l = refl
above_prefix [] (x ∷ g) j h l = cc
above_prefix (z ∷ k) (x ∷ g) [] h l = cc
above_prefix (z ∷ k) (x ∷ g) (y ∷ j) h l = ground (arith, above_prefix k g j)

-- A key up to one that has the prefix is below the prefix or has it.
pub up_to_prefix :
    (k g j : Bytes) → has_prefix k g ≡ true → less k j ≡ false → (less j g || has_prefix j g) ≡ true
unfolding has_prefix less
up_to_prefix k [] [] h l = refl
up_to_prefix k [] (y ∷ j) h l = refl
up_to_prefix [] (x ∷ g) j h l = cc
up_to_prefix (z ∷ k) (x ∷ g) [] h l = refl
up_to_prefix (z ∷ k) (x ∷ g) (y ∷ j) h l = ground (arith, up_to_prefix k g j)
