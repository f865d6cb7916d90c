-- ===== src/Ring/Tests.antt =====
-- The ring's theorems and code at a small ring: three nodes, and a digest that is easy to follow.
use kavo.Base.{
  ℕ, ◌+◌, ◌*◌, ◌%◌, ◌<◌, ◌≡◌, refl, List, [], ◌∷◌, arith, take, length, Bytes, text, IsBytes,
  decimal,
}
use kavo.Ring.{partitions, default_vnodes, partition_for, new, owners}
use kavo.Ring.Walk.{fresh, clockwise, owners_lem}
use kavo.Ring.Placement.{IsPlacement, owners-IsPlacement, take-owners, partition_for-lt}
use kavo.Ring.Membership.{without, without-owners, owners_unmoved}

sum : Bytes → ℕ
sum [] = 0
sum (b ∷ bs) = b * 7 + sum bs

-- Eight bytes, the first of which decides the partition.
abbrev digest : Bytes → Bytes
digest s = sum s % 256 ∷ 1 ∷ 2 ∷ 3 ∷ 4 ∷ 5 ∷ 6 ∷ 7 ∷ []

digest-IsBytes : (s : Bytes) → IsBytes (digest s)
digest-IsBytes s = omega arith

abbrev three : List Bytes
three = text "n1" ∷ text "n2" ∷ text "n3" ∷ []

owners_run : owners (new digest three 2) 170 2 ≡ text "n2" ∷ text "n3" ∷ []
unfolding owners new sum
owners_run = refl

owners_wrap : owners (new digest three 2) 254 3 ≡ text "n1" ∷ text "n2" ∷ text "n3" ∷ []
unfolding owners new sum
owners_wrap = refl

owners_empty : owners (new digest [] default_vnodes) 7 3 ≡ []
unfolding owners new
owners_empty = refl

decimal_run : decimal 1024 ≡ text "1024"
unfolding decimal
decimal_run = refl

owners_lem_example :
    owners (new digest three 2) 170 2 ≡ take 2 (fresh [] (clockwise (new digest three 2) 170))
owners_lem_example = owners_lem (new digest three 2) 170 2

owners-IsPlacement_example : IsPlacement three 4 (owners (new digest three 2) 170 4)
owners-IsPlacement_example = owners-IsPlacement digest three 2 170 4 (omega arith)

take-owners_example : take 1 (owners (new digest three 2) 170 3) ≡ owners (new digest three 2) 170 1
take-owners_example = take-owners (new digest three 2) 170 1 3 (omega arith)

without-owners_example :
    without (text "n2") (owners (new digest three 2) 170 2)
    ≡ take
        (length (without (text "n2") (owners (new digest three 2) 170 2)))
        (owners (new digest (without (text "n2") three) 2) 170 2)
without-owners_example = without-owners digest three 2 170 2 (text "n2")

owners_unmoved_example :
    owners (new digest (without (text "n1") three) 2) 170 2 ≡ owners (new digest three 2) 170 2
unfolding owners new sum
owners_unmoved_example = owners_unmoved digest three 2 170 2 (text "n1") refl

partition_for-lt_example : partition_for digest (text "a/b") < partitions
partition_for-lt_example = partition_for-lt digest digest-IsBytes (text "a/b")
