-- ===== src/Ring/Membership.antt =====
-- internal/ring/ring.go: the owners of a partition before and after a node leaves.
use mathlib.Core.List.{map-append}
use mathlib.Core.Path.{ap₂}
use kavo.Base.{
  ℕ, zero, suc, ◌≤◌, ◌≡◌, refl, ap, ◌∙◌, sym, Bool, true, false, not, inl, inr, List, [], ◌∷◌, ◌++◌,
  append-nil, arith, Bool-cases, length, length-take, take, keep, ltb, leb, Bytes, same, same_iff,
  has,
}
use kavo.Ring.{Vnode, Ring, claims, all_claims, sort_by_pos, new, owners}
use kavo.Ring.Order.{
  IsSorted, sort_by_pos-IsSorted, keep-sort_by_pos, take-search_pos, drop-search_pos,
}
use kavo.Ring.Placement.{take-take}
use kavo.Ring.Walk.{fresh, nodes_of, start_of, clockwise, owners_lem}

-- The nodes but for one.
abbrev pub without : Bytes → List Bytes → List Bytes
without x = keep (λ y. not (same y x))

module _ {ℓ} {A : Type ℓ} (p : A → Bool) where
  keep-append : (xs ys : List A) → keep p (xs ++ ys) ≡ keep p xs ++ keep p ys
  keep-append [] ys = refl
  keep-append (x ∷ xs) ys = ground (arith, keep-append xs ys)

  keep-keep : (q : A → Bool) (xs : List A) → keep p (keep q xs) ≡ keep q (keep p xs)
  keep-keep q [] = refl
  keep-keep q (x ∷ xs) = ground (arith, keep-keep q xs)

module _ (p : Bytes → Bool) where
  has-keep : (xs : List Bytes) (y : Bytes) → p y ≡ true → has (keep p xs) y ≡ has xs y
  unfolding has
  has-keep [] y h = refl
  has-keep (x ∷ xs) y h = ground (arith, has-keep xs y h, same_iff x y, ap p)

  keep-fresh : (seen xs : List Bytes) → keep p (fresh seen xs) ≡ fresh (keep p seen) (keep p xs)
  unfolding fresh
  keep-fresh seen [] = refl
  keep-fresh seen (x ∷ xs) = elim (Bool-cases (p x)) [
    | inl h ↦ ground (
      arith,
      has-keep seen x h,
      keep-fresh seen xs,
      keep-fresh (seen ++ x ∷ []) xs,
      keep-append p seen (x ∷ []),
    )
    | inr h ↦ ground (
      arith,
      keep-fresh seen xs,
      keep-fresh (seen ++ x ∷ []) xs,
      keep-append p seen (x ∷ []),
      append-nil (keep p seen),
    )
  ]

  keep-nodes_of : (vs : List Vnode) → keep p (nodes_of vs) ≡ nodes_of (keep (λ v. p v.node) vs)
  keep-nodes_of [] = refl
  keep-nodes_of (v ∷ vs) = ground (arith, keep-nodes_of vs)

  keep-take :
      (n : ℕ) (xs : List Bytes)
      → keep p (take n xs) ≡ take (length (keep p (take n xs))) (keep p xs)
  keep-take zero xs = refl
  keep-take (suc n) [] = refl
  keep-take (suc n) (x ∷ xs) = ground (arith, keep-take n xs)

module _ (sha256 : Bytes → Bytes) (p : Bytes → Bool) where
  keep-claims_in :
      (node : Bytes) (i k : ℕ)
      → p node ≡ true
      → keep (λ v. p v.node) (claims sha256 node i k) ≡ claims sha256 node i k
  unfolding claims
  keep-claims_in node i zero h = refl
  keep-claims_in node i (suc k) h = ground (arith, keep-claims_in node (suc i) k h)

  keep-claims_out :
      (node : Bytes) (i k : ℕ) → p node ≡ false → keep (λ v. p v.node) (claims sha256 node i k) ≡ []
  unfolding claims
  keep-claims_out node i zero h = refl
  keep-claims_out node i (suc k) h = ground (arith, keep-claims_out node (suc i) k h)

  keep-all_claims :
      (nodes : List Bytes) (k : ℕ)
      → keep (λ v. p v.node) (all_claims sha256 nodes k) ≡ all_claims sha256 (keep p nodes) k
  unfolding all_claims
  keep-all_claims [] k = refl
  keep-all_claims (node ∷ nodes) k = ground (
    arith,
    keep-append (λ v. p v.node) (claims sha256 node 0 k) (all_claims sha256 nodes k),
    keep-claims_in node 0 k,
    keep-claims_out node 0 k,
    keep-all_claims nodes k,
  )

  -- Leaving nodes out of the ring leaves their virtual nodes out, and nothing else.
  keep-new :
      (nodes : List Bytes) (k : ℕ)
      → keep (λ v. p v.node) (new sha256 nodes k).vnodes ≡ (new sha256 (keep p nodes) k).vnodes
  unfolding new
  keep-new nodes k =
      keep-sort_by_pos (λ v. p v.node) (all_claims sha256 nodes k)
      ∙ ap sort_by_pos (keep-all_claims nodes k)

new-IsSorted :
    (sha256 : Bytes → Bytes) (nodes : List Bytes) (k : ℕ) → IsSorted (new sha256 nodes k).vnodes
unfolding new
new-IsSorted sha256 nodes k = sort_by_pos-IsSorted (all_claims sha256 nodes k)

-- On a sorted ring the clockwise order is by position, from the start and then from zero.
clockwise_sorted :
    (r : Ring) (p : ℕ)
    → IsSorted r.vnodes
    → clockwise r p
      ≡ nodes_of (keep (λ v. leb (start_of p) v.pos) r.vnodes)
        ++ nodes_of (keep (λ v. ltb v.pos (start_of p)) r.vnodes)
clockwise_sorted r p s =
    ap₂ (λ (a b : List Vnode). nodes_of (a ++ b)) (drop-search_pos (start_of p) r.vnodes s)
      (take-search_pos (start_of p) r.vnodes s)
    ∙ map-append (λ (v : Vnode). v.node) _ _

module _ (sha256 : Bytes → Bytes) (q : Bytes → Bool) (nodes : List Bytes) (k p : ℕ) where
  keep-side :
      (side : Vnode → Bool)
      → keep q (nodes_of (keep side (new sha256 nodes k).vnodes))
        ≡ nodes_of (keep side (new sha256 (keep q nodes) k).vnodes)
  keep-side side =
      keep-nodes_of q (keep side (new sha256 nodes k).vnodes)
      ∙ ap nodes_of (
          keep-keep (λ v. q v.node) side (new sha256 nodes k).vnodes
          ∙ ap (keep side) (keep-new sha256 q nodes k))

  keep-clockwise :
      keep q (clockwise (new sha256 nodes k) p) ≡ clockwise (new sha256 (keep q nodes) k) p
  keep-clockwise =
      ap (keep q) (clockwise_sorted (new sha256 nodes k) p (new-IsSorted sha256 nodes k))
      ∙ keep-append q _ _
      ∙ ap₂ ◌++◌ (keep-side (λ v. leb (start_of p) v.pos)) (keep-side (λ v. ltb v.pos (start_of p)))
      ∙ sym
          (clockwise_sorted (new sha256 (keep q nodes) k) p (new-IsSorted sha256 (keep q nodes) k))

length-keep-le : (q : Bytes → Bool) (xs : List Bytes) → length (keep q xs) ≤ length xs
length-keep-le q [] = omega arith
length-keep-le q (x ∷ xs) = ground (arith, length-keep-le q xs)

take-without_absent :
    (n : ℕ) (xs : List Bytes) (x : Bytes)
    → has (take n xs) x ≡ false
    → take n (without x xs) ≡ take n xs
unfolding has
take-without_absent zero xs x h = refl
take-without_absent (suc n) [] x h = refl
take-without_absent (suc n) (y ∷ ys) x h = ground (arith, take-without_absent n ys x)

module _ (sha256 : Bytes → Bytes) (nodes : List Bytes) (k p n : ℕ) (x : Bytes) where
  fresh-without :
      keep (λ y. not (same y x)) (fresh [] (clockwise (new sha256 nodes k) p))
      ≡ fresh [] (clockwise (new sha256 (without x nodes) k) p)
  fresh-without =
      keep-fresh (λ y. not (same y x)) [] (clockwise (new sha256 nodes k) p)
      ∙ ap (fresh []) (keep-clockwise sha256 (λ y. not (same y x)) nodes k p)

  -- When a node leaves, the owners that stay keep their order and come first: what Owners returned,
  -- but for that node, is the beginning of what it returns on the ring of the other nodes.
  pub without-owners :
      without x (owners (new sha256 nodes k) p n)
      ≡ take
          (length (without x (owners (new sha256 nodes k) p n)))
          (owners (new sha256 (without x nodes) k) p n)
  without-owners =
      let walk = fresh [] (clockwise (new sha256 nodes k) p) in
      rw (owners_lem (new sha256 nodes k) p n, owners_lem (new sha256 (without x nodes) k) p n)
        (keep-take (λ y. not (same y x)) n walk
          ∙ ap (take (length (without x (take n walk)))) fresh-without
          ∙ sym (
              take-take (length (without x (take n walk))) n
                (fresh [] (clockwise (new sha256 (without x nodes) k) p))
                (omega
                  (arith, length-take n walk, length-keep-le (λ y. not (same y x)) (take n walk)))))

  -- A node that is not among the owners of a partition can leave without changing them.
  pub owners_unmoved :
      has (owners (new sha256 nodes k) p n) x ≡ false
      → owners (new sha256 (without x nodes) k) p n ≡ owners (new sha256 nodes k) p n
  owners_unmoved h =
      let walk = fresh [] (clockwise (new sha256 nodes k) p) in
      owners_lem (new sha256 (without x nodes) k) p n
      ∙ ap (take n) (sym fresh-without)
      ∙ take-without_absent n walk x
          (sym (ap (λ os. has os x) (owners_lem (new sha256 nodes k) p n)) ∙ h)
      ∙ sym (owners_lem (new sha256 nodes k) p n)
