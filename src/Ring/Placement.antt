-- ===== src/Ring/Placement.antt =====
-- internal/ring/ring.go: what Owners and PartitionFor return on a ring that New built.
use native.Mathlib.Nat.{pow-le-pow_right}
use native.Mathlib.Omega.{pow_step}
use kavo.Base.{
  ℕ, zero, suc, ◌+◌, ◌≤◌, ◌*◌, ◌^◌, ◌<◌, ◌≡◌, refl, ap, ◌∙◌, true, false, not, ◌&&◌, ◌||◌, List, [],
  ◌∷◌, ◌++◌, arith, length, take, drop, length-take, take_all, take-append-drop, Bytes, IsBytes,
  same, same_iff, same_refl, has,
}
use kavo.Ring.{
  Vnode, Ring, claims, all_claims, insert, sort_by_pos, new, search_pos, owners, partition_for,
  partitions, big_endian, hash_pos,
}
use kavo.Ring.Walk.{fresh, nodes_of, start_of, clockwise, owners_lem}

-- No text occurs twice.
abbrev pub IsDistinct : List Bytes → Type 0
IsDistinct [] = Unit
IsDistinct (x ∷ xs) = (has xs x ≡ false) × IsDistinct xs

-- `os` places something on `n` of the nodes: distinct ones, and fewer only when all are there.
pub record IsPlacement (nodes : List Bytes) (n : ℕ) (os : List Bytes) : Type 0 where
  pub bounded : length os ≤ n
  pub distinct : IsDistinct os
  pub known : (y : Bytes) → has os y ≡ true → has nodes y ≡ true
  pub complete : length os < n → (y : Bytes) → has nodes y ≡ true → has os y ≡ true

pub has-append : (xs ys : List Bytes) (y : Bytes) → has (xs ++ ys) y ≡ (has xs y || has ys y)
unfolding has
has-append [] ys y = refl
has-append (x ∷ xs) ys y = ground (arith, has-append xs ys y)

has-fresh :
    (seen xs : List Bytes) (y : Bytes) → has (fresh seen xs) y ≡ (has xs y && not (has seen y))
unfolding has fresh
has-fresh seen [] y = refl
has-fresh seen (x ∷ xs) y = ground (
  arith,
  has-fresh seen xs y,
  has-fresh (seen ++ x ∷ []) xs y,
  has-append seen (x ∷ []) y,
  same_iff x y,
  ap (has seen),
)

fresh-IsDistinct : (seen xs : List Bytes) → IsDistinct (fresh seen xs)
unfolding has fresh
fresh-IsDistinct seen [] = tt
fresh-IsDistinct seen (x ∷ xs) = ground (
  arith,
  fresh-IsDistinct seen xs,
  fresh-IsDistinct (seen ++ x ∷ []) xs,
  has-fresh (seen ++ x ∷ []) xs x,
  has-append seen (x ∷ []) x,
  same_refl x,
)

has-take : (n : ℕ) (xs : List Bytes) (y : Bytes) → has (take n xs) y ≡ true → has xs y ≡ true
unfolding has
has-take zero xs y h = cc
has-take (suc n) [] y h = h
has-take (suc n) (x ∷ xs) y h = ground (arith, has-take n xs y)

not_has-take : (n : ℕ) (xs : List Bytes) (y : Bytes) → has xs y ≡ false → has (take n xs) y ≡ false
not_has-take n xs y h = ground (arith, has-take n xs y)

take-IsDistinct : (n : ℕ) (xs : List Bytes) → IsDistinct xs → IsDistinct (take n xs)
take-IsDistinct zero xs d = tt
take-IsDistinct (suc n) [] d = tt
take-IsDistinct (suc n) (x ∷ xs) d = (not_has-take n xs x d.0, take-IsDistinct n xs d.1)

has-map-append :
    (vs ws : List Vnode) (y : Bytes)
    → has (nodes_of (vs ++ ws)) y ≡ (has (nodes_of vs) y || has (nodes_of ws) y)
unfolding has
has-map-append [] ws y = refl
has-map-append (v ∷ vs) ws y = ground (arith, has-map-append vs ws y)

-- A rotation has the nodes that the ring has.
has-clockwise : (r : Ring) (p : ℕ) (y : Bytes) → has (clockwise r p) y ≡ has (nodes_of r.vnodes) y
has-clockwise r p y =
    let at = search_pos (start_of p) r.vnodes in
    ground (
      arith,
      has-map-append (drop at r.vnodes) (take at r.vnodes) y,
      has-map-append (take at r.vnodes) (drop at r.vnodes) y,
      ap (λ (vs : List Vnode). has (nodes_of vs) y) (take-append-drop at r.vnodes),
    )

owners-IsPlacement_of :
    (nodes : List Bytes) (n : ℕ) (walk : List Bytes)
    → ((y : Bytes) → has walk y ≡ has nodes y)
    → IsPlacement nodes n (take n (fresh [] walk))
unfolding has
owners-IsPlacement_of nodes n walk e = record {
  bounded = omega (arith, length-take n (fresh [] walk));
  distinct = take-IsDistinct n (fresh [] walk) (fresh-IsDistinct [] walk);
  known = λ y h. ground (arith, e y, has-fresh [] walk y, has-take n (fresh [] walk) y h);
  complete = λ short y h.
      rw (take_all n (fresh [] walk) (omega (arith, length-take n (fresh [] walk))))
        (ground (arith, e y, has-fresh [] walk y));
}

has-insert :
    (v : Vnode) (vs : List Vnode) (y : Bytes)
    → has (nodes_of (insert v vs)) y ≡ (same v.node y || has (nodes_of vs) y)
unfolding has insert
has-insert v [] y = refl
has-insert v (w ∷ ws) y = ground (arith, has-insert v ws y)

has-sort_by_pos :
    (vs : List Vnode) (y : Bytes) → has (nodes_of (sort_by_pos vs)) y ≡ has (nodes_of vs) y
unfolding has sort_by_pos
has-sort_by_pos [] y = refl
has-sort_by_pos (v ∷ vs) y = ground (arith, has-insert v (sort_by_pos vs) y, has-sort_by_pos vs y)

module _ (sha256 : Bytes → Bytes) where
  has-claims :
      (node : Bytes) (i k : ℕ) (y : Bytes)
      → has (nodes_of (claims sha256 node i (suc k))) y ≡ same node y
  unfolding has claims
  has-claims node i zero y = ground arith
  has-claims node i (suc k) y = ground (arith, has-claims node (suc i) k y)

  has-all_claims :
      (nodes : List Bytes) (k : ℕ) (y : Bytes)
      → has (nodes_of (all_claims sha256 nodes (suc k))) y ≡ has nodes y
  unfolding has all_claims
  has-all_claims [] k y = refl
  has-all_claims (node ∷ nodes) k y = ground (
    arith,
    has-map-append (claims sha256 node 0 (suc k)) (all_claims sha256 nodes (suc k)) y,
    has-claims node 0 k y,
    has-all_claims nodes k y,
  )

  has-new :
      (nodes : List Bytes) (k : ℕ) (y : Bytes)
      → 0 < k
      → has (nodes_of (new sha256 nodes k).vnodes) y ≡ has nodes y
  unfolding new
  has-new nodes zero y h = absurd (omega arith)
  has-new nodes (suc k) y h =
      has-sort_by_pos (all_claims sha256 nodes (suc k)) y ∙ has-all_claims nodes k y

  -- On a ring built with at least one virtual node for each node, Owners returns distinct nodes of
  -- the ring, at most `n` of them, and fewer than `n` only if it returns every node there is.
  pub owners-IsPlacement :
      (nodes : List Bytes) (k p n : ℕ)
      → 0 < k
      → IsPlacement nodes n (owners (new sha256 nodes k) p n)
  owners-IsPlacement nodes k p n h = rw (owners_lem (new sha256 nodes k) p n) (
      owners-IsPlacement_of nodes n (clockwise (new sha256 nodes k) p)
        (λ y. has-clockwise (new sha256 nodes k) p y ∙ has-new nodes k y h))

pub take-take : (m n : ℕ) (xs : List Bytes) → m ≤ n → take m (take n xs) ≡ take m xs
take-take zero n xs h = refl
take-take (suc m) zero xs h = absurd (omega arith)
take-take (suc m) (suc n) [] h = refl
take-take (suc m) (suc n) (x ∷ xs) h = ap (◌∷◌ x) (take-take m n xs (omega arith))

big_endian-lt :
    (acc bound : ℕ) (bs : Bytes)
    → IsBytes bs
    → acc < bound
    → big_endian acc bs < bound * 256 ^ length bs
unfolding big_endian
big_endian-lt acc bound [] b h = omega arith
big_endian-lt acc bound (x ∷ bs) b h = omega (
  arith,
  big_endian-lt (acc * 256 + x) (bound * 256) bs b.1 (omega arith),
  ap (λ (t : ℕ). bound * t) (pow_step 256 (length bs)),
)

take-IsBytes : (n : ℕ) (bs : Bytes) → IsBytes bs → IsBytes (take n bs)
take-IsBytes zero bs b = tt
take-IsBytes (suc n) [] b = tt
take-IsBytes (suc n) (x ∷ bs) b = (b.0, take-IsBytes n bs b.1)

-- Owners names the same nodes in the same order at every width: the owners at a smaller width are
-- the first of the owners at a larger one.
pub take-owners : (r : Ring) (p m n : ℕ) → m ≤ n → take m (owners r p n) ≡ owners r p m
take-owners r p m n h =
    rw (owners_lem r p n, owners_lem r p m) (take-take m n (fresh [] (clockwise r p)) h)

module _ (sha256 : Bytes → Bytes) (bytes : (s : Bytes) → IsBytes (sha256 s)) where
  hash_pos-lt : (s : Bytes) → hash_pos sha256 s < 2 ^ 64
  unfolding hash_pos
  hash_pos-lt s =
      let first = take 8 (sha256 s) in
      let few : length first ≤ 8 = omega (arith, length-take 8 (sha256 s)) in
      let powers : 256 ^ length first ≤ 256 ^ 8 = pow-le-pow_right (omega arith) few in
      omega (arith, big_endian-lt 0 1 first (take-IsBytes 8 (sha256 s) (bytes s)) (omega arith))

  -- If SHA-256 returns bytes, the partition of a key is below 256.
  pub partition_for-lt : (key : Bytes) → partition_for sha256 key < partitions
  unfolding partition_for
  partition_for-lt key = omega (arith, hash_pos-lt key)
