-- ===== src/Ring/Walk.antt =====
-- internal/ring/ring.go: the loop of Owners as a walk along the nodes in clockwise order.
use native.Mathlib.Nat.{zero-add, add-zero}
use mathlib.Core.List.{map-append}
use mathlib.Core.Path.{ap₂}
use kavo.Base.{
  ℕ, zero, suc, ◌+◌, ◌-◌, ◌*◌, ◌%◌, ◌^◌, ◌≤◌, ◌<◌, ◌≡◌, refl, ap, ◌∙◌, sym, true, false, inl, inr,
  List, [], ◌∷◌, ◌++◌, map, append_assoc, append-nil, arith, if◌then◌else◌, ◌==◌, Bool-cases,
  length, take, drop, length-append, length-drop, take_all, Bytes, has,
}
use kavo.Ring.{Vnode, Ring, partition_shift, search_pos, node_at, lap, owners}

-- The first occurrences in a list of what has not been seen.
unfoldable pub fresh : List Bytes → List Bytes → List Bytes
unfolding has
fresh seen [] = []
fresh seen (x ∷ xs) = if has seen x then fresh seen xs else x ∷ fresh (seen ++ x ∷ []) xs

abbrev pub nodes_of : List Vnode → List Bytes
nodes_of = map (λ v. v.node)

abbrev pub start_of : ℕ → ℕ
start_of p = p * 2 ^ partition_shift % 2 ^ 64

-- The ring's nodes, one for each virtual node, from the first at or after the partition's start.
abbrev pub clockwise : Ring → ℕ → List Bytes
clockwise r p =
    let at = search_pos (start_of p) r.vnodes in nodes_of (drop at r.vnodes ++ take at r.vnodes)

-- What the loop visits.
visited : List Vnode → ℕ → ℕ → ℕ → List Bytes
visited vs start zero i = []
visited vs start (suc k) i = node_at vs ((start + i) % length vs) ∷ visited vs start k (suc i)

in_a_row : List Vnode → ℕ → ℕ → List Bytes
in_a_row vs j zero = []
in_a_row vs j (suc k) = node_at vs j ∷ in_a_row vs (suc j) k

take_nil : (n : ℕ) → take {A = Bytes} n [] ≡ []
take_nil zero = refl
take_nil (suc n) = refl

take_room :
    (n : ℕ) (os : List Bytes) (x : Bytes) (rest : List Bytes)
    → length os < n
    → take (n - length os) (x ∷ rest) ≡ x ∷ take (n - length (os ++ x ∷ [])) rest
take_room n os x rest h =
    let e : n - length os ≡ suc (n - length (os ++ x ∷ [])) =
      omega (arith, length-append os (x ∷ [])) in
    rw e

take_full :
    (n : ℕ) (os : List Bytes) (x : Bytes) (rest : List Bytes)
    → length os < n
    → (length (os ++ x ∷ []) == n) ≡ true
    → os ++ x ∷ [] ≡ os ++ take (n - length os) (x ∷ rest)
take_full n os x rest h e =
    let none_left : n - length (os ++ x ∷ []) ≡ 0 = ground arith in
    rw (take_room n os x rest h, none_left)

lap_lem :
    (vs : List Vnode) (start n k i : ℕ) (os : List Bytes)
    → length os < n
    → lap vs start n k i os ≡ os ++ take (n - length os) (fresh os (visited vs start k i))
unfolding lap visited fresh
lap_lem vs start n zero i os h = rw (take_nil (n - length os)) (sym (append-nil os))
lap_lem vs start n (suc k) i os h =
    let x = node_at vs ((start + i) % length vs) in
    elim (Bool-cases (has os x)) [
      | inl old ↦ rw old (lap_lem vs start n k (suc i) os h)
      | inr new ↦ rw new (elim (Bool-cases (length (os ++ x ∷ []) == n)) [
        | inl full ↦ rw full (take_full n os x _ h full)
        | inr room ↦
            rw (room, take_room n os x _ h)
              (lap_lem vs start n k (suc i) (os ++ x ∷ [])
                  (ground (arith, length-append os (x ∷ [])))
                ∙ append_assoc os (x ∷ []) _)
      ])
    ]

in_a_row-tail :
    (v : Vnode) (vs : List Vnode) (j k : ℕ) → in_a_row (v ∷ vs) (suc j) k ≡ in_a_row vs j k
unfolding in_a_row node_at
in_a_row-tail v vs j zero = refl
in_a_row-tail v vs j (suc k) = ap (◌∷◌ (node_at vs j)) (in_a_row-tail v vs (suc j) k)

in_a_row_lem :
    (vs : List Vnode) (j k : ℕ)
    → j + k ≤ length vs
    → in_a_row vs j k ≡ nodes_of (take k (drop j vs))
unfolding in_a_row node_at
in_a_row_lem [] zero zero h = refl
in_a_row_lem [] (suc j) zero h = refl
in_a_row_lem [] j (suc k) h = absurd (omega arith)
in_a_row_lem (v ∷ vs) zero zero h = refl
in_a_row_lem (v ∷ vs) zero (suc k) h =
    ap (◌∷◌ v.node) (in_a_row-tail v vs 0 k ∙ in_a_row_lem vs 0 k (omega arith))
in_a_row_lem (v ∷ vs) (suc j) k h = in_a_row-tail v vs j k ∙ in_a_row_lem vs j k (omega arith)

visited-append :
    (vs : List Vnode) (start a b i : ℕ)
    → visited vs start (a + b) i ≡ visited vs start a i ++ visited vs start b (i + a)
unfolding visited
visited-append vs start zero b i = rw (zero-add b, add-zero i)
visited-append vs start (suc a) b i =
    let e : suc a + b ≡ suc (a + b) = omega arith in
    let e' : i + suc a ≡ suc i + a = omega arith in
    rw (e, e')
      (ap (◌∷◌ (node_at vs ((start + i) % length vs))) (visited-append vs start a b (suc i)))

visited_before :
    (vs : List Vnode) (start k i : ℕ)
    → start + i + k ≤ length vs
    → visited vs start k i ≡ in_a_row vs (start + i) k
unfolding visited in_a_row
visited_before vs start zero i h = refl
visited_before vs start (suc k) i h =
    let e : (start + i) % length vs ≡ start + i = grind arith in
    let e' : start + suc i ≡ suc (start + i) = omega arith in
    rw e
      (ap (◌∷◌ (node_at vs (start + i))) (visited_before vs start k (suc i) (omega arith) ∙ rw e'))

visited_after :
    (vs : List Vnode) (start k i j : ℕ)
    → start + i ≡ length vs + j
    → j + k ≤ length vs
    → visited vs start k i ≡ in_a_row vs j k
unfolding visited in_a_row
visited_after vs start zero i j e h = refl
visited_after vs start (suc k) i j e h =
    let wrapped : (start + i) % length vs ≡ j = grind arith in
    rw wrapped (
      ap (◌∷◌ (node_at vs j))
        (visited_after vs start k (suc i) (suc j) (omega arith) (omega arith)))

search_pos-le : (t : ℕ) (vs : List Vnode) → search_pos t vs ≤ length vs
unfolding search_pos
search_pos-le t [] = omega arith
search_pos-le t (v ∷ vs) = ground (arith, search_pos-le t vs)

-- One lap visits the ring's nodes in clockwise order.
visited_lap :
    (vs : List Vnode) (start : ℕ)
    → start ≤ length vs
    → visited vs start (length vs) 0 ≡ nodes_of (drop start vs ++ take start vs)
visited_lap vs start h =
    let front = length vs - start in
    let e : length vs ≡ front + start = omega arith in
    let e0 : start + 0 ≡ start = omega arith in
    let first : visited vs start front 0 ≡ nodes_of (drop start vs) =
      visited_before vs start front 0 (omega arith)
      ∙ rw e0 (in_a_row_lem vs start front (omega arith))
      ∙ ap nodes_of (take_all front (drop start vs) (omega (arith, length-drop start vs))) in
    let second : visited vs start start (0 + front) ≡ nodes_of (take start vs) =
      visited_after vs start start (0 + front) 0 (omega arith) (omega arith)
      ∙ in_a_row_lem vs 0 start (omega arith) in
    ap (λ k. visited vs start k 0) e
    ∙ visited-append vs start front start 0
    ∙ ap₂ ◌++◌ first second
    ∙ sym (map-append (λ v. v.node) (drop start vs) (take start vs))

owners_nonempty :
    (v : Vnode) (vs : List Vnode) (p n : ℕ)
    → owners (record { vnodes = v ∷ vs }) p (suc n)
      ≡ lap (v ∷ vs) (search_pos (start_of p) (v ∷ vs)) (suc n) (length (v ∷ vs)) 0 []
unfolding owners
owners_nonempty v vs p n =
    let some_vnode : (suc (length vs) == 0) ≡ false = ground arith in
    let some_owner : (suc n == 0) ≡ false = ground arith in rw (some_vnode, some_owner)

owners_of :
    (vs : List Vnode) (p n : ℕ)
    → owners (record { vnodes = vs }) p n ≡ take n (fresh [] (clockwise (record { vnodes = vs }) p))
unfolding owners fresh
owners_of [] p zero = refl
owners_of [] p (suc n) = refl
owners_of (v ∷ vs) p zero = ground arith
owners_of (v ∷ vs) p (suc n) =
    let at = search_pos (start_of p) (v ∷ vs) in
    let room : suc n - 0 ≡ suc n = omega arith in
    owners_nonempty v vs p n
    ∙ lap_lem (v ∷ vs) at (suc n) (length (v ∷ vs)) 0 [] (omega arith)
    ∙ ap (λ m. take m (fresh [] (visited (v ∷ vs) at (length (v ∷ vs)) 0))) room
    ∙ ap (λ xs. take (suc n) (fresh [] xs))
        (visited_lap (v ∷ vs) at (search_pos-le (start_of p) (v ∷ vs)))

-- Owners takes the first `n` distinct nodes clockwise from the partition's start.
pub owners_lem : (r : Ring) (p n : ℕ) → owners r p n ≡ take n (fresh [] (clockwise r p))
owners_lem r p n = owners_of r.vnodes p n
