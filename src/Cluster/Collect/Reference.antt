-- ===== src/Cluster/Collect/Reference.antt =====
-- internal/cluster/collect.go: what `reference` adds to the set of ids that are in use.
use mathlib.Core.List.{Memᴰ}
use mathlib.Core.List.Memᴰ
use mathlib.Core.Option.{some_inj}
use kavo.Base.{
  ℕ, zero, suc, ◌+◌, ◌≡◌, ◌≢◌, refl, ap, sym, ◌∙◌, ◌⊎◌, inl, inr, Bool, true, false, ◌||◌, some,
  List, [], ◌∷◌, ◌++◌, append_assoc, map, arith, Bool-cases, ◌==◌, if◌then◌else◌, length, get_elem?,
  Bytes, text, same, same_iff, same_refl, has, has_prefix,
}
use kavo.Ec.{is_zero}
use kavo.Ring.{owners, partition_for}
use kavo.Object.Manifest.{ChunkRef, Manifest, padded, shard_id}
use kavo.Cluster.Collect.{View, redundancy, positions_of, ids_of, ids_of_all, mine, reference}

-- The node has a position in the manifest's placement or, with a key, in the ring's.
abbrev pub Placed : View → Bytes → Manifest → ℕ → Type 0
Placed view key m i =
    (get_elem? m.nodes i ≡ some view.self)
    ⊎ ((same key [] ≡ false)
        × (get_elem? (owners view.ring (partition_for view.sha256 key) (redundancy m)) i
            ≡ some view.self))

-- The manifest makes the node hold the id: that of a chunk or, with a coding, that of its shard at a
-- position of the node.
abbrev pub Holds : View → Bytes → Manifest → Bytes → Type 0
Holds view key m id =
    (ref : ChunkRef) × (i : ℕ) × Memᴰ ref m.chunks
    × Placed view key m i
    × (ref.id ≢ [])
    × (id ≡ (if is_zero m.coding then ref.id else shard_id ref i))

has-append : (xs ys : List Bytes) (x : Bytes) → has (xs ++ ys) x ≡ (has xs x || has ys x)
unfolding has
has-append [] ys x = refl
has-append (y ∷ xs) ys x = ground (arith, has-append xs ys x)

has-Mem : (xs : List Bytes) (x : Bytes) → Memᴰ x xs → has xs x ≡ true
unfolding has
has-Mem [] x m = elim m [ ]
has-Mem (y ∷ xs) x (Memᴰ.head e) = rw (sym e, same_refl x)
has-Mem (y ∷ xs) x (Memᴰ.tail m) = ground (arith, has-Mem xs x m)

Mem-map : {A B : Type 0} (f : A → B) (x : A) (xs : List A) → Memᴰ x xs → Memᴰ (f x) (map f xs)
Mem-map f x [] m = elim m [ ]
Mem-map f x (y ∷ xs) (Memᴰ.head e) = Memᴰ.head (ap f e)
Mem-map f x (y ∷ xs) (Memᴰ.tail m) = Memᴰ.tail (Mem-map f x xs m)

Mem-if : {x : ℕ} (b : Bool) (y : ℕ) (xs : List ℕ) → Memᴰ x xs → Memᴰ x (if b then y ∷ xs else xs)
Mem-if true y xs m = Memᴰ.tail m
Mem-if false y xs m = m

positions_of-Mem :
    (k i j : ℕ) (nodes : List Bytes) (node : Bytes)
    → j ≡ k + i
    → get_elem? nodes i ≡ some node
    → Memᴰ j (positions_of k nodes node)
unfolding positions_of
positions_of-Mem k i j [] node e h = cc
positions_of-Mem k zero j (n ∷ nodes) node e h =
    let found : same n node ≡ true = (same_iff n node).1 (some_inj.0 h) in
    rw found (Memᴰ.head (omega arith))
positions_of-Mem k (suc i) j (n ∷ nodes) node e h =
    Mem-if (same n node) k _ (positions_of-Mem (suc k) i j nodes node (omega arith) h)

mine-Mem :
    (view : View) (key : Bytes) (m : Manifest) (i : ℕ)
    → Placed view key m i
    → Memᴰ i (mine view key m)
mine-Mem view key m i (inl h) =
    Memᴰ.append_left _ (positions_of-Mem 0 i i m.nodes view.self (omega arith) h)
mine-Mem view key m i (inr (k, h)) =
    Memᴰ.append_right (positions_of 0 m.nodes view.self)
      (rw k (positions_of-Mem 0 i i _ view.self (omega arith) h))

-- A first letter is not changed by what follows the text.
has_prefix-append :
    (c : ℕ) (xs ys : Bytes) → xs ≢ [] → has_prefix (xs ++ ys) (c ∷ []) ≡ has_prefix xs (c ∷ [])
unfolding has_prefix
has_prefix-append c [] ys h = absurd (h refl)
has_prefix-append c (x ∷ xs) ys h = refl

shard_id-has_prefix :
    (slice : ℕ) (ref : ChunkRef) (i : ℕ)
    → ref.id ≢ []
    → has_prefix (shard_id ref i) (slice ∷ []) ≡ has_prefix ref.id (slice ∷ [])
unfolding shard_id
shard_id-has_prefix slice ref i ne =
    ap (λ id. has_prefix id (slice ∷ [])) (append_assoc ref.id (text "s") (padded 2 i))
    ∙ has_prefix-append slice ref.id (text "s" ++ padded 2 i) ne

length-Mem : (i : ℕ) (xs : List ℕ) → Memᴰ i xs → (length xs == 0) ≡ false
length-Mem i [] m = elim m [ ]
length-Mem i (x ∷ xs) m = ground arith

ids_of_all-Mem :
    (m : Manifest) (own : List ℕ) (slice : ℕ) (ref : ChunkRef) (refs : List ChunkRef) (id : Bytes)
    → Memᴰ ref refs
    → Memᴰ id (ids_of m own slice ref)
    → Memᴰ id (ids_of_all m own slice refs)
unfolding ids_of_all
ids_of_all-Mem m own slice ref [] id t h = elim t [ ]
ids_of_all-Mem m own slice ref (r ∷ refs) id (Memᴰ.head e) h = Memᴰ.append_left _ (rw e at h)
ids_of_all-Mem m own slice ref (r ∷ refs) id (Memᴰ.tail t) h =
    Memᴰ.append_right (ids_of m own slice r) (ids_of_all-Mem m own slice ref refs id t h)

ids_of-Mem :
    (m : Manifest) (own : List ℕ) (slice : ℕ) (ref : ChunkRef) (i : ℕ) (id : Bytes)
    → Memᴰ i own
    → ref.id ≢ []
    → id ≡ (if is_zero m.coding then ref.id else shard_id ref i)
    → has_prefix id (slice ∷ []) ≡ true
    → Memᴰ id (ids_of m own slice ref)
unfolding ids_of
ids_of-Mem m own slice ref i id at ne e p = elim (Bool-cases (is_zero m.coding)) [
  | inl plain ↦
      let same_id : id ≡ ref.id = rw plain at e in
      let inside : has_prefix ref.id (slice ∷ []) ≡ true = rw same_id at p in
      rw (inside, plain) (Memᴰ.head same_id)
  | inr coded ↦
      let shard : id ≡ shard_id ref i = rw coded at e in
      let inside : has_prefix ref.id (slice ∷ []) ≡ true =
        sym (shard_id-has_prefix slice ref i ne) ∙ rw (sym shard) p in
      rw (inside, coded) (Memᴰ.cast shard (Mem-map (shard_id ref) i own at))
]

-- What was in the set stays there.
pub reference_keeps :
    (view : View) (slice : ℕ) (key : Bytes) (m : Manifest) (set : List Bytes) (id : Bytes)
    → has set id ≡ true
    → has (reference view slice key m set) id ≡ true
unfolding reference
reference_keeps view slice key m set id h =
    ground (arith, h, has-append set (ids_of_all m (mine view key m) slice m.chunks) id)

-- An id in the slice that the manifest makes the node hold is in the set that `reference` gives.
pub reference-Holds :
    (view : View) (slice : ℕ) (key : Bytes) (m : Manifest) (set : List Bytes) (id : Bytes)
    → Holds view key m id
    → has_prefix id (slice ∷ []) ≡ true
    → has (reference view slice key m set) id ≡ true
unfolding reference
reference-Holds view slice key m set id (ref, i, at, placed, ne, e) p =
    let own = mine-Mem view key m i placed in
    let new : has (ids_of_all m (mine view key m) slice m.chunks) id ≡ true =
      has-Mem _ id
        (ids_of_all-Mem m _ slice ref m.chunks id at (ids_of-Mem m _ slice ref i id own ne e p)) in
    let some_position = length-Mem i (mine view key m) own in
    rw some_position
      (has-append set (ids_of_all m (mine view key m) slice m.chunks) id ∙ ground (arith, new))
