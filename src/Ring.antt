-- ===== src/Ring.antt =====
-- internal/ring/ring.go: from keys to partitions, and from partitions to ordered owners.
-- SHA-256 is the parameter `sha256`. slices.SortFunc is an insertion sort, which fixes the order of
-- virtual nodes at one position (the library leaves it open), and slices.BinarySearchFunc is its
-- documented result: the first index whose position is not below the target.
pub mod Order
pub mod Walk
pub mod Placement
pub mod Membership
pub mod Tests
use kavo.Base.{
  ℕ, zero, suc, ◌+◌, ◌*◌, ◌/◌, ◌%◌, ◌^◌, Bool, true, false, ◌||◌, Option, none, some, List, [], ◌∷◌,
  ◌++◌, ltb, leb, ◌==◌, if◌then◌else◌, length, get_elem?, take, Bytes, text, same, decimal, has,
}

-- Partitions and DefaultVNodes
abbrev pub partitions : ℕ
partitions = 256

abbrev pub default_vnodes : ℕ
default_vnodes = 128

abbrev pub partition_shift : ℕ
partition_shift = 56

pub record Vnode : Type 0 where
  pub pos : ℕ
  pub node : Bytes

-- A ring's virtual nodes, by position.
pub record Ring : Type 0 where
  pub vnodes : List Vnode

-- binary.BigEndian.Uint64
unfoldable pub big_endian : ℕ → Bytes → ℕ
big_endian acc [] = acc
big_endian acc (b ∷ bs) = big_endian (acc * 256 + b) bs

unfoldable pub hash_pos : (Bytes → Bytes) → Bytes → ℕ
unfolding big_endian
hash_pos sha256 s = big_endian 0 (take 8 (sha256 s))

pub vnode_pos : (Bytes → Bytes) → Bytes → ℕ → ℕ
unfolding hash_pos decimal
vnode_pos sha256 node i = hash_pos sha256 (node ++ text "#" ++ decimal i)

unfoldable pub partition_for : (Bytes → Bytes) → Bytes → ℕ
unfolding hash_pos
partition_for sha256 key = hash_pos sha256 key / 2 ^ partition_shift

-- The positions `i`, `i + 1`, … that one node claims, `k` of them.
pub claims : (Bytes → Bytes) → Bytes → ℕ → ℕ → List Vnode
unfolding vnode_pos
claims sha256 node i zero = []
claims sha256 node i (suc k) =
    record { pos = vnode_pos sha256 node i; node = node } ∷ claims sha256 node (suc i) k

pub all_claims : (Bytes → Bytes) → List Bytes → ℕ → List Vnode
unfolding claims
all_claims sha256 [] k = []
all_claims sha256 (node ∷ nodes) k = claims sha256 node 0 k ++ all_claims sha256 nodes k

pub insert : Vnode → List Vnode → List Vnode
insert v [] = v ∷ []
insert v (w ∷ ws) = if ltb w.pos v.pos then w ∷ insert v ws else v ∷ w ∷ ws

pub sort_by_pos : List Vnode → List Vnode
unfolding insert
sort_by_pos [] = []
sort_by_pos (v ∷ vs) = insert v (sort_by_pos vs)

-- New
pub new : (Bytes → Bytes) → List Bytes → ℕ → Ring
unfolding all_claims sort_by_pos
new sha256 nodes vnodes_per_node = record {
  vnodes = sort_by_pos (all_claims sha256 nodes vnodes_per_node);
}

unfoldable pub search_pos : ℕ → List Vnode → ℕ
search_pos target [] = 0
search_pos target (v ∷ vs) = if ltb v.pos target then suc (search_pos target vs) else 0

-- The node at an index, which the loop below keeps in range.
unfoldable pub node_at : List Vnode → ℕ → Bytes
node_at vs i = elim (get_elem? vs i) [ none ↦ [] | some v ↦ v.node ]

-- The loop of Owners, with the rounds that are left.
unfoldable pub lap : List Vnode → ℕ → ℕ → ℕ → ℕ → List Bytes → List Bytes
unfolding node_at has
lap vs start n zero i owners = owners
lap vs start n (suc rounds) i owners =
    let node = node_at vs ((start + i) % length vs) in
    let grown = owners ++ node ∷ [] in
    let skip = lap vs start n rounds (suc i) owners in
    let more = lap vs start n rounds (suc i) grown in
    if has owners node then skip else if length grown == n then grown else more

-- Owners
unfoldable pub owners : Ring → ℕ → ℕ → List Bytes
unfolding search_pos lap
owners r p n =
    if length r.vnodes == 0 || n == 0
    then []
    else lap r.vnodes (search_pos (p * 2 ^ partition_shift % 2 ^ 64) r.vnodes) n (length r.vnodes) 0
        []
