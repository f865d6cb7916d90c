-- ===== src/Cluster/Nodes.antt =====
-- internal/cluster/cluster.go: a node's view of the cluster, its configuration, and its calls of the
-- disk and of other nodes. A map from ids to addresses is a list of pairs whose first entry for an id
-- counts.
use kavo.Base.{
  ℕ, Bool, true, false, not, ◌&&◌, ◌||◌, ltb, ◌==◌, Option, none, some, List, [], ◌∷◌, ◌++◌, map,
  keep, length, Bytes, same, has, less, if◌then◌else◌, Result, ok, err,
}
use kavo.Base.Actions.{Action, fail}
use kavo.Faults.{Fault, never_member, bad_quorum, bad_scheme}
use kavo.Ec.{Scheme, Codec, is_zero, valid, shards}
use kavo.Ring
use kavo.Ring.{Ring, default_vnodes, owners}
use kavo.Object.Manifest.{ChunkRef}
use kavo.Object.Read.{Reader}
use kavo.Meta.Store.{Store}
use kavo.Cluster.Collect.{replicas}

abbrev pub Addrs : Type 0
Addrs = List (Bytes × Bytes)

unfoldable pub lookup : Addrs → Bytes → Option Bytes
lookup [] id = none
lookup ((k, v) ∷ m) id = let rest = lookup m id in if same k id then some v else rest

-- m[id], which is empty for a key that is not there
abbrev pub addr_of : Addrs → Bytes → Bytes
addr_of m id = elim (lookup m id) [ none ↦ [] | some a ↦ a ]

-- _, ok := m[id]
abbrev pub is_member : Addrs → Bytes → Bool
is_member m id = elim (lookup m id) [ none ↦ false | some a ↦ true ]

pub record Membership : Type 0 where
  pub peers : Addrs
  pub known : Addrs
  pub ring : Ring

-- cmp.Or on strings
abbrev pub or_else : Bytes → Bytes → Bytes
or_else [] b = b
or_else (c ∷ cs) b = c ∷ cs

-- readAddr
unfoldable pub read_addr : Membership → Bytes → Bytes
read_addr m node = or_else (addr_of m.peers node) (addr_of m.known node)

-- The coordinator's fields, but for the store and the metadata
pub record Config : Type 0 where
  pub self : Bytes
  pub addr : Bytes
  pub quorum : ℕ
  pub chunk_size : ℕ
  pub scheme : Scheme

abbrev pub default_write_quorum : ℕ
default_write_quorum = 2

-- AcknowledgeAt. A quorum of zero stands for all below one.
unfoldable pub acknowledge_at : {E : Type 0} → ℕ → Config → Result (Fault E) Config
acknowledge_at w c =
    if ltb w 1 || ltb replicas w then err bad_quorum else ok (record c { quorum = w })

-- EncodeWith
unfoldable pub encode_with : {E : Type 0} → Scheme → Config → Result (Fault E) Config
encode_with s c =
    if not (is_zero s) && not (valid s) then err bad_scheme else ok (record c { scheme = s })

unfoldable pub width : Config → ℕ
width c = if is_zero c.scheme then replicas else shards c.scheme

-- delete(m, id) and next[self] = addr
abbrev pub without_id : Bytes → Addrs → Addrs
without_id id = keep (λ e. not (same e.0 id))

unfoldable pub insert_sorted : Bytes → List Bytes → List Bytes
insert_sorted id [] = id ∷ []
insert_sorted id (x ∷ xs) =
    let rest = insert_sorted id xs in if less x id then x ∷ rest else id ∷ x ∷ xs

-- slices.Sorted
unfoldable pub sorted : List Bytes → List Bytes
sorted [] = []
sorted (x ∷ xs) = insert_sorted x (sorted xs)

-- SetMembers. The membership before is `none` when there is none yet.
unfoldable pub set_members : (Bytes → Bytes) → Config → Addrs → Option Membership → Membership
set_members sha256 c peers was =
    let next = (c.self, c.addr) ∷ without_id c.self peers in
    let before = elim was as (λ _. Addrs) [ none ↦ [] | some m ↦ m.known ] in
    record {
      peers = next;
      known = next ++ keep (λ e. not (is_member next e.0)) before;
      ring = Ring.new sha256 (sorted (map (λ e. e.0) next)) default_vnodes;
    }

-- What a coordinator calls: the metadata, its disk and the other nodes (WriteChunkVerified, ReadChunk
-- and HasChunks of package store and PushChunk, FetchChunk and HasChunks of package peer), the time,
-- the digests of package crypto and of package hash/crc32, and the codec
pub record Outside (W E : Type 0) : Type 0 where
  pub meta : Store W E
  pub write_local : Bytes → Bytes → ℕ → ℕ → Action W (Fault E) (Unit {0})
  pub read_local : Bytes → ℕ → Action W (Fault E) Reader
  pub has_local : List Bytes → Action W (Fault E) (List Bytes)
  pub push_chunk : Bytes → Bytes → Bytes → ℕ → ℕ → Action W (Fault E) (Unit {0})
  pub fetch_chunk : Bytes → Bytes → ℕ → Action W (Fault E) Reader
  pub has_remote : Bytes → List Bytes → Action W (Fault E) (List Bytes)
  pub now : W → ℕ
  pub random_text : W → Bytes
  pub sha256 : Bytes → Bytes
  pub md5 : Bytes → Bytes
  pub crc32c : Bytes → ℕ
  pub crc32 : Bytes → ℕ
  pub crc64 : Bytes → ℕ
  pub codec : Codec

-- localFirst
unfoldable pub swap_first : Bytes → Bytes → List Bytes → List Bytes
swap_first first self [] = []
swap_first first self (x ∷ xs) =
    let rest = swap_first first self xs in if same x self then first ∷ xs else x ∷ rest

unfoldable pub local_first : Bytes → List Bytes → List Bytes
local_first self [] = []
local_first self (x ∷ xs) =
    if same x self then x ∷ xs else if has xs self then self ∷ swap_first x self xs else x ∷ xs

module _ {W E : Type 0} (out : Outside W E) (c : Config) where
  -- storeChunk and the end of storeShard
  unfoldable pub store_as :
      Membership → Bytes → Bytes → Bytes → ℕ → ℕ → Action W (Fault E) (Unit {0})
  store_as live owner id bytes crc size =
      if same owner c.self
      then out.write_local id bytes crc size
      else out.push_chunk (addr_of live.peers owner) id bytes crc size

  unfoldable pub store_chunk : Membership → Bytes → ChunkRef → Bytes → Action W (Fault E) (Unit {0})
  store_chunk live owner ref bytes = store_as live owner ref.id bytes ref.crc ref.size

  -- One attempt of fetch and of fetchShard: a read from the node, wherever it is
  unfoldable pub fetch_from : Membership → Bytes → Bytes → ℕ → Action W (Fault E) Reader
  fetch_from live node id crc =
      if same node c.self
      then out.read_local id crc
      else if length (read_addr live node) == 0
      then fail never_member
      else out.fetch_chunk (read_addr live node) id crc
