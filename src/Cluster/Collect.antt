-- ===== src/Cluster/Collect.antt =====
-- internal/cluster/collect.go: the pass that deletes the chunks that nothing refers to. What the pass
-- asks of the metadata store and of the disk, and how these calls fail, is the argument `calls`; the
-- node's view of the cluster is the argument `view`. A set of ids is a list, and times are
-- nanoseconds.
pub mod Sweep
pub mod Reference
pub mod Scan
pub mod Left
pub mod Safety
pub mod Tests
use kavo.Base.{
  ℕ, zero, suc, ◌+◌, ◌%◌, Bool, true, false, not, ◌&&◌, ◌||◌, Option, none, some, List, [], ◌∷◌,
  ◌++◌, map, ltb, ◌==◌, if◌then◌else◌, length, get_elem?, keep, Bytes, text, same, has, has_prefix,
  index, Result, ok, err, ◌>>=◌,
}
use kavo.Ec.{shards, valid, is_zero}
use kavo.Ring.{Ring, owners, partition_for}
use kavo.Object.Manifest.{ChunkRef, Manifest, shard_id}
use kavo.Meta.Keys.{after}
use kavo.Meta.Entries.{Object, PartRef}

abbrev pub id_alphabet : Bytes
id_alphabet = text "ABCDEFGHIJKLMNOPQRSTUVWXYZ234567"

-- CollectSlices, scanPage and Replicas
abbrev pub collect_slices : ℕ
collect_slices = length id_alphabet

abbrev pub scan_page : ℕ
scan_page = 256

abbrev pub replicas : ℕ
replicas = 3

pub record ChunkInfo : Type 0 where
  pub id : Bytes
  pub size : ℕ
  pub modified : ℕ

pub record CollectStats : Type 0 where
  pub slice : Bytes
  pub referenced : ℕ
  pub examined : ℕ
  pub collected : ℕ
  pub bytes_collected : ℕ
  pub young : ℕ
  pub writing : ℕ

-- The coordinator's own id, its ring and the members that it knows of
pub record View : Type 0 where
  pub self : Bytes
  pub ring : Ring
  pub peers : List Bytes
  pub sha256 : Bytes → Bytes

-- What a pass changes: the node's chunks, in the order of a scan, its cursor, and the records of the
-- writes in flight, with the node of each
pub record State : Type 0 where
  pub chunks : List ChunkInfo
  pub cursor : Bytes
  pub writes : List (Bytes × Bytes)

-- How the calls of a pass end: with `some e` they fail and change nothing. The two scans take a
-- position and a limit. `scan_chunks` is a failure that comes after so many chunks.
pub record Calls (E : Type 0) : Type 0 where
  pub read_cursor : Option E
  pub save_cursor : Option E
  pub read_writing : Option E
  pub done_writing : Bytes → Option E
  pub scan_parts : Bytes → ℕ → Result E (List PartRef)
  pub scan_objects : Bytes → ℕ → Result E (List Object)
  pub remove_chunk : Bytes → Option E
  pub scan_chunks : Option (ℕ × E)

-- redundancy
abbrev pub redundancy : Manifest → ℕ
redundancy m = if valid m.coding then shards m.coding else replicas

-- positionsOf, from index `i`
pub positions_of : ℕ → List Bytes → Bytes → List ℕ
positions_of i [] node = []
positions_of i (id ∷ nodes) node =
    let rest = positions_of (suc i) nodes node in if same id node then i ∷ rest else rest

-- The ids that `reference` adds for one chunk
pub ids_of : Manifest → List ℕ → ℕ → ChunkRef → List Bytes
ids_of m mine slice ref =
    if not (has_prefix ref.id (slice ∷ []))
    then []
    else if is_zero m.coding
    then ref.id ∷ []
    else map (shard_id ref) mine

pub ids_of_all : Manifest → List ℕ → ℕ → List ChunkRef → List Bytes
ids_of_all m mine slice [] = []
ids_of_all m mine slice (ref ∷ refs) = ids_of m mine slice ref ++ ids_of_all m mine slice refs

-- The positions at which the node holds shards, by the manifest and, with a key, by the ring
abbrev pub mine : View → Bytes → Manifest → List ℕ
mine view key m =
    positions_of 0 m.nodes view.self
    ++ (if same key []
        then []
        else positions_of 0 (owners view.ring (partition_for view.sha256 key) (redundancy m))
            view.self)

-- reference. A node without positions adds nothing.
pub reference : View → ℕ → Bytes → Manifest → List Bytes → List Bytes
reference view slice key m referenced =
    if length (mine view key m) == 0
    then referenced
    else referenced ++ ids_of_all m (mine view key m) slice m.chunks

-- inFlight
unfoldable pub in_flight : List Bytes → Bytes → Bool
in_flight [] id = false
in_flight (w ∷ writing) id = has_prefix id w || in_flight writing id

module _ {E X : Type 0} (scan : Bytes → ℕ → Result E (List X)) (next : X → Bytes)
    (add : X → List Bytes → List Bytes) where
  -- One page of a scan: the set, and where the next page starts
  abbrev pub add_page : List X → Bytes → List Bytes → Bytes × List Bytes
  add_page [] from set = (from, set)
  add_page (x ∷ xs) from set = add_page xs (next x) (add x set)

  -- The two loops of `referenced`, with `none` when the fuel runs out
  pub scan_all : ℕ → Bytes → List Bytes → Option (Result E (List Bytes))
  scan_all zero from set = none
  scan_all (suc fuel) from set = elim (scan from scan_page) [
    | err e ↦ some (err e)
    | ok [] ↦ some (ok set)
    | ok (x ∷ xs) ↦ let added = add_page (x ∷ xs) from set in scan_all fuel added.0 added.1
  ]

-- The loop of writesInFlight: the ids that are live, and the records that are left
unfoldable pub live_writes :
    {E : Type 0}
    → Calls E
    → View
    → List (Bytes × Bytes)
    → Result E (List Bytes) × List (Bytes × Bytes)
live_writes calls view [] = (ok [], [])
live_writes calls view ((id, node) ∷ writes) =
    let rest = live_writes calls view writes in
    if has view.peers node || length view.peers == 0
    then (rest.0 >>= (λ ids. ok (id ∷ ids)), (id, node) ∷ rest.1)
    else elim (calls.done_writing id) [ some e ↦ (err e, (id, node) ∷ writes) | none ↦ rest ]

module _ {E : Type 0} (calls : Calls E) (view : View) where
  -- writesInFlight
  pub writes_in_flight : State → Result E (List Bytes) × State
  writes_in_flight s = elim calls.read_writing [
    | some e ↦ (err e, s)
    | none ↦ let r = live_writes calls view s.writes in (r.0, record s { writes = r.1 })
  ]

  -- referenced: the ids that manifests name, and the writes in flight
  pub referenced : ℕ → ℕ → State → Option (Result E (List Bytes × List Bytes) × State)
  referenced fuel slice s =
      let w = writes_in_flight s in
      elim w.0 [
        | err e ↦ some (err e, w.1)
        | ok writing ↦
            elim (scan_all calls.scan_parts (λ p. p.key) (λ p. reference view slice [] p.manifest)
              fuel [] []) [
                | none ↦ none
                | some (err e) ↦ some (err e, w.1)
                | some (ok parts) ↦
                    elim (scan_all calls.scan_objects (λ o. after o.key)
                      (λ o. reference view slice o.key o.manifest) fuel [] parts) [
                        | none ↦ none
                        | some (err e) ↦ some (err e, w.1)
                        | some (ok set) ↦ some (ok (set, writing), w.1)
                      ]
              ]
      ]
