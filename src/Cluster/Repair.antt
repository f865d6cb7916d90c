-- ===== src/Cluster/Repair.antt =====
-- internal/cluster/repair.go: repair of the copies and shards that nodes should have and do not. The
-- pace is left out: it only waits.
pub mod Restores
use kavo.Base.{
  ℕ, suc, ◌+◌, ◌*◌, ◌==◌, ltb, Bool, false, not, Option, none, some, List, [], ◌∷◌, map, length,
  Bytes, text, same, has, if◌then◌else◌, Result, ok, err,
}
use kavo.Base.Actions.{Action, pure, fail, fail_if, ◌>>=◌, ◌>>◌}
use kavo.Faults.{Fault, unrepairable, verification_failed}
use kavo.Ec.{is_zero}
use kavo.Ring.{partition_for, owners}
use kavo.Object.Manifest.{ChunkRef, shard_id}
use kavo.Object.Read.Window.{joined}
use kavo.Meta.Entries.{Object}
use kavo.Cluster.Nodes.{Config, Membership, Outside, addr_of, is_member, store_as}
use kavo.Cluster.Replicate.{fetch}
use kavo.Cluster.Erasure.{shard_size, numbered, restore_shards}
use kavo.Cluster.Walk.{lift, tally, counted, each, walk}

pub record Stats : Type 0 where
  pub objects : ℕ
  pub copies_checked : ℕ
  pub restored : ℕ
  pub bytes_restored : ℕ
  pub unrepairable : ℕ

abbrev pub no_repairs : Stats
no_repairs = record {
  objects = 0;
  copies_checked = 0;
  restored = 0;
  bytes_restored = 0;
  unrepairable = 0;
}

-- What a survey found: nodes with the ids that they hold. The newest entry for a node counts.
abbrev pub Held : Type 0
Held = List (Bytes × List Bytes)

unfoldable pub held_by : Held → Bytes → List Bytes
held_by [] node = []
held_by ((k, ids) ∷ held) node = let rest = held_by held node in if same k node then ids else rest

abbrev pub one_object : Stats → Stats
one_object st = record st { objects = suc st.objects }

abbrev checked : Stats → Stats
checked st = record st { copies_checked = suc st.copies_checked }

abbrev unrepaired : ℕ → Stats → Stats
unrepaired n st = record st { unrepairable = st.unrepairable + n }

abbrev rebuilt : ℕ → ℕ → Stats → Stats
rebuilt n bytes st = record st {
  restored = st.restored + n;
  bytes_restored = st.bytes_restored + bytes;
}

module _ {W E : Type 0} (out : Outside W E) (c : Config) (live : Membership) where
  -- restore. A source whose end does not verify makes the write of its bytes fail.
  unfoldable pub restore : Bytes → ChunkRef → List Bytes → Action W (Fault E) (Unit {0})
  restore node ref nodes = do
    src ← fetch out c live ref nodes
    fail_if (not src.verified) verification_failed
    store_as out c live node ref.id (joined src.pieces) ref.crc ref.size

  -- A survey of one node that is a member. An error of another node counts as nothing held.
  unfoldable pub survey_node : Bytes → List Bytes → Action W (Fault E) (List Bytes)
  survey_node node ids w =
      let (r, w') = out.has_remote (addr_of live.peers node) ids w in
      if same node c.self
      then out.has_local ids w
      else elim r [ ok have ↦ (ok have, w') | err e ↦ (ok [], w') ]

  -- The loop of surveyNodes, with what it has found
  unfoldable pub survey_nodes : Held → List Bytes → List Bytes → Action W (Fault E) Held
  survey_nodes held [] ids w = (ok held, w)
  survey_nodes held (node ∷ nodes) ids w =
      let skipped = survey_nodes held nodes ids w in
      let (r, w') = survey_node node ids w in
      if is_member live.peers node
      then elim r [
        | err e ↦ (err e, w')
        | ok have ↦ survey_nodes ((node, have) ∷ held) nodes ids w'
      ]
      else skipped

  -- The loop of repairObject, at one chunk and one node
  unfoldable pub repair_copy :
      List Bytes → Held → ChunkRef → Bytes → Action (Stats × W) (Fault E) (Unit {0})
  repair_copy nodes held ref node =
      if is_member live.peers node
      then tally checked
        >> (if has (held_by held node) ref.id
            then pure tt
            else counted (restore node ref nodes) (unrepaired 1) (rebuilt 1 ref.size))
      else pure tt

  -- What repairShards asks a node for, and takes for nothing held after any error
  unfoldable pub survey_shards : Object → ℕ → Bytes → W → List Bytes × W
  survey_shards o i node w =
      let (r, w') = survey_node node (map (λ ref. shard_id ref i) o.manifest.chunks) w in
      if is_member live.peers node then (elim r [ ok have ↦ have | err e ↦ [] ], w') else ([], w)

  -- The survey of all positions, from position `i`
  unfoldable pub survey_positions : Object → ℕ → List Bytes → W → List (List Bytes) × W
  survey_positions o i [] w = ([], w)
  survey_positions o i (node ∷ nodes) w =
      let (have, w') = survey_shards o i node w in
      let (rest, w'') = survey_positions o (suc i) nodes w' in (have ∷ rest, w'')

  -- The positions whose members should have a shard of the chunk and do not, from position `i`, and
  -- how many members there are
  unfoldable pub missing_shards : ChunkRef → ℕ → List Bytes → List (List Bytes) → List ℕ × ℕ
  missing_shards ref i [] held = ([], 0)
  missing_shards ref i (node ∷ nodes) [] = ([], 0)
  missing_shards ref i (node ∷ nodes) (have ∷ held) =
      let (missing, n) = missing_shards ref (suc i) nodes held in
      if not (is_member live.peers node)
      then (missing, n)
      else if has have (shard_id ref i)
      then (missing, suc n)
      else (i ∷ missing, suc n)

  -- The loop of repairShards, at one chunk
  unfoldable pub repair_chunk :
      Object → List (List Bytes) → ChunkRef → Action (Stats × W) (Fault E) (Unit {0})
  repair_chunk o held ref =
      let m = o.manifest in
      let (missing, n) = missing_shards ref 0 m.nodes held in
      tally (λ st. record st { copies_checked = st.copies_checked + n })
      >> (if length missing == 0
          then pure tt
          else counted (restore_shards out c live ref m.nodes m.nodes missing m.coding)
              (unrepaired (length missing))
              (rebuilt (length missing) (length missing * shard_size ref.size m.coding)))

  unfoldable pub repair_shards : Object → Action (Stats × W) (Fault E) (Unit {0})
  repair_shards o (st, w) =
      let (held, w') = survey_positions o 0 o.manifest.nodes w in
      each (repair_chunk o held) o.manifest.chunks (st, w')

  -- The first owner of the object's partition is this node.
  unfoldable pub is_first : Bytes → Bool
  is_first key = elim (owners live.ring (partition_for out.sha256 key) 1) [
    | [] ↦ false
    | first ∷ rest ↦ same first c.self
  ]

  -- The end of repairObject, for an object that is not coded
  unfoldable pub repair_copies : Object → Action (Stats × W) (Fault E) (Unit {0})
  repair_copies o = do
    let nodes = o.manifest.nodes
    held ← lift (survey_nodes [] nodes (map (λ ref. ref.id) o.manifest.chunks))
    each (λ ref. each (repair_copy nodes held ref) nodes) o.manifest.chunks

  unfoldable pub repair_object : Object → Action (Stats × W) (Fault E) (Unit {0})
  repair_object o =
      if not (is_first o.key)
      then pure tt
      else tally one_object
        >> (if is_zero o.manifest.coding then repair_copies o else repair_shards o)

  -- Repair, on fuel for its walk
  unfoldable pub repair : ℕ → W → Option (Result (Fault E) (Unit {0}) × (Stats × W))
  repair fuel w = elim (walk out c (text "repair") repair_object fuel (no_repairs, w)) [
    | none ↦ none
    | some (err e, v) ↦ some (err e, v)
    | some (ok u, (st, w')) ↦
        some (if ltb 0 st.unrepairable then err unrepairable else ok tt, (st, w'))
  ]
