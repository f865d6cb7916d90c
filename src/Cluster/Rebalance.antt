-- ===== src/Cluster/Rebalance.antt =====
-- internal/cluster/rebalance.go: moving objects to the owners that the ring names now. The pace is
-- left out: it only waits.
pub mod Moves
use kavo.Base.{
  ℕ, suc, ◌+◌, ◌*◌, ◌==◌, ◌&&◌, ◌||◌, ltb, Bool, true, false, not, Option, List, [], ◌∷◌, length,
  Bytes, text, same, has, if◌then◌else◌, Result, ok, err,
}
use kavo.Base.Actions.{Action, pure, ◌>>=◌, ◌>>◌}
use kavo.Faults.{Fault, changed}
use kavo.Ec.{is_zero}
use kavo.Ring.{partition_for, owners}
use kavo.Object.Manifest.{ChunkRef, Manifest}
use kavo.Meta.Entries.{Object}
use kavo.Meta.Manifests.{commit_if_unchanged}
use kavo.Cluster.Nodes.{Config, Membership, Outside}
use kavo.Cluster.Collect.{redundancy}
use kavo.Cluster.Erasure.{shard_size, restore_shards}
use kavo.Cluster.Uploads.{same_nodes}
use kavo.Cluster.Walk.{tally, counted, each, walk}
use kavo.Cluster.Repair.{is_first, restore}

pub record RebalanceStats : Type 0 where
  pub objects : ℕ
  pub misplaced : ℕ
  pub moved : ℕ
  pub copies : ℕ
  pub bytes : ℕ
  pub raced : ℕ
  pub failed : ℕ

abbrev pub no_moves : RebalanceStats
no_moves = record {
  objects = 0;
  misplaced = 0;
  moved = 0;
  copies = 0;
  bytes = 0;
  raced = 0;
  failed = 0;
}

abbrev pub one_visited : RebalanceStats → RebalanceStats
one_visited st = record st { objects = suc st.objects }

abbrev pub one_misplaced : RebalanceStats → RebalanceStats
one_misplaced st = record st { misplaced = suc st.misplaced }

abbrev pub with_copies : ℕ → ℕ → RebalanceStats → RebalanceStats
with_copies n bytes st = record st { copies = st.copies + n; bytes = st.bytes + bytes }

-- errors.Is(err, meta.ErrChanged)
abbrev pub is_changed : {E : Type 0} → Fault E → Bool
is_changed changed = true
is_changed e = false

-- The positions, from position `i`, whose node is another one now
unfoldable pub moved_positions : ℕ → List Bytes → List Bytes → List ℕ
moved_positions i nodes [] = []
moved_positions i [] (node ∷ want) = i ∷ moved_positions (suc i) [] want
moved_positions i (was ∷ nodes) (node ∷ want) =
    let rest = moved_positions (suc i) nodes want in if same was node then rest else i ∷ rest

module _ {W E : Type 0} (out : Outside W E) (c : Config) (live : Membership) where
  -- copyChunk, which makes the calls of restore
  unfoldable pub copy_chunk : Manifest → ChunkRef → Bytes → Action W (Fault E) (Unit {0})
  copy_chunk m ref node = restore out c live node ref m.nodes

  unfoldable pub move_shards :
      Object → List Bytes → Action (RebalanceStats × W) (Fault E) (Unit {0})
  move_shards o want =
      let m = o.manifest in
      let missing = moved_positions 0 m.nodes want in
      if length missing == 0
      then pure tt
      else each
          (λ ref.
            counted (restore_shards out c live ref m.nodes want missing m.coding) (λ st. st)
              (with_copies (length missing) (length missing * shard_size ref.size m.coding)))
          m.chunks

  -- The loop of copyToNewOwners, at one chunk and one owner
  unfoldable pub copy_to_owner :
      Manifest → ChunkRef → Bytes → Action (RebalanceStats × W) (Fault E) (Unit {0})
  copy_to_owner m ref node =
      if has m.nodes node
      then pure tt
      else counted (copy_chunk m ref node) (λ st. st) (with_copies 1 ref.size)

  unfoldable pub copy_to_new_owners :
      Object → List Bytes → Action (RebalanceStats × W) (Fault E) (Unit {0})
  copy_to_new_owners o want =
      if not (is_zero o.manifest.coding)
      then move_shards o want
      else each (λ ref. each (copy_to_owner o.manifest ref) want) o.manifest.chunks

  -- The owners that the ring names for the object now
  abbrev pub owners_now : Object → List Bytes
  owners_now o = owners live.ring (partition_for out.sha256 o.key) (redundancy o.manifest)

  -- The end of rebalanceObject: the commit of the manifest that names the new owners
  unfoldable pub commit_move :
      Object → List Bytes → Action (RebalanceStats × W) (Fault E) (Unit {0})
  commit_move o want (st, w) =
      let (r, w') =
        commit_if_unchanged out.meta o.key (record o.manifest { nodes = want }) o.revision w in
      elim r [
        | ok u ↦ (ok tt, (record st { moved = suc st.moved }, w'))
        | err e ↦
            if is_changed e
            then (ok tt, (record st { raced = suc st.raced }, w'))
            else (err e, (st, w'))
      ]

  unfoldable pub rebalance_object : Object → Action (RebalanceStats × W) (Fault E) (Unit {0})
  rebalance_object o =
      let want = owners_now o in
      if not (is_first out c live o.key)
      then pure tt
      else if ltb (length want) (length o.manifest.nodes) || same_nodes want o.manifest.nodes
      then tally one_visited
      else tally (λ st. one_misplaced (one_visited st))
        >> (copy_to_new_owners o want >> commit_move o want)

  -- The function that Rebalance gives to its walk
  unfoldable pub rebalance_visit : Object → Action (RebalanceStats × W) (Fault E) (Unit {0})
  rebalance_visit o v =
      let (r, (st, w)) = rebalance_object o v in
      elim r [
        | ok u ↦ (ok tt, (st, w))
        | err e ↦ (err e, (record st { failed = suc st.failed }, w))
      ]

  -- Rebalance, on fuel for its walk
  unfoldable pub rebalance : ℕ → W → Option (Result (Fault E) (Unit {0}) × (RebalanceStats × W))
  rebalance fuel w = walk out c (text "rebalance") rebalance_visit fuel (no_moves, w)
