-- ===== src/Cluster/Scrub.antt =====
-- internal/cluster/scrub.go, and verifyLocalShard of internal/cluster/erasure.go: re-reading a node's
-- own copies. The pace is left out: it only waits.
pub mod Accounts
use kavo.Base.{
  ℕ, suc, ◌+◌, ◌==◌, ◌||◌, ltb, Bool, true, false, not, Option, none, some, List, [], ◌∷◌, length,
  Bytes, text, same, if◌then◌else◌, Result, ok, err,
}
use kavo.Base.Actions.{Action, pure, ◌>>=◌, ◌>>◌}
use kavo.Faults.{Fault, no_owner, unrepairable}
use kavo.Ec.{is_zero}
use kavo.Object.Manifest.{ChunkRef, shard_id}
use kavo.Object.Read.Window.{joined}
use kavo.Meta.Entries.{Object}
use kavo.Cluster.Nodes.{Config, Membership, Outside, read_addr}
use kavo.Cluster.Erasure.{nth, restore_shards}
use kavo.Cluster.Walk.{counted, each, walk}

pub record ScrubStats : Type 0 where
  pub copies_read : ℕ
  pub bytes_read : ℕ
  pub rotted : ℕ
  pub rebuilt : ℕ
  pub unrecovered : ℕ

abbrev pub nothing_read : ScrubStats
nothing_read = record { copies_read = 0; bytes_read = 0; rotted = 0; rebuilt = 0; unrecovered = 0 }

abbrev pub one_read : ℕ → ScrubStats → ScrubStats
one_read size st = record st { copies_read = suc st.copies_read; bytes_read = st.bytes_read + size }

abbrev pub one_rotted : ScrubStats → ScrubStats
one_rotted st = record st { rotted = suc st.rotted }

abbrev pub rebuilt_rot : ℕ → ScrubStats → ScrubStats
rebuilt_rot n st = record st { rebuilt = st.rebuilt + n }

abbrev pub lost_rot : ℕ → ScrubStats → ScrubStats
lost_rot n st = record st { unrecovered = st.unrecovered + n }

-- HasChunk of package store, and ReadChunk followed by io.Copy to nowhere: whether the bytes
-- match the checksum, and how many were read
pub record Disk (W E : Type 0) : Type 0 where
  pub has_chunk : Bytes → Action W (Fault E) Bool
  pub read_all : Bytes → ℕ → W → (Result (Fault E) Bool × ℕ) × W

module _ {W E : Type 0} (out : Outside W E) (disk : Disk W E) (c : Config) (live : Membership) where
  -- rebuildFromPeers. A source whose end does not verify makes the write of its bytes fail.
  unfoldable pub rebuild_from_peers : ChunkRef → List Bytes → Action W (Fault E) (Unit {0})
  rebuild_from_peers ref [] w = (err no_owner, w)
  rebuild_from_peers ref (node ∷ nodes) w =
      let skipped = rebuild_from_peers ref nodes w in
      let (r, w1) = out.fetch_chunk (read_addr live node) ref.id ref.crc w in
      let unfetched = rebuild_from_peers ref nodes w1 in
      if same node c.self || length (read_addr live node) == 0 then skipped else elim r [
        | err e ↦ unfetched
        | ok src ↦
            let (written, w2) = out.write_local ref.id (joined src.pieces) ref.crc ref.size w1 in
            let unwritten = rebuild_from_peers ref nodes w2 in
            if not src.verified
            then unfetched
            else elim written [ ok u ↦ (ok tt, w2) | err e ↦ unwritten ]
      ]

  -- The loop of scrubObject, at one chunk
  unfoldable pub scrub_chunk : List Bytes → ChunkRef → Action (ScrubStats × W) (Fault E) (Unit {0})
  scrub_chunk nodes ref (st, w) =
      let (held, w1) = disk.has_chunk ref.id w in
      let ((read, size), w2) = disk.read_all ref.id ref.crc w1 in
      let st' = one_read ref.size st in
      elim held [
        | err e ↦ (err e, (st, w1))
        | ok false ↦ (ok tt, (st, w1))
        | ok true ↦ elim read [
          | err e ↦ (err e, (st', w2))
          | ok true ↦ (ok tt, (st', w2))
          | ok false ↦
              counted (rebuild_from_peers ref nodes) (lost_rot 1) (rebuilt_rot 1)
                (one_rotted st', w2)
        ]
      ]

  -- The loop of scrubShards over the positions, with verifyLocalShard: the positions that have rotted,
  -- from position `i`, and the first error
  unfoldable pub scrub_positions :
      ChunkRef
      → ℕ
      → List Bytes
      → ScrubStats × W
      → (Result (Fault E) (Unit {0}) × List ℕ) × (ScrubStats × W)
  scrub_positions ref i [] v = ((ok tt, []), v)
  scrub_positions ref i (node ∷ nodes) (st, w) =
      let skipped = scrub_positions ref (suc i) nodes (st, w) in
      let (held, w1) = disk.has_chunk (shard_id ref i) w in
      let absent = scrub_positions ref (suc i) nodes (st, w1) in
      let ((read, size), w2) = disk.read_all (shard_id ref i) (nth 0 ref.shard_crcs i) w1 in
      let next = scrub_positions ref (suc i) nodes (one_read size st, w2) in
      let next_rotted = scrub_positions ref (suc i) nodes (one_rotted (one_read size st), w2) in
      if not (same node c.self) then skipped else elim held [
        | err e ↦ ((err e, absent.0.1), absent.1)
        | ok false ↦ absent
        | ok true ↦ elim read [
          | err e ↦ ((err e, next.0.1), next.1)
          | ok good ↦ if good then next else ((next_rotted.0.0, i ∷ next_rotted.0.1), next_rotted.1)
        ]
      ]

  -- The loop of scrubShards, at one chunk
  unfoldable pub scrub_coded_chunk :
      Object → ChunkRef → Action (ScrubStats × W) (Fault E) (Unit {0})
  scrub_coded_chunk o ref v =
      let m = o.manifest in
      let ((r, rotted), v1) = scrub_positions ref 0 m.nodes v in
      let (restored, v2) =
        counted (restore_shards out c live ref m.nodes m.nodes rotted m.coding)
          (lost_rot (length rotted)) (rebuilt_rot (length rotted)) v1 in
      if length rotted == 0 then (r, v1) else (elim r [ ok u ↦ restored | err e ↦ err e ], v2)

  unfoldable pub scrub_object : Object → Action (ScrubStats × W) (Fault E) (Unit {0})
  scrub_object o =
      if is_zero o.manifest.coding
      then each (scrub_chunk o.manifest.nodes) o.manifest.chunks
      else each (scrub_coded_chunk o) o.manifest.chunks

  -- Scrub, on fuel for its walk. ErrRotUnrecovered is `unrepairable`.
  unfoldable pub scrub : ℕ → W → Option (Result (Fault E) (Unit {0}) × (ScrubStats × W))
  scrub fuel w = elim (walk out c (text "scrub") scrub_object fuel (nothing_read, w)) [
    | none ↦ none
    | some (err e, v) ↦ some (err e, v)
    | some (ok u, (st, w')) ↦
        some (if ltb 0 st.unrecovered then err unrepairable else ok tt, (st, w'))
  ]
