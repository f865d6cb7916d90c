-- ===== src/Cluster/Erasure.antt =====
-- internal/cluster/erasure.go: the shards of a chunk, written to their nodes and read back. Calls that
-- run side by side are made one after the other: each acts on its own shard.
pub mod Parity
use kavo.Base.{
  ℕ, zero, suc, ◌+◌, ◌-◌, ◌/◌, Bool, true, false, not, ◌||◌, ltb, ◌==◌, min, Option, none, some,
  List, [], ◌∷◌, ◌++◌, map, length, take, drop, replicate, get_elem?, Bytes, if◌then◌else◌, Result,
  ok, err,
}
use kavo.Base.Actions.{Action, pure, fail, given, fail_if, ◌>>=◌, ◌>>◌}
use kavo.Faults.{Fault, quorum, no_owner, ec_failed, too_few_nodes, bad_shards, bad_chunk}
use kavo.Ec
use kavo.Ec.{Scheme, shards}
use kavo.Object.Manifest.{ChunkRef, Manifest, shard_id}
use kavo.Object.Read.{Reader}
use kavo.Object.Read.Window.{joined}
use kavo.Cluster.Nodes.{Config, Membership, Outside, store_as, fetch_from}
use kavo.Cluster.Replicate.{count_acks}

-- shardSize
unfoldable pub shard_size : ℕ → Scheme → ℕ
shard_size chunk scheme = (chunk + scheme.data_shards - 1) / scheme.data_shards

-- An element of a list that is known to be long enough
abbrev pub nth : {A : Type 0} → A → List A → ℕ → A
nth other xs i = elim (get_elem? xs i) [ none ↦ other | some x ↦ x ]

-- A shard with its position
abbrev pub numbered : {A : Type 0} → ℕ → List A → List (ℕ × A)
numbered i [] = []
numbered i (x ∷ xs) = (i, x) ∷ numbered (suc i) xs

-- An error of package ec
abbrev pub of_ec : {E A : Type 0} → Result Ec.EcError A → Result (Fault E) A
of_ec (ok a) = ok a
of_ec (err e) = err ec_failed

module _ {W E : Type 0} (out : Outside W E) (c : Config) (live : Membership) where
  -- storeShard
  unfoldable pub store_shard : Bytes → ChunkRef → ℕ → Bytes → Action W (Fault E) (Unit {0})
  store_shard owner ref i shard =
      store_as out c live owner (shard_id ref i) shard (nth 0 ref.shard_crcs i) (length shard)

  -- encode, which gives back the reference with the checksums of the shards
  unfoldable pub encode : ChunkRef → Bytes → List Bytes → Action W (Fault E) ChunkRef
  encode ref bytes owners = do
    fail_if (not (length owners == shards c.scheme)) too_few_nodes
    slots ← given (of_ec (Ec.encode out.codec c.scheme bytes))
    let ref' : ChunkRef = record ref { shard_crcs = map out.crc32c slots }
    λ w.
        let (acks, w') =
          count_acks (λ (i, shard). store_shard (nth [] owners i) ref' i shard) (numbered 0 slots)
            w in
        if ltb acks (min (c.scheme.data_shards + 1) (shards c.scheme))
        then (err quorum, w')
        else (ok ref', w')

  -- fetchShard: the reader yields as many bytes as the manifest declares, and then its verified end
  unfoldable pub fetch_shard : ChunkRef → ℕ → Bytes → ℕ → Action W (Fault E) Bytes
  fetch_shard ref i node size = do
    rc ← fetch_from out c live node (shard_id ref i) (nth 0 ref.shard_crcs i)
    fail_if (not (length (joined rc.pieces) == size) || not rc.verified) bad_shards
    pure (joined rc.pieces)

  -- gather, over slots that start at position `i`: those from `from` up to `to` that are empty are
  -- fetched, and one that cannot be fetched stays empty.
  unfoldable pub gather :
      ChunkRef → List Bytes → ℕ → ℕ → ℕ → ℕ → List (Option Bytes) → W → List (Option Bytes) × W
  gather ref nodes size from to i [] w = ([], w)
  gather ref nodes size from to i (slot ∷ slots) w =
      let (r, w') = fetch_shard ref i (nth [] nodes i) size w in
      let (fetched, w1) = gather ref nodes size from to (suc i) slots w' in
      let (kept, w2) = gather ref nodes size from to (suc i) slots w in
      if ltb i from || not (ltb i to) then (slot ∷ kept, w2) else elim slot [
        | some s ↦ (some s ∷ kept, w2)
        | none ↦ elim r [ ok s ↦ (some s ∷ fetched, w1) | err e ↦ (none ∷ fetched, w1) ]
      ]

  -- slices.ContainsFunc with nil
  abbrev pub any_missing : List (Option Bytes) → Bool
  any_missing slots = ltb (Ec.present slots) (length slots)

  -- The end of decode, with the slots that were filled
  unfoldable pub join_slots : ChunkRef → Scheme → List (Option Bytes) → Action W (Fault E) Bytes
  join_slots ref scheme slots w = elim (Ec.reconstruct out.codec scheme slots ref.size) [
    | err e ↦ (err ec_failed, w)
    | ok (chunk, full) ↦ if out.crc32c chunk == ref.crc then (ok chunk, w) else (err bad_chunk, w)
  ]

  unfoldable pub decode : ChunkRef → List Bytes → Scheme → Action W (Fault E) Bytes
  decode ref nodes scheme w =
      let size = shard_size ref.size scheme in
      let (first, w1) =
        gather ref nodes size 0 scheme.data_shards 0 (replicate (shards scheme) none) w in
      let (all, w2) = gather ref nodes size scheme.data_shards (shards scheme) 0 first w1 in
      if not (length nodes == shards scheme) || not (length ref.shard_crcs == shards scheme)
      then (err bad_shards, w)
      else if any_missing first
      then join_slots ref scheme all w2
      else join_slots ref scheme first w1

  -- The loop of restoreShards over the missing positions: the first error, if there is one
  unfoldable pub place_shards :
      ChunkRef → List Bytes → List (Option Bytes) → List ℕ → Action W (Fault E) (Unit {0})
  place_shards ref to full [] w = (ok tt, w)
  place_shards ref to full (i ∷ missing) w =
      let shard : Bytes = elim (nth none full i) [ none ↦ [] | some s ↦ s ] in
      let (r, w') = store_shard (nth [] to i) ref i shard w in
      let (rest, w'') = place_shards ref to full missing w' in
      (elim r [ ok u ↦ rest | err e ↦ err e ], w'')

  -- restoreShards, but for its waiting
  unfoldable pub restore_shards :
      ChunkRef → List Bytes → List Bytes → List ℕ → Scheme → Action W (Fault E) (Unit {0})
  restore_shards ref from to missing scheme w =
      let (slots, w') =
        gather ref from (shard_size ref.size scheme) 0 (shards scheme) 0
          (replicate (shards scheme) none) w in
      elim (Ec.reconstruct out.codec scheme slots ref.size) [
        | err e ↦ (err ec_failed, w')
        | ok (chunk, full) ↦ place_shards ref to full missing w'
      ]
