-- ===== src/Cluster/Replicate.antt =====
-- internal/cluster/cluster.go: replicate and fetch. The pushes of a chunk to its owners, which run side
-- by side, are made one after the other: each acts on its own owner.
pub mod Serves
use kavo.Base.{
  ℕ, zero, suc, ◌+◌, Bool, true, false, ltb, List, [], ◌∷◌, Bytes, if◌then◌else◌, Result, ok, err,
}
use kavo.Base.Actions.{Action, pure, fail, fail_if, ◌>>=◌, ◌>>◌}
use kavo.Faults.{Fault, quorum, no_owner}
use kavo.Object.Manifest.{ChunkRef}
use kavo.Object.Read.{Reader}
use kavo.Cluster.Nodes.{Config, Membership, Outside, store_chunk, fetch_from, local_first}

-- The calls of a group of goroutines and the errors that they leave: how many succeeded
unfoldable pub count_acks : {W E X : Type 0} → (X → Action W E (Unit {0})) → List X → W → ℕ × W
count_acks push [] w = (0, w)
count_acks push (x ∷ xs) w =
    let (r, w') = push x w in
    let (n, w'') = count_acks push xs w' in (elim r [ ok u ↦ suc n | err e ↦ n ], w'')

module _ {W E : Type 0} (out : Outside W E) (c : Config) (live : Membership) where
  unfoldable pub replicate : ChunkRef → Bytes → List Bytes → Action W (Fault E) (Unit {0})
  replicate ref bytes owners w =
      let (acks, w') = count_acks (λ owner. store_chunk out c live owner ref bytes) owners w in
      fail_if (ltb acks c.quorum) quorum w'

  -- The loop of fetch
  unfoldable pub fetch_any : ChunkRef → List Bytes → Action W (Fault E) Reader
  fetch_any ref [] w = (err no_owner, w)
  fetch_any ref (node ∷ nodes) w =
      let (r, w') = fetch_from out c live node ref.id ref.crc w in
      let rest = fetch_any ref nodes w' in elim r [ ok rc ↦ (ok rc, w') | err e ↦ rest ]

  unfoldable pub fetch : ChunkRef → List Bytes → Action W (Fault E) Reader
  fetch ref nodes = fetch_any ref (local_first c.self nodes)
