-- ===== src/Cluster/Objects.antt =====
-- internal/cluster/cluster.go: Delete, Copy, Resolve, Stream and StreamRange.
use kavo.Base.{ℕ, ◌*◌, ◌/◌, Bool, true, List, [], ◌∷◌, Bytes, if◌then◌else◌, ok}
use kavo.Base.Actions.{Action, pure, ◌>>=◌, ◌>>◌}
use kavo.Faults.{Fault}
use kavo.Ec.{is_zero}
use kavo.Object.Manifest.{ChunkRef, Manifest}
use kavo.Object.Read.{Reader, Writer, read_range}
use kavo.Meta.Manifests
use kavo.Meta.Manifests.{commit, get}
use kavo.Cluster.Nodes.{Config, Membership, Outside}
use kavo.Cluster.Replicate.{fetch}
use kavo.Cluster.Erasure.{decode}

pub record CopyOptions : Type 0 where
  pub replace : Bool
  pub content_type : Bytes
  pub meta : List (Bytes × Bytes)

module _ {W E : Type 0} (out : Outside W E) (c : Config) where
  unfoldable pub delete : Bytes → Action W (Fault E) (Unit {0})
  delete key = Manifests.delete out.meta key

  -- The manifest that Copy commits
  abbrev pub copied : CopyOptions → ℕ → Manifest → Manifest
  copied opts now m =
      let dated = record m { modified = now / 1000000000 * 1000000000 } in
      if opts.replace
      then record dated { content_type = opts.content_type; meta = opts.meta }
      else dated

  unfoldable pub copy : Bytes → Bytes → CopyOptions → Action W (Fault E) Manifest
  copy from to opts = do
    m ← get out.meta from
    now ← (λ w. (ok (out.now w), w))
    commit out.meta to (copied opts now m)
    pure (copied opts now m)

  unfoldable pub resolve : Bytes → Action W (Fault E) Manifest
  resolve key = get out.meta key

  -- chunk. An erasure-coded chunk is decoded whole, and its reader has nothing left to verify.
  unfoldable pub chunk : Membership → Manifest → ChunkRef → Action W (Fault E) Reader
  chunk live m ref = if is_zero m.coding then fetch out c live ref m.nodes else (do
    bytes ← decode out c live ref m.nodes m.coding
    pure (record { pieces = bytes ∷ []; verified = true }))

  -- StreamRange, whose reads see the world as it is when the stream begins, and Stream
  unfoldable pub stream_range : Writer → Membership → Manifest → ℕ → ℕ → W → Bytes × Bool
  stream_range takes live m off length w =
      read_range takes (λ ref. (chunk live m ref w).0) m off length []

  unfoldable pub stream : Writer → Membership → Manifest → W → Bytes × Bool
  stream takes live m w = stream_range takes live m 0 m.size w
