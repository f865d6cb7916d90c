-- ===== src/Cluster/Put/Acknowledged.antt =====
-- internal/cluster/cluster.go: what an acknowledged Put has stored.
use kavo.Base.{
  ℕ, ◌≡◌, refl, inl, inr, Bool-cases, Option, none, some, Option-cases, List, [], ◌&&◌, ◌==◌,
  length, All, All-map, Bytes, if◌then◌else◌, Result, ok, err, Result-cases,
}
use kavo.Base.Actions.{Action, pure, given, ◌>>◌, >>=-elim, if_keeps}
use kavo.Faults.{Fault}
use kavo.Ec.{is_zero}
use kavo.Ring.{owners, partition_for}
use kavo.Object.Manifest.{ChunkRef, Manifest, write_id}
use kavo.Object.Write
use kavo.Object.Write.{Source, WriteError, refused}
use kavo.Object.Write.Keeps.{write-Holding}
use kavo.Meta.Manifests.{commit}
use kavo.Meta.Writing.{mark_writing, commit_while_writing}
use kavo.Cluster.Nodes.{Config, Membership, Outside, width}
use kavo.Cluster.Replicate.{replicate}
use kavo.Cluster.Erasure.{encode}
use kavo.Cluster.Put.{
  PutOptions, Progress, of_write, store_either, store_marked, store_one, stop_writing, finish_write,
  settle, placeable, finish_manifest, write, commit_written, described, put,
}
use kavo.Cluster.Put.Durable.{
  Place, Durable, Spread-map, Stored, Encoded, replicate-Spread, encode-Encoded,
}
use kavo.Cluster.Put.Grows.{Grows, store_either-Grows, mark_writing-Grows, commit_written-Grows}

module _ {W E : Type 0} (out : Outside W E) (c : Config) where
  -- If the commit succeeds, it gives back the manifest.
  abbrev pub Gives : Manifest → Result (Fault E) Manifest × W → Type 0
  Gives m (err e, w) = Unit
  Gives m (ok m', w) = m' ≡ m

  pub commit_written-Gives :
      (key : Bytes) (m : Manifest) (writing : Bytes) (w : W)
      → Gives m (commit_written out c key m writing w)
  unfolding commit_written
  commit_written-Gives key m writing w =
      let act : Action W (Fault E) (Unit {0}) =
        if length writing == 0
        then commit out.meta key m
        else commit_while_writing out.meta key m writing in
      let last : Unit {0} → Action W (Fault E) Manifest = λ u. given (act w).0 >> pure m in
      >>=-elim (Gives m) (stop_writing out c writing) last (act w).1 (λ e failed. tt)
        (λ u done.
          >>=-elim (Gives m) (given (act w).0) (λ u. pure m) _ (λ e failed. tt) (λ u done. refl))

module _ {W E : Type 0} (out : Outside W E) (c : Config) (Holds : W → Place → Bytes × ℕ → Type 0)
    (durable : Durable out Holds) (live : Membership) where
  -- What is stored stays stored.
  Stored-Grows :
      (nodes : List Bytes) (ref : ChunkRef) (w w' : W)
      → Grows out c Holds durable w w'
      → Stored out c live Holds durable nodes ref w
      → Stored out c live Holds durable nodes ref w'
  Stored-Grows nodes ref w w' g h = elim (Bool-cases (is_zero c.scheme)) [
    | inl copies ↦
        let (n, enough, s) = rw copies at h in
        rw copies (n, enough, Spread-map _ _ n nodes (λ x k. g _ _ k) s)
    | inr coded ↦
        let (n, slots, sums, enough, s) = rw coded at h in
        rw coded (n, slots, sums, enough, Spread-map _ _ n _ (λ x k. g _ _ k) s)
  ]

  -- What the storing of a chunk leaves when it succeeds
  abbrev AsStored : List Bytes → Result (Fault E) ChunkRef × W → Type 0
  AsStored nodes (err e, w) = Unit
  AsStored nodes (ok ref, w) = Stored out c live Holds durable nodes ref w

  store_either-AsStored :
      (nodes : List Bytes) (ref : ChunkRef) (bytes : Bytes) (w : W)
      → AsStored nodes (store_either out c live nodes ref bytes w)
  unfolding store_either
  store_either-AsStored nodes ref bytes w = elim (Bool-cases (is_zero c.scheme)) [
    | inl copies ↦
        rw (copies, store_either)
          (>>=-elim (AsStored nodes) (replicate out c live ref bytes nodes) (λ u. pure ref) w
            (λ e failed. tt)
            (λ u done.
              rw copies (replicate-Spread out c live Holds durable ref bytes nodes w done)))
    | inr coded ↦ elim (Result-cases (encode out c live ref bytes nodes w).0) [
      | inl (e, failed) ↦ rw (coded, store_either, failed) tt
      | inr (ref', done) ↦
          let encoded : Encoded out c live Holds durable nodes
              (ok ref', (encode out c live ref bytes nodes w).1) =
            rw done at (encode-Encoded out c live Holds durable ref bytes nodes w) in
          rw (coded, store_either, done) (rw coded encoded)
    ]
  ]

  -- What the callback leaves when it succeeds
  abbrev OneStored : List Bytes → Result (Fault E) ChunkRef × Progress W → Type 0
  OneStored nodes (err e, p) = Unit
  OneStored nodes (ok ref, p) = Stored out c live Holds durable nodes ref p.world

  store_marked-OneStored :
      (nodes : List Bytes) (ref : ChunkRef) (bytes writing hashed : Bytes)
      (marked : Result (Fault E) (Unit {0}) × W)
      → OneStored nodes (store_marked out c live nodes ref bytes writing hashed marked)
  store_marked-OneStored nodes ref bytes writing hashed (err e, w) = tt
  store_marked-OneStored nodes ref bytes writing hashed (ok u, w) =
      elim (Result-cases (store_either out c live nodes ref bytes w).0) [
        | inl (e, failed) ↦ rw failed tt
        | inr (ref', done) ↦
            let stored : AsStored nodes (ok ref', (store_either out c live nodes ref bytes w).1) =
              rw done at (store_either-AsStored nodes ref bytes w) in
            rw done stored
      ]

  store_one-OneStored :
      (nodes : List Bytes) (ref : ChunkRef) (bytes : Bytes) (p : Progress W)
      → OneStored nodes (store_one out c live nodes ref bytes p)
  unfolding store_one
  store_one-OneStored nodes ref bytes p = store_marked-OneStored nodes ref bytes _ _ _

  store_marked-Grows :
      (nodes : List Bytes) (ref : ChunkRef) (bytes writing hashed : Bytes) (w : W)
      (marked : Result (Fault E) (Unit {0}) × W)
      → Grows out c Holds durable w marked.1
      → Grows out c Holds durable w
          (store_marked out c live nodes ref bytes writing hashed marked).1.world
  store_marked-Grows nodes ref bytes writing hashed w (err e, w') g p i h = g p i h
  store_marked-Grows nodes ref bytes writing hashed w (ok u, w') g p i h =
      store_either-Grows out c Holds durable live nodes ref bytes w' p i (g p i h)

  store_one-Grows :
      (nodes : List Bytes) (ref : ChunkRef) (bytes : Bytes) (p : Progress W)
      → Grows out c Holds durable p.world (store_one out c live nodes ref bytes p).1.world
  unfolding store_one
  store_one-Grows nodes ref bytes p =
      let announces = (length p.writing == 0) && (length bytes == c.chunk_size) in
      let writing = if announces then write_id ref.id else p.writing in
      store_marked-Grows nodes ref bytes writing p.hashed p.world
        ((if announces then mark_writing out.meta writing c.self else pure tt) p.world)
        (λ place i h.
          if_keeps (λ w. Holds w place i) announces (mark_writing out.meta writing c.self) (pure tt)
            p.world (λ yes. mark_writing-Grows out c Holds durable writing c.self p.world place i h)
            (λ no. h))

  -- What a write leaves when it succeeds
  abbrev Written : List Bytes → Option (Result (Fault E) (Manifest × Bytes) × W) → Type 0
  Written nodes none = Unit
  Written nodes (some (err e, w)) = Unit
  Written nodes (some (ok (m, writing), w)) =
      (m.nodes ≡ nodes) × All (λ ref. Stored out c live Holds durable nodes ref w) m.chunks

  -- The loop of a write, over the placement
  abbrev loop :
      ℕ
      → Bytes
      → List Bytes
      → Source
      → ℕ
      → W
      → Option (Result (WriteError (Fault E)) Manifest × Progress W)
  loop fuel prefix nodes body expect w =
      Write.write out.crc32c (store_one out c live nodes) prefix fuel body c.chunk_size expect
        (record { world = w; writing = []; hashed = [] })

  abbrev Looped : List Bytes → Option (Result (WriteError (Fault E)) Manifest × Progress W) → Type 0
  Looped nodes none = Unit
  Looped nodes (some (err e, p)) = Unit
  Looped nodes (some (ok m, p)) =
      All (λ ref. Stored out c live Holds durable nodes ref p.world) m.chunks

  store_one-Stored :
      (nodes : List Bytes) (given : ChunkRef) (bytes : Bytes) (ref : ChunkRef) (p : Progress W)
      → (store_one out c live nodes given bytes p).0 ≡ ok ref
      → Stored out c live Holds durable nodes ref (store_one out c live nodes given bytes p).1.world
  store_one-Stored nodes given bytes ref p done =
      let stored : OneStored nodes (ok ref, (store_one out c live nodes given bytes p).1) =
        rw done at (store_one-OneStored nodes given bytes p) in
      stored

  loop-Looped :
      (fuel : ℕ) (prefix : Bytes) (nodes : List Bytes) (body : Source) (expect : ℕ) (w : W)
      → Looped nodes (loop fuel prefix nodes body expect w)
  loop-Looped fuel prefix nodes body expect w =
      write-Holding out.crc32c (store_one out c live nodes) prefix
        (λ ref p. Stored out c live Holds durable nodes ref p.world)
        (λ i bytes ref p done. store_one-Stored nodes _ bytes ref p done)
        (λ given bytes ref p h.
          Stored-Grows nodes ref p.world _ (store_one-Grows nodes given bytes p) h)
        fuel body c.chunk_size expect _

  finish_write-Written :
      (nodes : List Bytes) (r : Result (WriteError (Fault E)) Manifest) (p : Progress W)
      → Looped nodes (some (r, p))
      → Written nodes (some (finish_write out c nodes (of_write r) p))
  unfolding finish_manifest
  finish_write-Written nodes (ok m) p h = (refl, h)
  finish_write-Written nodes (err (refused e)) p h = tt
  finish_write-Written nodes (err Write.bad_chunk_size) p h = tt
  finish_write-Written nodes (err Write.read_failed) p h = tt

  abbrev nodes_for : Bytes → List Bytes
  nodes_for key = owners live.ring (partition_for out.sha256 key) (width c)

  write-Written :
      (fuel : ℕ) (prefix key : Bytes) (body : Source) (expect : ℕ) (w : W)
      → Written (nodes_for key) (write out c fuel prefix live key body expect w)
  unfolding write
  write-Written fuel prefix key body expect w =
      elim (Result-cases (placeable out c (nodes_for key))) [
        | inl (e, unfit) ↦ rw (unfit, write) tt
        | inr (u, fit) ↦ elim (Option-cases (loop fuel prefix (nodes_for key) body expect w)) [
          | inl starved ↦ rw (fit, starved, write) tt
          | inr ((r, p), ended) ↦
              let looped : Looped (nodes_for key) (some (r, p)) =
                rw ended at (loop-Looped fuel prefix (nodes_for key) body expect w) in
              rw (fit, ended, write) (finish_write-Written (nodes_for key) r p looped)
        ]
      ]

  -- What a Put leaves when it succeeds
  abbrev Acknowledged : List Bytes → Option (Result (Fault E) Manifest × W) → Type 0
  Acknowledged nodes none = Unit
  Acknowledged nodes (some (err e, w)) = Unit
  Acknowledged nodes (some (ok m, w)) =
      (m.nodes ≡ nodes) × All (λ ref. Stored out c live Holds durable nodes ref w) m.chunks

  commit_written-Acknowledged :
      (nodes : List Bytes) (key : Bytes) (m : Manifest) (writing : Bytes) (w : W)
      → Written nodes (some (ok (m, writing), w))
      → Acknowledged nodes (some (commit_written out c key m writing w))
  commit_written-Acknowledged nodes key m writing w (placed, stored) =
      elim (Result-cases (commit_written out c key m writing w).0) [
        | inl (e, failed) ↦ rw failed tt
        | inr (m', done) ↦
            let w' = (commit_written out c key m writing w).1 in
            let same_one : Gives out c m (ok m', w') =
              rw done at (commit_written-Gives out c key m writing w) in
            rw (done, same_one)
              (
                placed,
                All-map _ _ m.chunks
                    (λ ref h.
                      Stored-Grows nodes ref w w'
                        (commit_written-Grows out c Holds durable key m writing w) h)
                    stored,
              )
      ]

  settle-Acknowledged :
      (nodes : List Bytes) (key : Bytes) (opts : PutOptions E) (m : Manifest) (writing : Bytes)
      (checked : Result (Fault E) (Unit {0})) (w : W)
      → Written nodes (some (ok (m, writing), w))
      → Acknowledged nodes (some (settle out c key opts m writing checked w))
  settle-Acknowledged nodes key opts m writing (err e) w h = tt
  settle-Acknowledged nodes key opts m writing (ok u) w h =
      commit_written-Acknowledged nodes key (described out c opts m) writing w h

  put-Acknowledged :
      (fuel : ℕ) (prefix key : Bytes) (body : Source) (opts : PutOptions E) (w : W)
      → Acknowledged (nodes_for key) (put out c fuel prefix live key body opts w)
  unfolding put
  put-Acknowledged fuel prefix key body opts w =
      elim (Option-cases (write out c fuel prefix live key body opts.size w)) [
        | inl starved ↦ rw (starved, put) tt
        | inr ((err e, w1), ended) ↦ rw (ended, put) tt
        | inr ((ok (m, writing), w1), ended) ↦
            let written : Written (nodes_for key) (some (ok (m, writing), w1)) =
              rw ended at (write-Written fuel prefix key body opts.size w) in
            rw (ended, put) (settle-Acknowledged (nodes_for key) key opts m writing _ w1 written)
      ]

  -- A Put that succeeds returns a manifest that names the placement of its key, and every chunk of
  -- that manifest is stored when it returns: with copies, on at least the quorum of those nodes,
  -- under the checksum of the chunk; with a code, the shards at one position more than the code has data shards, or at all
  -- its positions, each under the checksum that the manifest records for it.
  pub put_acknowledged :
      (fuel : ℕ) (prefix key : Bytes) (body : Source) (opts : PutOptions E) (w w' : W)
      (m : Manifest)
      → put out c fuel prefix live key body opts w ≡ some (ok m, w')
      → (m.nodes ≡ owners live.ring (partition_for out.sha256 key) (width c))
        × All (λ ref. Stored out c live Holds durable m.nodes ref w') m.chunks
  put_acknowledged fuel prefix key body opts w w' m done =
      let (placed, stored) : Acknowledged (nodes_for key) (some (ok m, w')) =
        rw done at (put-Acknowledged fuel prefix key body opts w) in
      (placed, rw placed stored)
