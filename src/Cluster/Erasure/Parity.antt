-- ===== src/Cluster/Erasure/Parity.antt =====
-- internal/cluster/erasure.go: which shards decode fetches.
use kavo.Base.{
  ℕ, zero, suc, ◌+◌, ◌≤◌, ◌<◌, ◌≡◌, inl, inr, arith, true, not, ◌||◌, ltb, ◌==◌, Bool-cases, Option,
  none, some, List, [], ◌∷◌, length, replicate, Bytes, if◌then◌else◌, err, Result-cases,
}
use kavo.Base.Actions.{Action}
use kavo.Faults.{Fault, bad_shards}
use kavo.Ec
use kavo.Ec.{Scheme, shards}
use kavo.Object.Manifest.{ChunkRef}
use kavo.Cluster.Nodes.{Config, Membership, Outside}
use kavo.Cluster.Erasure.{shard_size, nth, fetch_shard, gather, any_missing, join_slots, decode}

present-le : (slots : List (Option Bytes)) → Ec.present slots ≤ length slots
unfolding Ec.present
present-le [] = omega arith
present-le (none ∷ slots) = omega (arith, present-le slots)
present-le (some s ∷ slots) = omega (arith, present-le slots)

module _ {W E : Type 0} (out : Outside W E) (c : Config) (live : Membership) where
  -- A gathering that ends before the slots do leaves one of them empty.
  gather-present :
      (ref : ChunkRef) (nodes : List Bytes) (size to i k : ℕ) (w : W)
      → i ≤ to
      → to < i + k
      → Ec.present (gather out c live ref nodes size 0 to i (replicate k none) w).0
        < length (gather out c live ref nodes size 0 to i (replicate k none) w).0
  unfolding gather Ec.present
  gather-present ref nodes size to i zero w h k = absurd (omega arith)
  gather-present ref nodes size to i (suc n) w h k =
      let read = fetch_shard out c live ref i (nth [] nodes i) size w in
      elim (Bool-cases (ltb i 0 || not (ltb i to))) [
        | inl past ↦
            rw (past, gather, Ec.present)
              (omega (
                arith,
                present-le (gather out c live ref nodes size 0 to (suc i) (replicate n none) w).0,
              ))
        | inr within ↦
            let rest =
              gather-present ref nodes size to (suc i) n read.1 (ground arith) (omega arith) in
            elim (Result-cases read.0) [
              | inl (e, failed) ↦ rw (within, failed, gather, Ec.present) (omega (arith, rest))
              | inr (s, done) ↦ rw (within, done, gather, Ec.present) (omega (arith, rest))
            ]
      ]

  -- A decoding that fetches the data shards and then, always, the parity shards
  pub decode_with_parity : ChunkRef → List Bytes → Scheme → Action W (Fault E) Bytes
  decode_with_parity ref nodes scheme w =
      let size = shard_size ref.size scheme in
      let (first, w1) =
        gather out c live ref nodes size 0 scheme.data_shards 0 (replicate (shards scheme) none)
          w in
      let (slots, w2) =
        gather out c live ref nodes size scheme.data_shards (shards scheme) 0 first w1 in
      if not (length nodes == shards scheme) || not (length ref.shard_crcs == shards scheme)
      then (err bad_shards, w)
      else join_slots out c live ref scheme slots w2

  -- With a code that has parity, decode fetches the parity shards in every case, also when all data
  -- shards are there.
  pub decode-decode_with_parity :
      (ref : ChunkRef) (nodes : List Bytes) (scheme : Scheme) (w : W)
      → 0 < scheme.parity
      → decode out c live ref nodes scheme w ≡ decode_with_parity ref nodes scheme w
  unfolding decode decode_with_parity
  decode-decode_with_parity ref nodes scheme w h =
      let first =
        gather out c live ref nodes (shard_size ref.size scheme) 0 scheme.data_shards 0
          (replicate (shards scheme) none) w in
      let short =
        gather-present ref nodes (shard_size ref.size scheme) scheme.data_shards 0 (shards scheme) w
          (omega arith) (omega arith) in
      let missing : any_missing out c live first.0 ≡ true = ground (arith, short) in
      rw (missing, decode_with_parity)
