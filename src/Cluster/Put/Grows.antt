-- ===== src/Cluster/Put/Grows.antt =====
-- internal/cluster/cluster.go: no step of a write takes a stored chunk away.
use kavo.Base.{
  ℕ, ◌+◌, inl, inr, not, ◌==◌, ◌||◌, Bool-cases, ltb, min, List, [], ◌∷◌, map, length, Bytes,
  has_byte, if◌then◌else◌, Result-cases,
}
use kavo.Base.Actions.{Action, pure, given, fail_if, ◌>>◌, >>=-keeps, if_keeps, fail_if-keeps}
use kavo.Faults.{Fault, not_writing}
use kavo.Ec
use kavo.Ec.{is_zero, shards}
use kavo.Object.Manifest.{ChunkRef, Manifest, shard_id}
use kavo.Meta.Etcd.{created}
use kavo.Meta.Store.{writing_key, object_key}
use kavo.Meta.Manifests.{commit}
use kavo.Meta.Writing.{mark_writing, done_writing, commit_while_writing, while_writing}
use kavo.Cluster.Nodes.{Config, Membership, Outside, store_chunk}
use kavo.Cluster.Replicate.{count_acks, replicate}
use kavo.Cluster.Erasure.{nth, numbered, of_ec, store_shard, encode}
use kavo.Cluster.Put.{store_either, stop_writing, commit_written}
use kavo.Cluster.Put.Durable.{Place, Durable, count_acks_keeps, store_as_keeps}

module _ {W E : Type 0} (out : Outside W E) (c : Config) (Holds : W → Place → Bytes × ℕ → Type 0)
    (durable : Durable out Holds) where
  -- What lay somewhere before lies there after.
  abbrev pub Grows : W → W → Type 0
  Grows w w' = (p : Place) (i : Bytes × ℕ) → Holds w p i → Holds w' p i

  Grows-refl : (w : W) → Grows w w
  Grows-refl w p i h = h

  replicate-Grows :
      (live : Membership) (ref : ChunkRef) (bytes : Bytes) (owners : List Bytes) (w : W)
      → Grows w (replicate out c live ref bytes owners w).1
  unfolding replicate store_chunk
  replicate-Grows live ref bytes owners w p i h =
      let push : Bytes → Action W (Fault E) (Unit {0}) =
        λ owner. store_chunk out c live owner ref bytes in
      let kept =
        count_acks_keeps push (λ w. Holds w p i)
          (λ owner w.
            store_as_keeps out c live Holds durable owner ref.id bytes ref.crc ref.size w p i)
          owners w h in
      elim (Bool-cases (ltb (count_acks push owners w).0 c.quorum)) [
        | inl few ↦ rw (few, replicate) kept
        | inr enough ↦ rw (enough, replicate) kept
      ]

  encode-Grows :
      (live : Membership) (ref : ChunkRef) (bytes : Bytes) (owners : List Bytes) (w : W)
      → Grows w (encode out c live ref bytes owners w).1
  unfolding encode store_shard
  encode-Grows live ref bytes owners w p i h =
      elim (Bool-cases (not (length owners == shards c.scheme))) [
        | inl few ↦ rw (few, encode) h
        | inr fit ↦ elim (Result-cases (of_ec {E = E} (Ec.encode out.codec c.scheme bytes))) [
          | inl (e, failed) ↦ rw (fit, failed, encode) h
          | inr (slots, done) ↦
              let ref' : ChunkRef = record ref { shard_crcs = map out.crc32c slots } in
              let push : ℕ × Bytes → Action W (Fault E) (Unit {0}) =
                λ x. store_shard out c live (nth [] owners x.0) ref' x.0 x.1 in
              let kept =
                count_acks_keeps push (λ w. Holds w p i)
                  (λ x w.
                    store_as_keeps out c live Holds durable (nth [] owners x.0) (shard_id ref' x.0)
                      x.1 (nth 0 ref'.shard_crcs x.0) (length x.1) w p i)
                  (numbered 0 slots) w h in
              elim (Bool-cases (
                ltb (count_acks push (numbered 0 slots) w).0
                  (min (c.scheme.data_shards + 1) (shards c.scheme)))) [
                    | inl short ↦ rw (fit, done, short, encode) kept
                    | inr enough ↦ rw (fit, done, enough, encode) kept
                  ]
        ]
      ]

  pub store_either-Grows :
      (live : Membership) (owners : List Bytes) (ref : ChunkRef) (bytes : Bytes) (w : W)
      → Grows w (store_either out c live owners ref bytes w).1
  unfolding store_either
  store_either-Grows live owners ref bytes w p i h = elim (Bool-cases (is_zero c.scheme)) [
    | inl copies ↦
        rw (copies, store_either)
          (>>=-keeps (λ w. Holds w p i) (replicate out c live ref bytes owners) (λ u. pure ref) w
            (replicate-Grows live ref bytes owners w p i h) (λ u k. k))
    | inr coded ↦ rw (coded, store_either) (encode-Grows live ref bytes owners w p i h)
  ]

  pub mark_writing-Grows : (id node : Bytes) (w : W) → Grows w (mark_writing out.meta id node w).1
  unfolding mark_writing
  mark_writing-Grows id node w p i h = elim (Bool-cases (length id == 0 || has_byte b'/' id)) [
    | inl bad ↦ rw (bad, mark_writing) h
    | inr good ↦ rw (good, mark_writing) (durable.put_keeps _ node w p i h)
  ]

  pub stop_writing-Grows : (writing : Bytes) (w : W) → Grows w (stop_writing out c writing w).1
  unfolding stop_writing done_writing
  stop_writing-Grows writing w p i h = elim (Bool-cases (length writing == 0)) [
    | inl none_left ↦ rw (none_left, stop_writing) h
    | inr some_left ↦ rw (some_left, stop_writing) (durable.delete_keeps _ w p i h)
  ]

  commit-Grows : (key : Bytes) (m : Manifest) (w : W) → Grows w (commit out.meta key m w).1
  unfolding commit
  commit-Grows key m w p i h =
      >>=-keeps (λ w. Holds w p i) (given (out.meta.manifests.marshal m))
        (λ bytes. out.meta.etcd.put (object_key out.meta key) bytes) w h
        (λ bytes k. durable.put_keeps (object_key out.meta key) bytes w p i k)

  commit_while_writing-Grows :
      (key : Bytes) (m : Manifest) (id : Bytes) (w : W)
      → Grows w (commit_while_writing out.meta key m id w).1
  unfolding commit_while_writing while_writing
  commit_while_writing-Grows key m id w p i h =
      >>=-keeps (λ w. Holds w p i) (given (out.meta.manifests.marshal m))
        (λ bytes. while_writing out.meta id (object_key out.meta key) bytes) w h
        (λ bytes k.
          >>=-keeps (λ w. Holds w p i)
            (out.meta.etcd.txn (created (writing_key out.meta id) ∷ []) (object_key out.meta key)
              bytes)
            (λ succeeded. fail_if (not succeeded) not_writing) w
            (durable.txn_keeps _ _ bytes w p i k)
            (λ succeeded k'. fail_if-keeps (λ w. Holds w p i) (not succeeded) not_writing _ k'))

  pub commit_written-Grows :
      (key : Bytes) (m : Manifest) (writing : Bytes) (w : W)
      → Grows w (commit_written out c key m writing w).1
  unfolding commit_written
  commit_written-Grows key m writing w p i h =
      let act : Action W (Fault E) (Unit {0}) =
        if length writing == 0
        then commit out.meta key m
        else commit_while_writing out.meta key m writing in
      let committed =
        if_keeps (λ w. Holds w p i) (length writing == 0) (commit out.meta key m)
          (commit_while_writing out.meta key m writing) w (λ plain. commit-Grows key m w p i h)
          (λ recorded. commit_while_writing-Grows key m writing w p i h) in
      let last : Unit {0} → Action W (Fault E) Manifest = λ u. given (act w).0 >> pure m in
      >>=-keeps (λ w. Holds w p i) (stop_writing out c writing) last (act w).1
        (stop_writing-Grows writing (act w).1 p i committed)
        (λ u k. >>=-keeps (λ w. Holds w p i) (given (act w).0) (λ u. pure m) _ k (λ u k'. k'))
