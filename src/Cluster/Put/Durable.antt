-- ===== src/Cluster/Put/Durable.antt =====
-- internal/cluster/cluster.go and internal/cluster/erasure.go: what the storing of a chunk leaves on
-- the nodes.
use kavo.Base.{
  ℕ, suc, ◌+◌, ◌≤◌, ◌≡◌, refl, sym, inl, inr, arith, not, ◌==◌, Bool-cases, ltb, min, List, [], ◌∷◌,
  map, length, Bytes, same, if◌then◌else◌, Result, ok, err, ok-ne-err, Result-cases,
}
use kavo.Base.Actions.{Action}
use kavo.Faults.{Fault}
use kavo.Ec
use kavo.Ec.{is_zero, shards}
use kavo.Object.Manifest.{ChunkRef, shard_id}
use kavo.Meta.Etcd.{Compare}
use kavo.Cluster.Nodes.{Config, Membership, Outside, addr_of, store_as, store_chunk}
use kavo.Cluster.Replicate.{count_acks, replicate}
use kavo.Cluster.Erasure.{nth, numbered, of_ec, store_shard, encode}

-- Where a copy lies: on the node's own disk, or on that of the node at an address
pub data Place : Type 0 where
  here : Place
  there : Bytes → Place

abbrev pub place : Config → Membership → Bytes → Place
place c live owner = if same owner c.self then here else there (addr_of live.peers owner)

-- At `n` of the items the predicate holds.
pub data Spread {A : Type 0} (P : A → Type 0) : ℕ → List A → Type 0 where
  none_left : Spread P 0 []
  without : {n : ℕ} {x : A} {xs : List A} → Spread P n xs → Spread P n (x ∷ xs)
  with_one : {n : ℕ} {x : A} {xs : List A} → P x → Spread P n xs → Spread P (suc n) (x ∷ xs)

pub Spread-map :
    {A : Type 0} (P Q : A → Type 0) (n : ℕ) (xs : List A)
    → ((x : A) → P x → Q x)
    → Spread P n xs
    → Spread Q n xs
Spread-map P Q n xs f none_left = none_left
Spread-map P Q n xs f (without s) = without (Spread-map P Q _ _ f s)
Spread-map P Q n xs f (with_one h s) = with_one (f _ h) (Spread-map P Q _ _ f s)

-- `Holds w p (id, crc)`: in the world `w`, a chunk of that id lies at `p`, synced, and its bytes have
-- been verified against the checksum `crc`. A write that
-- returns without an error has put it there, and none of these calls takes a chunk away.
pub record Durable {W E : Type 0} (out : Outside W E) (Holds : W → Place → Bytes × ℕ → Type 0)
    : Type 0 where
  pub local_holds :
      (id bytes : Bytes) (crc size : ℕ) (w : W)
      → (out.write_local id bytes crc size w).0 ≡ ok tt
      → Holds (out.write_local id bytes crc size w).1 here (id, crc)
  pub push_holds :
      (addr id bytes : Bytes) (crc size : ℕ) (w : W)
      → (out.push_chunk addr id bytes crc size w).0 ≡ ok tt
      → Holds (out.push_chunk addr id bytes crc size w).1 (there addr) (id, crc)
  pub local_keeps :
      (id bytes : Bytes) (crc size : ℕ) (w : W) (p : Place) (i : Bytes × ℕ)
      → Holds w p i
      → Holds (out.write_local id bytes crc size w).1 p i
  pub push_keeps :
      (addr id bytes : Bytes) (crc size : ℕ) (w : W) (p : Place) (i : Bytes × ℕ)
      → Holds w p i
      → Holds (out.push_chunk addr id bytes crc size w).1 p i
  pub put_keeps :
      (k v : Bytes) (w : W) (p : Place) (i : Bytes × ℕ)
      → Holds w p i
      → Holds (out.meta.etcd.put k v w).1 p i
  pub delete_keeps :
      (k : Bytes) (w : W) (p : Place) (i : Bytes × ℕ)
      → Holds w p i
      → Holds (out.meta.etcd.delete k w).1 p i
  pub txn_keeps :
      (cs : List Compare) (k v : Bytes) (w : W) (p : Place) (i : Bytes × ℕ)
      → Holds w p i
      → Holds (out.meta.etcd.txn cs k v w).1 p i

pub count_acks_keeps :
    {W E X : Type 0} (push : X → Action W (Fault E) (Unit {0})) (Q : W → Type 0)
    → ((y : X) (w : W) → Q w → Q (push y w).1)
    → (xs : List X) (w : W) → Q w
    → Q (count_acks push xs w).1
unfolding count_acks
count_acks_keeps push Q stays [] w h = h
count_acks_keeps push Q stays (y ∷ xs) w h =
    count_acks_keeps push Q stays xs (push y w).1 (stays y w h)

module _ {W E X : Type 0} (push : X → Action W (Fault E) (Unit {0})) (P : X → W → Type 0)
    (holds : (x : X) (w : W) → (push x w).0 ≡ ok tt → P x (push x w).1)
    (stays : (x y : X) (w : W) → P x w → P x (push y w).1) where
  -- As many calls as are counted have established what a call establishes.
  pub count_acks-Spread :
      (xs : List X) (w : W) → Spread (λ x. P x (count_acks push xs w).1) (count_acks push xs w).0 xs
  unfolding count_acks
  count_acks-Spread [] w = none_left
  count_acks-Spread (x ∷ xs) w = elim (Result-cases (push x w).0) [
    | inl (e, failed) ↦ rw (failed, count_acks) (without (count_acks-Spread xs (push x w).1))
    | inr (tt, stored) ↦
        rw (stored, count_acks)
          (with_one (count_acks_keeps push (P x) (stays x) xs (push x w).1 (holds x w stored))
            (count_acks-Spread xs (push x w).1))
  ]

module _ {W E : Type 0} (out : Outside W E) (c : Config) (live : Membership)
    (Holds : W → Place → Bytes × ℕ → Type 0) (durable : Durable out Holds) where
  pub store_as-Holds :
      (owner id bytes : Bytes) (crc size : ℕ) (w : W)
      → (store_as out c live owner id bytes crc size w).0 ≡ ok tt
      → Holds (store_as out c live owner id bytes crc size w).1 (place c live owner) (id, crc)
  unfolding store_as
  store_as-Holds owner id bytes crc size w h = elim (Bool-cases (same owner c.self)) [
    | inl mine ↦
        rw (mine, store_as) (durable.local_holds id bytes crc size w (rw (mine, store_as) at h))
    | inr other ↦
        rw (other, store_as)
          (durable.push_holds (addr_of live.peers owner) id bytes crc size w
            (rw (other, store_as) at h))
  ]

  pub store_as_keeps :
      (owner id bytes : Bytes) (crc size : ℕ) (w : W) (p : Place) (i : Bytes × ℕ)
      → Holds w p i
      → Holds (store_as out c live owner id bytes crc size w).1 p i
  unfolding store_as
  store_as_keeps owner id bytes crc size w p i h = elim (Bool-cases (same owner c.self)) [
    | inl mine ↦ rw (mine, store_as) (durable.local_keeps id bytes crc size w p i h)
    | inr other ↦
        rw (other, store_as)
          (durable.push_keeps (addr_of live.peers owner) id bytes crc size w p i h)
  ]

  -- What has been stored of a chunk: a copy on at least the quorum of the owners or, with a code, the
  -- shards at as many positions as the code has data shards and one more, or at all of them; each
  -- under the checksum that the reference records for it.
  abbrev pub Stored : List Bytes → ChunkRef → W → Type 0
  Stored owners ref w =
      if is_zero c.scheme
      then ((n : ℕ) × (c.quorum ≤ n)
          × Spread (λ owner. Holds w (place c live owner) (ref.id, ref.crc)) n owners)
      else (n : ℕ) × (slots : List Bytes) × (ref.shard_crcs ≡ map out.crc32c slots)
        × (min (c.scheme.data_shards + 1) (shards c.scheme) ≤ n)
        × Spread
            (λ (x : ℕ × Bytes).
              Holds w (place c live (nth [] owners x.0))
                (shard_id ref x.0, nth 0 ref.shard_crcs x.0))
            n (numbered 0 slots)

  pub replicate-Spread :
      (ref : ChunkRef) (bytes : Bytes) (owners : List Bytes) (w : W)
      → (replicate out c live ref bytes owners w).0 ≡ ok tt
      → (n : ℕ) × (c.quorum ≤ n)
        × Spread
            (λ owner.
              Holds
                (replicate out c live ref bytes owners w).1
                (place c live owner)
                (ref.id, ref.crc))
            n
            owners
  unfolding replicate store_chunk
  replicate-Spread ref bytes owners w h =
      let pushed = count_acks (λ owner. store_chunk out c live owner ref bytes) owners w in
      elim (Bool-cases (ltb pushed.0 c.quorum)) [
        | inl few ↦ absurd (ok-ne-err (sym (rw (few, replicate) at h)))
        | inr enough ↦ (
          pushed.0,
          ground arith,
          rw (enough, replicate)
              (count_acks-Spread (λ owner. store_chunk out c live owner ref bytes)
                (λ owner w. Holds w (place c live owner) (ref.id, ref.crc))
                (λ owner w. store_as-Holds owner ref.id bytes ref.crc ref.size w)
                (λ x owner w.
                  store_as_keeps owner ref.id bytes ref.crc ref.size w (place c live x)
                    (ref.id, ref.crc))
                owners w),
        )
      ]

  -- What encode leaves when it succeeds
  abbrev pub Encoded : List Bytes → Result (Fault E) ChunkRef × W → Type 0
  Encoded owners (err e, w) = Unit
  Encoded owners (ok ref', w) =
      (n : ℕ) × (slots : List Bytes) × (ref'.shard_crcs ≡ map out.crc32c slots)
      × (min (c.scheme.data_shards + 1) (shards c.scheme) ≤ n)
      × Spread
          (λ (x : ℕ × Bytes).
            Holds w (place c live (nth [] owners x.0))
              (shard_id ref' x.0, nth 0 ref'.shard_crcs x.0))
          n (numbered 0 slots)

  pub encode-Encoded :
      (ref : ChunkRef) (bytes : Bytes) (owners : List Bytes) (w : W)
      → Encoded owners (encode out c live ref bytes owners w)
  unfolding encode store_shard
  encode-Encoded ref bytes owners w = elim (Bool-cases (not (length owners == shards c.scheme))) [
    | inl few ↦ rw (few, encode) tt
    | inr fit ↦ elim (Result-cases (of_ec {E = E} (Ec.encode out.codec c.scheme bytes))) [
      | inl (e, failed) ↦ rw (fit, failed, encode) tt
      | inr (slots, done) ↦
          let ref' : ChunkRef = record ref { shard_crcs = map out.crc32c slots } in
          let pushed =
            count_acks (λ (x : ℕ × Bytes). store_shard out c live (nth [] owners x.0) ref' x.0 x.1)
              (numbered 0 slots) w in
          elim (Bool-cases (ltb pushed.0 (min (c.scheme.data_shards + 1) (shards c.scheme)))) [
            | inl short ↦ rw (fit, done, short, encode) tt
            | inr enough ↦
                rw (fit, done, enough, encode)
                  (
                    pushed.0,
                    slots,
                    refl,
                    ground arith,
                    count_acks-Spread
                        (λ (x : ℕ × Bytes). store_shard out c live (nth [] owners x.0) ref' x.0 x.1)
                        (λ x w.
                          Holds w (place c live (nth [] owners x.0))
                            (shard_id ref' x.0, nth 0 ref'.shard_crcs x.0))
                        (λ x w.
                          store_as-Holds (nth [] owners x.0) (shard_id ref' x.0) x.1
                            (nth 0 ref'.shard_crcs x.0) (length x.1) w)
                        (λ x y w.
                          store_as_keeps (nth [] owners y.0) (shard_id ref' y.0) y.1
                            (nth 0 ref'.shard_crcs y.0) (length y.1) w
                            (place c live (nth [] owners x.0))
                            (shard_id ref' x.0, nth 0 ref'.shard_crcs x.0))
                        (numbered 0 slots) w,
                  )
          ]
    ]
  ]
