-- ===== src/Cluster/Rebalance/Moves.antt =====
-- internal/cluster/rebalance.go: what lies on the owners that a moved object names.
use kavo.Base.{
  ℕ, suc, ◌≡◌, refl, sym, ap, ◌∙◌, inl, inr, true, false, ◌||◌, ltb, Bool-cases, arith, List,
  length, All, All-map, Bytes, has, ok, ok-ne-err, Result-cases,
}
use kavo.Base.Actions.{Action, ◌>>=◌, ◌>>◌}
use kavo.Faults.{Fault}
use kavo.Ec.{is_zero}
use kavo.Object.Manifest.{ChunkRef, Manifest}
use kavo.Meta.Entries.{Object}
use kavo.Meta.Manifests.{commit_if_unchanged}
use kavo.Cluster.Nodes.{Config, Membership, Outside}
use kavo.Cluster.Put.Durable.{Place, place, Durable}
use kavo.Cluster.Uploads.{same_nodes}
use kavo.Cluster.Walk.{each, counted, tally}
use kavo.Cluster.Walk.Each.{each_keeps, each-All}
use kavo.Cluster.Repair.{is_first, restore}
use kavo.Cluster.Repair.Restores.{Surveyed, restore_keeps, restore-Holds}
use kavo.Cluster.Rebalance.{
  RebalanceStats, one_visited, one_misplaced, is_changed, copy_chunk, copy_to_owner,
  copy_to_new_owners, owners_now, commit_move, rebalance_object,
}

module _ {W E : Type 0} (out : Outside W E) (c : Config) (live : Membership)
    (Holds : W → Place → Bytes → Type 0) (durable : Durable out (λ w p k. Holds w p k.0))
    (surveyed : Surveyed out Holds) where
  module _ (m : Manifest) (want : List Bytes) where
    copy_to_owner_keeps :
        (ref : ChunkRef) (node : Bytes) (v : RebalanceStats × W) (p : Place) (i : Bytes)
        → Holds v.1 p i
        → Holds (copy_to_owner out c live m ref node v).1.1 p i
    unfolding copy_to_owner copy_chunk
    copy_to_owner_keeps ref node v p i h = elim (Bool-cases (has m.nodes node)) [
      | inl had ↦ rw (had, copy_to_owner) h
      | inr new ↦
          let kept = restore_keeps out c live Holds durable surveyed node ref m.nodes v.1 p i h in
          elim (Result-cases (restore out c live node ref m.nodes v.1).0) [
            | inl (e, failed) ↦ rw (new, copy_to_owner, counted, failed) kept
            | inr (u, done) ↦ rw (new, copy_to_owner, counted, done) kept
          ]
    ]

    -- The chunk was written to the owner, if the manifest did not name it before.
    abbrev pub Copied : ChunkRef → Bytes → RebalanceStats × W → Type 0
    Copied ref node v = has m.nodes node ≡ false → Holds v.1 (place c live node) ref.id

    copy_to_owner-Copied :
        (ref : ChunkRef) (node : Bytes) (v : RebalanceStats × W)
        → (copy_to_owner out c live m ref node v).0 ≡ ok tt
        → Copied ref node (copy_to_owner out c live m ref node v).1
    unfolding copy_to_owner copy_chunk
    copy_to_owner-Copied ref node v h new =
        elim (Result-cases (restore out c live node ref m.nodes v.1).0) [
          | inl (e, failed) ↦
              absurd (ok-ne-err (sym (rw (new, copy_to_owner, counted, failed) at h)))
          | inr (u, done) ↦
              rw (new, copy_to_owner, counted, done)
                (restore-Holds out c live Holds durable surveyed node ref m.nodes v.1 done)
        ]

    copy_ref_keeps :
        (ref : ChunkRef) (v : RebalanceStats × W) (p : Place) (i : Bytes)
        → Holds v.1 p i
        → Holds (each (copy_to_owner out c live m ref) want v).1.1 p i
    copy_ref_keeps ref v p i =
        each_keeps (copy_to_owner out c live m ref) (λ v. Holds v.1 p i)
          (λ node v h. copy_to_owner_keeps ref node v p i h) want v

    copy_ref-Copied :
        (ref : ChunkRef) (v : RebalanceStats × W)
        → (each (copy_to_owner out c live m ref) want v).0 ≡ ok tt
        → All (λ node. Copied ref node (each (copy_to_owner out c live m ref) want v).1) want
    copy_ref-Copied ref v =
        each-All (copy_to_owner out c live m ref) (λ v. Unit {0}) (Copied ref) (λ node v u. tt)
          (λ node v u. copy_to_owner-Copied ref node v)
          (λ node other v h new. copy_to_owner_keeps ref other v (place c live node) ref.id (h new))
          want v tt

    copy_refs-Copied :
        (refs : List ChunkRef) (v : RebalanceStats × W)
        → (each (λ ref. each (copy_to_owner out c live m ref) want) refs v).0 ≡ ok tt
        → All
            (λ ref.
              All
                (λ node.
                  Copied ref node
                    (each (λ ref. each (copy_to_owner out c live m ref) want) refs v).1)
                want)
            refs
    copy_refs-Copied refs v =
        each-All (λ ref. each (copy_to_owner out c live m ref) want) (λ v. Unit {0})
          (λ ref v. All (λ node. Copied ref node v) want) (λ ref v u. tt)
          (λ ref v u. copy_ref-Copied ref v)
          (λ ref other v h.
            All-map (λ node. Copied ref node v) _ want
              (λ node k new. copy_ref_keeps other v (place c live node) ref.id (k new)) h)
          refs v tt

  -- Every chunk of the object lies on every owner that its manifest did not name.
  abbrev pub Arrived : Object → List Bytes → RebalanceStats × W → Type 0
  Arrived o want v =
      All (λ ref. All (λ node. Copied o.manifest want ref node v) want) o.manifest.chunks

  counts_moved :
      (m : Manifest) (want : List Bytes) (n : ℕ) (ref : ChunkRef) (node : Bytes)
      (v : RebalanceStats × W)
      → v.0.moved ≡ n
      → (copy_to_owner out c live m ref node v).1.0.moved ≡ n
  unfolding copy_to_owner
  counts_moved m want n ref node v h = elim (Bool-cases (has m.nodes node)) [
    | inl had ↦ rw (had, copy_to_owner) h
    | inr new ↦ elim (Result-cases (copy_chunk out c live m ref node v.1).0) [
      | inl (e, failed) ↦ rw (new, copy_to_owner, counted, failed) h
      | inr (u, done) ↦ rw (new, copy_to_owner, counted, done) h
    ]
  ]

  copy_to_new_owners-moved :
      (o : Object) (want : List Bytes) (v : RebalanceStats × W)
      → is_zero o.manifest.coding ≡ true
      → (copy_to_new_owners out c live o want v).1.0.moved ≡ v.0.moved
  unfolding copy_to_new_owners
  copy_to_new_owners-moved o want v plain =
      rw (plain, copy_to_new_owners)
        (each_keeps (λ ref. each (copy_to_owner out c live o.manifest ref) want)
          (λ x. x.0.moved ≡ v.0.moved)
          (λ ref x k.
            each_keeps (copy_to_owner out c live o.manifest ref) (λ y. y.0.moved ≡ v.0.moved)
              (λ node y. counts_moved o.manifest want v.0.moved ref node y) want x k)
          o.manifest.chunks v refl)

  copy_to_new_owners-Arrived :
      (o : Object) (want : List Bytes) (v : RebalanceStats × W)
      → is_zero o.manifest.coding ≡ true
      → (copy_to_new_owners out c live o want v).0 ≡ ok tt
      → Arrived o want (copy_to_new_owners out c live o want v).1
  unfolding copy_to_new_owners
  copy_to_new_owners-Arrived o want v plain h =
      rw (plain, copy_to_new_owners)
        (copy_refs-Copied o.manifest want o.manifest.chunks v (rw (plain, copy_to_new_owners) at h))

  -- The commit of the manifest that names the owners
  abbrev pub commit_owners : Object → List Bytes → Action W (Fault E) (Unit {0})
  commit_owners o want =
      commit_if_unchanged out.meta o.key (record o.manifest { nodes = want }) o.revision

  -- All chunks had arrived when the commit was made; it succeeded and was the last act.
  abbrev pub ArrivedThenCommitted : Object → List Bytes → W → Type 0
  ArrivedThenCommitted o want w' =
      (v : RebalanceStats × W) × Arrived o want v
      × ((commit_owners o want v.1).0 ≡ ok tt)
      × (w' ≡ (commit_owners o want v.1).1)

  commit_move-Arrived :
      (o : Object) (want : List Bytes) (v : RebalanceStats × W)
      → Arrived o want v
      → (commit_move out c live o want v).1.0.moved ≡ suc v.0.moved
      → ArrivedThenCommitted o want (commit_move out c live o want v).1.1
  unfolding commit_move
  commit_move-Arrived o want v arrived h = elim (Result-cases (commit_owners o want v.1).0) [
    | inr (u, done) ↦ rw (done, commit_move) (v, arrived, done, refl)
    | inl (e, failed) ↦ elim (Bool-cases (is_changed e)) [
      | inl raced ↦
          let same_count : v.0.moved ≡ suc v.0.moved = rw (failed, raced, commit_move) at h in
          absurd (omega arith)
      | inr other ↦
          let same_count : v.0.moved ≡ suc v.0.moved = rw (failed, other, commit_move) at h in
          absurd (omega arith)
    ]
  ]

  -- A replicated object that rebalancing counts as moved had all its chunks on all its new owners
  -- before the manifest that names them was committed, and that commit, which succeeds only if the
  -- object is unchanged, was the last act; provided that writes that succeed put the chunk where they
  -- say and no call takes one away.
  pub rebalance_object-Arrived :
      (o : Object) (st : RebalanceStats) (w : W)
      → is_zero o.manifest.coding ≡ true
      → (rebalance_object out c live o (st, w)).1.0.moved ≡ suc st.moved
      → ArrivedThenCommitted o (owners_now out c live o) (rebalance_object out c live o (st, w)).1.1
  unfolding rebalance_object
  rebalance_object-Arrived o st w plain h = elim (Bool-cases (is_first out c live o.key)) [
    | inr other ↦
        let same_count : st.moved ≡ suc st.moved = rw (other, rebalance_object) at h in
        absurd (omega arith)
    | inl first ↦
        let want = owners_now out c live o in
        elim (Bool-cases
          (ltb (length want) (length o.manifest.nodes) || same_nodes want o.manifest.nodes)) [
            | inl stays ↦
                let same_count : st.moved ≡ suc st.moved =
                  rw (first, stays, rebalance_object) at h in
                absurd (omega arith)
            | inr goes ↦
                let v : RebalanceStats × W = (one_misplaced (one_visited st), w) in
                let copied = copy_to_new_owners out c live o want v in
                let count = copy_to_new_owners-moved o want v plain in
                elim (Result-cases copied.0) [
                  | inl (e, failed) ↦
                      let same_count : copied.1.0.moved ≡ suc st.moved =
                        rw (first, goes, rebalance_object, ◌>>◌, ◌>>=◌, tally, failed) at h in
                      absurd (omega (arith, count, same_count))
                  | inr (u, done) ↦
                      let moved : (commit_move out c live o want copied.1).1.0.moved
                          ≡ suc st.moved =
                        rw (first, goes, rebalance_object, ◌>>◌, ◌>>=◌, tally, done) at h in
                      rw (first, goes, rebalance_object, ◌>>◌, ◌>>=◌, tally, done)
                        (commit_move-Arrived o want copied.1
                          (copy_to_new_owners-Arrived o want v plain done)
                          (moved ∙ ap suc (sym count)))
                ]
          ]
  ]
