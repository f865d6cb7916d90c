-- ===== src/Cluster/Repair/Restores.antt =====
-- internal/cluster/repair.go: what lies on the nodes after an object is repaired.
use mathlib.Core.Bool.{true≢false}
use kavo.Base.{
  ◌≡◌, sym, ap, subst, ◌∙◌, inl, inr, true, not, ◌==◌, Bool-cases, ℕ, List, [], ◌∷◌, map, length,
  All, All-map, Bytes, same, same_iff, has, ok, ok-ne-err, ok_inj, Result-cases,
}
use kavo.Base.Actions.{Action, fail_if, ◌>>=◌, ◌>>◌, >>=-keeps, >>=-elim}
use kavo.Faults.{Fault, verification_failed}
use kavo.Ec.{is_zero}
use kavo.Object.Manifest.{ChunkRef}
use kavo.Object.Read.{Reader}
use kavo.Object.Read.Window.{joined}
use kavo.Meta.Entries.{Object}
use kavo.Cluster.Nodes.{
  Config, Membership, Outside, addr_of, read_addr, is_member, local_first, store_as, fetch_from,
}
use kavo.Cluster.Replicate.{fetch_any, fetch}
use kavo.Cluster.Put.Durable.{Place, here, there, place, Durable, store_as-Holds, store_as_keeps}
use kavo.Cluster.Walk.{each, lift, tally, counted}
use kavo.Cluster.Walk.Each.{each_keeps, each-All}
use kavo.Cluster.Repair.{
  Stats, Held, held_by, restore, survey_node, survey_nodes, repair_copy, repair_copies, is_first,
  one_object, repair_object,
}

-- Reads take no chunk away, and a survey names only chunks that lie there.
pub record Surveyed {W E : Type 0} (out : Outside W E) (Holds : W → Place → Bytes → Type 0)
    : Type 0 where
  pub read_keeps :
      (id : Bytes) (crc : ℕ) (w : W) (p : Place) (i : Bytes)
      → Holds w p i
      → Holds (out.read_local id crc w).1 p i
  pub fetch_keeps :
      (addr id : Bytes) (crc : ℕ) (w : W) (p : Place) (i : Bytes)
      → Holds w p i
      → Holds (out.fetch_chunk addr id crc w).1 p i
  pub local_keeps :
      (ids : List Bytes) (w : W) (p : Place) (i : Bytes)
      → Holds w p i
      → Holds (out.has_local ids w).1 p i
  pub remote_keeps :
      (addr : Bytes) (ids : List Bytes) (w : W) (p : Place) (i : Bytes)
      → Holds w p i
      → Holds (out.has_remote addr ids w).1 p i
  pub local_holds :
      (ids have : List Bytes) (w : W) (i : Bytes)
      → (out.has_local ids w).0 ≡ ok have
      → has have i ≡ true
      → Holds (out.has_local ids w).1 here i
  pub remote_holds :
      (addr : Bytes) (ids have : List Bytes) (w : W) (i : Bytes)
      → (out.has_remote addr ids w).0 ≡ ok have
      → has have i ≡ true
      → Holds (out.has_remote addr ids w).1 (there addr) i

module _ {W E : Type 0} (out : Outside W E) (c : Config) (live : Membership)
    (Holds : W → Place → Bytes → Type 0) (durable : Durable out (λ w p k. Holds w p k.0))
    (surveyed : Surveyed out Holds) where
  fetch_from_keeps :
      (node id : Bytes) (crc : ℕ) (w : W) (p : Place) (i : Bytes)
      → Holds w p i
      → Holds (fetch_from out c live node id crc w).1 p i
  unfolding fetch_from
  fetch_from_keeps node id crc w p i h = elim (Bool-cases (same node c.self)) [
    | inl mine ↦ rw (mine, fetch_from) (surveyed.read_keeps id crc w p i h)
    | inr other ↦ elim (Bool-cases (length (read_addr live node) == 0)) [
      | inl nowhere ↦ rw (other, nowhere, fetch_from) h
      | inr somewhere ↦
          rw (other, somewhere, fetch_from)
            (surveyed.fetch_keeps (read_addr live node) id crc w p i h)
    ]
  ]

  fetch_any_keeps :
      (ref : ChunkRef) (nodes : List Bytes) (w : W) (p : Place) (i : Bytes)
      → Holds w p i
      → Holds (fetch_any out c live ref nodes w).1 p i
  unfolding fetch_any
  fetch_any_keeps ref [] w p i h = h
  fetch_any_keeps ref (node ∷ nodes) w p i h =
      let read = fetch_from out c live node ref.id ref.crc w in
      let kept = fetch_from_keeps node ref.id ref.crc w p i h in
      elim (Result-cases read.0) [
        | inl (e, failed) ↦ rw (failed, fetch_any) (fetch_any_keeps ref nodes read.1 p i kept)
        | inr (rc, done) ↦ rw (done, fetch_any) kept
      ]

  -- The end of restore, at what was fetched
  abbrev write_back : Bytes → ChunkRef → Reader → Action W (Fault E) (Unit {0})
  write_back node ref src =
      fail_if (not src.verified) verification_failed
      >> store_as out c live node ref.id (joined src.pieces) ref.crc ref.size

  write_back_keeps :
      (node : Bytes) (ref : ChunkRef) (src : Reader) (w : W) (p : Place) (i : Bytes)
      → Holds w p i
      → Holds (write_back node ref src w).1 p i
  write_back_keeps node ref src w p i h = elim (Bool-cases src.verified) [
    | inl good ↦ rw good (
        store_as_keeps out c live (λ w p k. Holds w p k.0) durable node ref.id (joined src.pieces)
          ref.crc ref.size w p (i, ref.crc) h)
    | inr bad ↦ rw bad h
  ]

  pub restore_keeps :
      (node : Bytes) (ref : ChunkRef) (nodes : List Bytes) (w : W) (p : Place) (i : Bytes)
      → Holds w p i
      → Holds (restore out c live node ref nodes w).1 p i
  unfolding restore fetch
  restore_keeps node ref nodes w p i h =
      >>=-keeps (λ w. Holds w p i) (fetch out c live ref nodes) (write_back node ref) w
        (fetch_any_keeps ref (local_first c.self nodes) w p i h)
        (λ src k. write_back_keeps node ref src _ p i k)

  write_back-Holds :
      (node : Bytes) (ref : ChunkRef) (src : Reader) (w : W)
      → (write_back node ref src w).0 ≡ ok tt
      → Holds (write_back node ref src w).1 (place c live node) ref.id
  write_back-Holds node ref src w h = elim (Bool-cases src.verified) [
    | inl good ↦ rw good (
        store_as-Holds out c live (λ w p k. Holds w p k.0) durable node ref.id (joined src.pieces)
          ref.crc ref.size w (rw good at h))
    | inr bad ↦ absurd (ok-ne-err (sym (rw bad at h)))
  ]

  -- A chunk that is restored without an error lies where it should.
  pub restore-Holds :
      (node : Bytes) (ref : ChunkRef) (nodes : List Bytes) (w : W)
      → (restore out c live node ref nodes w).0 ≡ ok tt
      → Holds (restore out c live node ref nodes w).1 (place c live node) ref.id
  unfolding restore
  restore-Holds node ref nodes w =
      >>=-elim (λ r. r.0 ≡ ok tt → Holds r.1 (place c live node) ref.id)
        (fetch out c live ref nodes) (write_back node ref) w
        (λ e failed h. absurd (ok-ne-err (sym h)))
        (λ src fetched. write_back-Holds node ref src (fetch out c live ref nodes w).1)

  survey_node_keeps :
      (node : Bytes) (ids : List Bytes) (w : W) (p : Place) (i : Bytes)
      → Holds w p i
      → Holds (survey_node out c live node ids w).1 p i
  unfolding survey_node
  survey_node_keeps node ids w p i h = elim (Bool-cases (same node c.self)) [
    | inl mine ↦ rw (mine, survey_node) (surveyed.local_keeps ids w p i h)
    | inr other ↦
        let kept = surveyed.remote_keeps (addr_of live.peers node) ids w p i h in
        elim (Result-cases (out.has_remote (addr_of live.peers node) ids w).0) [
          | inl (e, failed) ↦ rw (other, failed, survey_node) kept
          | inr (have, done) ↦ rw (other, done, survey_node) kept
        ]
  ]

  survey_node-Holds :
      (node : Bytes) (ids have : List Bytes) (w : W) (i : Bytes)
      → (survey_node out c live node ids w).0 ≡ ok have
      → has have i ≡ true
      → Holds (survey_node out c live node ids w).1 (place c live node) i
  unfolding survey_node has
  survey_node-Holds node ids have w i h k = elim (Bool-cases (same node c.self)) [
    | inl mine ↦
        rw (mine, survey_node) (surveyed.local_holds ids have w i (rw (mine, survey_node) at h) k)
    | inr other ↦ elim (Result-cases (out.has_remote (addr_of live.peers node) ids w).0) [
      | inl (e, failed) ↦ absurd (none_held (ok_inj (rw (other, failed, survey_node) at h)) k)
      | inr (have', done) ↦
          let found = done ∙ (rw (other, done, survey_node) at h) in
          rw (other, done, survey_node)
            (surveyed.remote_holds (addr_of live.peers node) ids have w i found k)
    ]
  ]
    where
      none_held : {have : List Bytes} → [] ≡ have → has have i ≡ true → ⊥
      none_held e k = true≢false (sym k ∙ ap (λ l. has l i) (sym e))

  -- What a survey found lies where it was found.
  abbrev pub Honest : Held → W → Type 0
  Honest held w =
      (node i : Bytes) → has (held_by held node) i ≡ true → Holds w (place c live node) i

  survey_nodes-Honest :
      (held held' : Held) (nodes ids : List Bytes) (w : W)
      → Honest held w
      → (survey_nodes out c live held nodes ids w).0 ≡ ok held'
      → Honest held' (survey_nodes out c live held nodes ids w).1
  unfolding survey_nodes held_by
  survey_nodes-Honest held held' [] ids w honest h = subst (λ l. Honest l w) (ok_inj h) honest
  survey_nodes-Honest held held' (node ∷ nodes) ids w honest h =
      elim (Bool-cases (is_member live.peers node)) [
        | inr absent ↦
            rw (absent, survey_nodes)
              (survey_nodes-Honest held held' nodes ids w honest (rw (absent, survey_nodes) at h))
        | inl present ↦ elim (Result-cases (survey_node out c live node ids w).0) [
          | inl (e, failed) ↦ absurd (ok-ne-err (sym (rw (present, failed, survey_nodes) at h)))
          | inr (have, done) ↦
              rw (present, done, survey_nodes)
                (survey_nodes-Honest ((node, have) ∷ held) held' nodes ids
                  (survey_node out c live node ids w).1 (newer have done)
                  (rw (present, done, survey_nodes) at h))
        ]
      ]
    where
      newer :
          (have : List Bytes)
          → (survey_node out c live node ids w).0 ≡ ok have
          → Honest ((node, have) ∷ held) (survey_node out c live node ids w).1
      newer have done n i k = elim (Bool-cases (same node n)) [
        | inl this ↦
            rw (sym ((same_iff node n).0 this))
              (survey_node-Holds node ids have w i done (rw (this, held_by) at k))
        | inr other ↦
            survey_node_keeps node ids w (place c live n) i (honest n i (rw (other, held_by) at k))
      ]

  module _ (nodes : List Bytes) (held : Held) where
    repair_copy_keeps :
        (ref : ChunkRef) (node : Bytes) (v : Stats × W) (p : Place) (i : Bytes)
        → Holds v.1 p i
        → Holds (repair_copy out c live nodes held ref node v).1.1 p i
    unfolding repair_copy
    repair_copy_keeps ref node v p i h = elim (Bool-cases (is_member live.peers node)) [
      | inr absent ↦ rw (absent, repair_copy) h
      | inl present ↦ elim (Bool-cases (has (held_by held node) ref.id)) [
        | inl held_here ↦ rw (present, held_here, repair_copy) h
        | inr gone ↦
            let kept = restore_keeps node ref nodes v.1 p i h in
            elim (Result-cases (restore out c live node ref nodes v.1).0) [
              | inl (e, failed) ↦ rw (present, gone, failed, repair_copy, counted) kept
              | inr (u, done) ↦ rw (present, gone, done, repair_copy, counted) kept
            ]
      ]
    ]

    -- The chunk lies at the node, if it is a member.
    abbrev pub Placed : ChunkRef → Bytes → Stats × W → Type 0
    Placed ref node v = is_member live.peers node ≡ true → Holds v.1 (place c live node) ref.id

    repair_copy-Placed :
        (ref : ChunkRef) (node : Bytes) (v : Stats × W)
        → Honest held v.1
        → (repair_copy out c live nodes held ref node v).0 ≡ ok tt
        → Placed ref node (repair_copy out c live nodes held ref node v).1
    unfolding repair_copy
    repair_copy-Placed ref node v honest h present =
        elim (Bool-cases (has (held_by held node) ref.id)) [
          | inl held_here ↦ rw (present, held_here, repair_copy) (honest node ref.id held_here)
          | inr gone ↦ elim (Result-cases (restore out c live node ref nodes v.1).0) [
            | inl (e, failed) ↦
                absurd (ok-ne-err (sym (rw (present, gone, failed, repair_copy, counted) at h)))
            | inr (u, done) ↦
                rw (present, gone, done, repair_copy, counted)
                  (restore-Holds node ref nodes v.1 done)
          ]
        ]

    repair_ref-Placed :
        (ref : ChunkRef) (v : Stats × W)
        → Honest held v.1
        → (each (repair_copy out c live nodes held ref) nodes v).0 ≡ ok tt
        → All
            (λ node. Placed ref node (each (repair_copy out c live nodes held ref) nodes v).1)
            nodes
    repair_ref-Placed ref v =
        each-All (repair_copy out c live nodes held ref) (λ v. Honest held v.1) (Placed ref)
          (λ node v honest n i k. repair_copy_keeps ref node v (place c live n) i (honest n i k))
          (repair_copy-Placed ref)
          (λ node other v placed present.
            repair_copy_keeps ref other v (place c live node) ref.id (placed present))
          nodes v

    repair_ref_keeps :
        (ref : ChunkRef) (v : Stats × W) (p : Place) (i : Bytes)
        → Holds v.1 p i
        → Holds (each (repair_copy out c live nodes held ref) nodes v).1.1 p i
    repair_ref_keeps ref v p i =
        each_keeps (repair_copy out c live nodes held ref) (λ v. Holds v.1 p i)
          (λ node v h. repair_copy_keeps ref node v p i h) nodes v

    repair_refs-Placed :
        (refs : List ChunkRef) (v : Stats × W)
        → Honest held v.1
        → (each (λ ref. each (repair_copy out c live nodes held ref) nodes) refs v).0 ≡ ok tt
        → All
            (λ ref.
              All
                (λ node.
                  Placed ref node
                    (each (λ ref. each (repair_copy out c live nodes held ref) nodes) refs v).1)
                nodes)
            refs
    repair_refs-Placed refs v =
        each-All (λ ref. each (repair_copy out c live nodes held ref) nodes) (λ v. Honest held v.1)
          (λ ref v. All (λ node. Placed ref node v) nodes)
          (λ ref v honest n i k. repair_ref_keeps ref v (place c live n) i (honest n i k))
          repair_ref-Placed
          (λ ref other v placed.
            All-map (λ node. Placed ref node v) _ nodes
              (λ node h present. repair_ref_keeps other v (place c live node) ref.id (h present))
              placed)
          refs v

  Honest-nil : (w : W) → Honest [] w
  unfolding held_by has
  Honest-nil w node i k = absurd (true≢false (sym k))

  repair_copies-Placed :
      (o : Object) (v : Stats × W)
      → (repair_copies out c live o v).0 ≡ ok tt
      → All
          (λ ref.
            All
              (λ node.
                is_member live.peers node ≡ true
                → Holds (repair_copies out c live o v).1.1 (place c live node) ref.id)
              o.manifest.nodes)
          o.manifest.chunks
  unfolding repair_copies
  repair_copies-Placed o (st, w) h =
      let ids = map (λ ref. ref.id) o.manifest.chunks in
      let survey = survey_nodes out c live [] o.manifest.nodes ids w in
      elim (Result-cases survey.0) [
        | inl (e, failed) ↦ absurd (ok-ne-err (sym (rw (failed, repair_copies, ◌>>=◌, lift) at h)))
        | inr (held, done) ↦
            rw (done, repair_copies, ◌>>=◌, lift)
              (repair_refs-Placed o.manifest.nodes held o.manifest.chunks (st, survey.1)
                (survey_nodes-Honest [] held o.manifest.nodes ids w (Honest-nil w) done)
                (rw (done, repair_copies, ◌>>=◌, lift) at h))
      ]

  -- The repair of a replicated object that returns without an error, at the first owner of the
  -- object's partition, has left every chunk of the object at every node of its manifest that is a
  -- member; provided that writes that succeed put the chunk where they say and no call takes one
  -- away, and that a survey names only what lies there.
  pub repair_object-Placed :
      (o : Object) (v : Stats × W)
      → is_first out c live o.key ≡ true
      → is_zero o.manifest.coding ≡ true
      → (repair_object out c live o v).0 ≡ ok tt
      → All
          (λ ref.
            All
              (λ node.
                is_member live.peers node ≡ true
                → Holds (repair_object out c live o v).1.1 (place c live node) ref.id)
              o.manifest.nodes)
          o.manifest.chunks
  unfolding repair_object
  repair_object-Placed o (st, w) first plain h =
      rw (first, plain, repair_object, ◌>>◌, ◌>>=◌, tally)
        (repair_copies-Placed o (one_object st, w)
          (rw (first, plain, repair_object, ◌>>◌, ◌>>=◌, tally) at h))
