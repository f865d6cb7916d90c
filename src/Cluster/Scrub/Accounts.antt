-- ===== src/Cluster/Scrub/Accounts.antt =====
-- internal/cluster/scrub.go: what becomes of the copies that have rotted.
use mathlib.Core.Option.{some_inj}
use mathlib.Core.Path.{Path}
use kavo.Base.{
  ℕ, suc, ◌+◌, ◌≡◌, refl, sym, ap, ◌∙◌, subst, inl, inr, arith, true, false, ◌==◌, ltb, Bool-cases,
  Option, none, some, List, [], ◌∷◌, length, Bytes, text, same, if◌then◌else◌, Result, ok, err,
  ok-ne-err, Result-cases,
}
use kavo.Base.Actions.{Action}
use kavo.Faults.{Fault, unrepairable}
use kavo.Ec.{is_zero}
use kavo.Object.Manifest.{ChunkRef, shard_id}
use kavo.Meta.Entries.{Object}
use kavo.Cluster.Nodes.{Config, Membership, Outside}
use kavo.Cluster.Erasure.{nth, restore_shards}
use kavo.Cluster.Walk.{counted, walk}
use kavo.Cluster.Walk.Each.{each_keeps, EndsWith, walk-EndsWith}
use kavo.Cluster.Scrub.{
  ScrubStats, Disk, nothing_read, one_read, one_rotted, rebuilt_rot, lost_rot, rebuild_from_peers,
  scrub_chunk, scrub_positions, scrub_coded_chunk, scrub_object, scrub,
}

-- Every copy that has rotted is counted as rebuilt or as unrecovered.
abbrev pub Balanced : ScrubStats → Type 0
Balanced st = st.rotted ≡ st.rebuilt + st.unrecovered

-- As many copies as these have been found rotted since the counts balanced, and nothing has become of
-- them.
abbrev Owes : ℕ → ScrubStats → Type 0
Owes n st = st.rotted ≡ st.rebuilt + st.unrecovered + n

counted-Balanced :
    {W E : Type 0} (act : Action W E (Unit {0})) (n : ℕ) (st : ScrubStats) (w : W)
    → Owes n st
    → Balanced (counted act (lost_rot n) (rebuilt_rot n) (st, w)).1.0
counted-Balanced act n st w h = elim (Result-cases (act w).0) [
  | inl (e, failed) ↦ rw (counted, failed) (omega arith)
  | inr (u, done) ↦ rw (counted, done) (omega arith)
]

module _ {W E : Type 0} (out : Outside W E) (disk : Disk W E) (c : Config) (live : Membership) where
  scrub_chunk-Balanced :
      (nodes : List Bytes) (ref : ChunkRef) (v : ScrubStats × W)
      → Balanced v.0
      → Balanced (scrub_chunk out disk c live nodes ref v).1.0
  unfolding scrub_chunk
  scrub_chunk-Balanced nodes ref (st, w) h =
      let held = disk.has_chunk ref.id w in
      let read = disk.read_all ref.id ref.crc held.1 in
      elim (Result-cases held.0) [
        | inl (e, failed) ↦ rw (failed, scrub_chunk) h
        | inr (false, done) ↦ rw (done, scrub_chunk) h
        | inr (true, done) ↦ elim (Result-cases read.0.0) [
          | inl (e, failed) ↦ rw (done, failed, scrub_chunk) h
          | inr (true, good) ↦ rw (done, good, scrub_chunk) h
          | inr (false, rot) ↦
              rw (done, rot, scrub_chunk)
                (counted-Balanced (rebuild_from_peers out disk c live ref nodes) 1
                  (one_rotted (one_read ref.size st)) read.1 (omega (arith, h)))
        ]
      ]

  -- Each position that is listed as rotted has been counted.
  scrub_positions-Owes :
      (k : ℕ) (ref : ChunkRef) (i : ℕ) (nodes : List Bytes) (v : ScrubStats × W)
      → Owes k v.0
      → Owes
          (k + length (scrub_positions out disk c live ref i nodes v).0.1)
          (scrub_positions out disk c live ref i nodes v).1.0
  unfolding scrub_positions
  scrub_positions-Owes k ref i [] v h = omega (arith, h)
  scrub_positions-Owes k ref i (node ∷ nodes) (st, w) h =
      let held = disk.has_chunk (shard_id ref i) w in
      let read = disk.read_all (shard_id ref i) (nth 0 ref.shard_crcs i) held.1 in
      elim (Bool-cases (same node c.self)) [
        | inr other ↦
            rw (other, scrub_positions) (scrub_positions-Owes k ref (suc i) nodes (st, w) h)
        | inl mine ↦
            let absent = scrub_positions-Owes k ref (suc i) nodes (st, held.1) h in
            let next = scrub_positions-Owes k ref (suc i) nodes (one_read read.0.1 st, read.1) h in
            let next_rotted =
              scrub_positions-Owes (suc k) ref (suc i) nodes
                (one_rotted (one_read read.0.1 st), read.1) (omega (arith, h)) in
            elim (Result-cases held.0) [
              | inl (e, failed) ↦ rw (mine, failed, scrub_positions) absent
              | inr (false, done) ↦ rw (mine, done, scrub_positions) absent
              | inr (true, done) ↦ elim (Result-cases read.0.0) [
                | inl (e, failed) ↦ rw (mine, done, failed, scrub_positions) next
                | inr (true, good) ↦ rw (mine, done, good, scrub_positions) next
                | inr (false, rot) ↦
                    rw (mine, done, rot, scrub_positions) (omega (arith, next_rotted))
              ]
            ]
      ]

  scrub_coded_chunk-Balanced :
      (o : Object) (ref : ChunkRef) (v : ScrubStats × W)
      → Balanced v.0
      → Balanced (scrub_coded_chunk out disk c live o ref v).1.0
  unfolding scrub_coded_chunk
  scrub_coded_chunk-Balanced o ref v h =
      let m = o.manifest in
      let found = scrub_positions out disk c live ref 0 m.nodes v in
      let kept = scrub_positions-Owes 0 ref 0 m.nodes v (omega (arith, h)) in
      elim (Bool-cases (length found.0.1 == 0)) [
        | inl clean ↦ rw (clean, scrub_coded_chunk) (ground (arith, kept))
        | inr rot ↦
            rw (rot, scrub_coded_chunk)
              (counted-Balanced (restore_shards out c live ref m.nodes m.nodes found.0.1 m.coding)
                (length found.0.1) found.1.0 found.1.1 (omega (arith, kept)))
      ]

  scrub_object-Balanced :
      (o : Object) (v : ScrubStats × W)
      → Balanced v.0
      → Balanced (scrub_object out disk c live o v).1.0
  unfolding scrub_object
  scrub_object-Balanced o v h = elim (Bool-cases (is_zero o.manifest.coding)) [
    | inl plain ↦
        rw (plain, scrub_object)
          (each_keeps (scrub_chunk out disk c live o.manifest.nodes) (λ v. Balanced v.0)
            (scrub_chunk-Balanced o.manifest.nodes) o.manifest.chunks v h)
    | inr coded ↦
        rw (coded, scrub_object)
          (each_keeps (scrub_coded_chunk out disk c live o) (λ v. Balanced v.0)
            (scrub_coded_chunk-Balanced o) o.manifest.chunks v h)
  ]

  -- The end of Scrub, after its walk
  abbrev finish :
      Option (Result (Fault E) (Unit {0}) × (ScrubStats × W))
      → Option (Result (Fault E) (Unit {0}) × (ScrubStats × W))
  finish none = none
  finish (some (err e, v)) = some (err e, v)
  finish (some (ok u, (st, w'))) =
      some (if ltb 0 st.unrecovered then err unrepairable else ok tt, (st, w'))

  finish-Balanced :
      (x : Option (Result (Fault E) (Unit {0}) × (ScrubStats × W)))
      (r : Result (Fault E) (Unit {0})) (st : ScrubStats) (w' : W)
      → EndsWith (scrub_object out disk c live) Balanced scrub_object-Balanced x
      → finish x ≡ some (r, (st, w'))
      → Balanced st × (r ≡ ok tt → st.rotted ≡ st.rebuilt)
  finish-Balanced none r st w' h e = absurd cc
  finish-Balanced (some (err bad, (st1, w1))) r st w' h e =
      let same_end = some_inj.0 e in
      (
        subst Balanced (ap (λ x. x.1.0) same_end) h,
        λ done. absurd (ok-ne-err (sym (ap (λ x. x.0) same_end ∙ done))),
      )
  finish-Balanced (some (ok u, (st1, w1))) r st w' h e =
      let same_end = some_inj.0 e in
      let counts : st1 ≡ st = ap (λ x. x.1.0) same_end in
      (
        subst Balanced counts h,
        λ done.
            subst (λ s. s.rotted ≡ s.rebuilt) counts (all_rebuilt (ap (λ x. x.0) same_end ∙ done)),
      )
    where
      all_rebuilt :
          Path
            (Result (Fault E) (Unit {0}))
            (if ltb 0 st1.unrecovered then err unrepairable else ok tt)
            (ok tt)
          → st1.rotted ≡ st1.rebuilt
      all_rebuilt k = elim (Bool-cases (ltb 0 st1.unrecovered)) [
        | inl some_lost ↦ absurd (ok-ne-err (sym (rw some_lost at k)))
        | inr none_lost ↦ ground (arith, h)
      ]

  -- A pass of Scrub, however it ends, counts each copy that it found rotted as rebuilt or as
  -- unrecovered, and one that ends without an error has rebuilt all that it found rotted.
  pub scrub-Balanced :
      (fuel : ℕ) (w w' : W) (r : Result (Fault E) (Unit {0})) (st : ScrubStats)
      → scrub out disk c live fuel w ≡ some (r, (st, w'))
      → Balanced st × (r ≡ ok tt → st.rotted ≡ st.rebuilt)
  unfolding scrub
  scrub-Balanced fuel w w' r st e =
      finish-Balanced
        (walk out c (text "scrub") (scrub_object out disk c live) fuel (nothing_read, w)) r st w'
        (walk-EndsWith (scrub_object out disk c live) Balanced scrub_object-Balanced out c
          (text "scrub") fuel (nothing_read, w) refl)
        e
