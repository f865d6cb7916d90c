-- ===== src/Cluster/Collect/Safety.antt =====
-- internal/cluster/collect.go: which chunks a pass keeps.
use mathlib.Core.List.{Memᴰ}
use mathlib.Core.List.Memᴰ
use mathlib.Core.Bool.{not-not}
use kavo.Base.{
  ℕ, ◌<◌, ◌≡◌, refl, ap, ◌∙◌, ◌⊎◌, inl, inr, Bool, true, not, Option, none, some, List, [], ◌∷◌,
  ◌++◌, take, drop, take-append-drop, Bool-cases, Option-cases, Result-cases, length, keep, Bytes,
  less, has, has_prefix, Result, ok, err,
}
use kavo.Meta.Keys.{after, less-after, less_nil}
use kavo.Meta.Entries.{Object, PartRef}
use kavo.Cluster.Collect.{
  ChunkInfo, CollectStats, View, State, Calls, reference, writes_in_flight, referenced,
}
use kavo.Cluster.Collect.Sweep.{CollectError, reached, next_slice, collect}
use kavo.Cluster.Collect.Reference.{Holds, reference_keeps, reference-Holds}
use kavo.Cluster.Collect.Scan.{Sorted, PageOrError, add_all, scan_all_lem}
use kavo.Cluster.Collect.Left.{Mem-keep, goes, sweep-goes}

-- A chunk that passes the test stays, whether the scan of the disk got to it or not.
keep_scanned :
    {E : Type 0} (p : ChunkInfo → Bool) (stop : Option (ℕ × E)) (ci : ChunkInfo)
    (cs : List ChunkInfo)
    → Memᴰ ci cs
    → p ci ≡ true
    → Memᴰ ci (keep p (reached stop cs).0 ++ (reached stop cs).1)
keep_scanned p none ci cs m h = Memᴰ.append_left [] (Mem-keep p ci cs m h)
keep_scanned p (some (n, e)) ci cs m h =
    let parted : Memᴰ ci (take n cs ++ drop n cs) = rw (take-append-drop n cs) m in
    elim (Memᴰ.append_cases (take n cs) parted) [
      | inl before ↦ Memᴰ.append_left (drop n cs) (Mem-keep p ci (take n cs) before h)
      | inr after_stop ↦ Memᴰ.append_right (keep p (take n cs)) after_stop
    ]

module _ (view : View) (slice : ℕ) where
  -- What the manifests of parts and of objects name
  abbrev pub add_part : PartRef → List Bytes → List Bytes
  add_part p = reference view slice [] p.manifest

  abbrev pub add_object : Object → List Bytes → List Bytes
  add_object o = reference view slice o.key o.manifest

  add_objects_keep :
      (os : List Object) (set : List Bytes) (id : Bytes)
      → has set id ≡ true
      → has (add_all add_object os set) id ≡ true
  add_objects_keep [] set id h = h
  add_objects_keep (o ∷ os) set id h =
      add_objects_keep os (add_object o set) id
        (reference_keeps view slice o.key o.manifest set id h)

  add_objects-Holds :
      (os : List Object) (set : List Bytes) (id : Bytes) (o : Object)
      → Memᴰ o os
      → Holds view o.key o.manifest id
      → has_prefix id (slice ∷ []) ≡ true
      → has (add_all add_object os set) id ≡ true
  add_objects-Holds [] set id o m h p = elim m [ ]
  add_objects-Holds (o' ∷ os) set id o (Memᴰ.head e) h p =
      add_objects_keep os (add_object o' set) id
        (reference-Holds view slice o'.key o'.manifest set id (rw e at h) p)
  add_objects-Holds (o' ∷ os) set id o (Memᴰ.tail m) h p =
      add_objects-Holds os (add_object o' set) id o m h p

-- What a position in the parts covers, and in the objects. No part has an empty key.
abbrev pub after_part : Bytes → PartRef → Bool
after_part from p = less from p.key

abbrev pub from_object : Bytes → Object → Bool
from_object from o = not (less o.key from)

-- What a pass scans is a snapshot of the parts and one of the objects, in the order of their keys,
-- and a scan that does not fail yields what its position covers, as much as it may.
pub record Snapshot (E : Type 0) (calls : Calls E) (parts : List PartRef) (objects : List Object)
    : Type 0 where
  pub parts_sorted : Sorted (λ p. p.key) parts
  pub parts_named : keep (after_part []) parts ≡ parts
  pub parts_scan :
      (from : Bytes) (limit : ℕ)
      → PageOrError calls.scan_parts (λ p. p.key) after_part parts from limit
  pub objects_sorted : Sorted (λ o. o.key) objects
  pub objects_scan :
      (from : Bytes) (limit : ℕ)
      → PageOrError calls.scan_objects (λ o. o.key) from_object objects from limit

pub from_object-after : (o : Object) → from_object (after o.key) ≡ (λ q. less o.key q.key)
from_object-after o i q = (ap not (less-after o.key q.key) ∙ not-not (less o.key q.key)) i

pub from_start : (os : List Object) → keep (from_object []) os ≡ os
from_start [] = refl
from_start (o ∷ os) = rw (less_nil o.key) (ap (◌∷◌ o) (from_start os))

writes_in_flight-chunks :
    {E : Type 0} (calls : Calls E) (view : View) (s : State)
    → (writes_in_flight calls view s).1.chunks ≡ s.chunks
unfolding writes_in_flight
writes_in_flight-chunks calls view s = elim (Option-cases calls.read_writing) [
  | inl e ↦ rw (e, writes_in_flight)
  | inr (x, e) ↦ rw (e, writes_in_flight)
]

next_slice-chunks :
    {E : Type 0} (calls : Calls E) (s : State) → (next_slice calls s).1.chunks ≡ s.chunks
unfolding next_slice
next_slice-chunks calls s = elim (Option-cases calls.read_cursor) [
  | inl e ↦ elim (Option-cases calls.save_cursor) [
    | inl f ↦ rw (e, f, next_slice)
    | inr (x, f) ↦ rw (e, f, next_slice)
  ]
  | inr (x, e) ↦ rw (e, next_slice)
]

module _ {E : Type 0} (calls : Calls E) (view : View) (fuel : ℕ) (parts : List PartRef)
    (objects : List Object) (snapshot : Snapshot E calls parts objects)
    (enough_parts : length parts < fuel) (enough_objects : length objects < fuel) where
  -- The set that both scans add up to
  abbrev in_use : ℕ → List Bytes
  in_use slice = add_all (add_object view slice) objects (add_all (add_part view slice) parts [])

  -- What `referenced` gives: an error, or the set, and no change of the chunks.
  abbrev Referenced : ℕ → State → Option (Result E (List Bytes × List Bytes) × State) → Type 0
  Referenced slice s r =
      (s' : State) × (s'.chunks ≡ s.chunks)
      × (((e : E) × (r ≡ some (err e, s')))
          ⊎ ((in_write : List Bytes) × (r ≡ some (ok (in_use slice, in_write), s'))))

  referenced-Referenced :
      (slice : ℕ) (s : State) → Referenced slice s (referenced calls view fuel slice s)
  unfolding referenced
  referenced-Referenced slice s = elim (Result-cases (writes_in_flight calls view s).0) [
    | inl (e, w) ↦ (
      (writes_in_flight calls view s).1,
      writes_in_flight-chunks calls view s,
      inl (e, rw (w, referenced)),
    )
    | inr (in_write, w) ↦ (
      (writes_in_flight calls view s).1,
      writes_in_flight-chunks calls view s,
      elim (scan_all_lem calls.scan_parts (λ p. p.key) (λ p. p.key) after_part (add_part view slice)
          parts snapshot.parts_sorted snapshot.parts_scan (λ p. refl) fuel [] snapshot.parts_named
          enough_parts) [
            | inl (e, failed) ↦ inl (e, rw (w, failed, referenced))
            | inr done ↦
                elim (scan_all_lem calls.scan_objects (λ o. o.key) (λ o. after o.key) from_object
                  (add_object view slice) objects snapshot.objects_sorted snapshot.objects_scan
                  from_object-after fuel (add_all (add_part view slice) parts [])
                  (from_start objects) enough_objects) [
                    | inl (e, failed) ↦ inl (e, rw (w, done, failed, referenced))
                    | inr found ↦ inr (in_write, rw (w, done, found, referenced))
                  ]
          ],
    )
  ]

  -- A chunk in use does not go.
  in_use-stays :
      (in_write : List Bytes) (start grace slice : ℕ) (o : Object) (ci : ChunkInfo)
      → Memᴰ o objects
      → Holds view o.key o.manifest ci.id
      → not (goes calls (in_use slice) in_write start grace slice ci) ≡ true
  in_use-stays in_write start grace slice o ci at holds =
      elim (Bool-cases (has_prefix ci.id (slice ∷ []))) [
        | inl inside ↦
            let used : has (in_use slice) ci.id ≡ true =
              add_objects-Holds view slice objects _ ci.id o at holds inside in
            rw (inside, used)
        | inr outside ↦ rw outside
      ]

  -- A pass has ended, and the chunk is on the disk.
  abbrev EndsWith : ChunkInfo → Option (CollectStats × Option (CollectError E) × State) → Type 0
  EndsWith ci none = ⊥
  EndsWith ci (some r) = Memᴰ ci r.2.chunks

  collect-EndsWith :
      (start grace : ℕ) (s : State) (o : Object) (ci : ChunkInfo)
      → Memᴰ o objects
      → Memᴰ ci s.chunks
      → Holds view o.key o.manifest ci.id
      → EndsWith ci (collect calls view fuel start grace s)
  unfolding collect
  collect-EndsWith start grace s o ci at on_disk holds =
      let kept_slice = next_slice-chunks calls s in
      elim (Result-cases (next_slice calls s).0) [
        | inl (e, n) ↦ rw (n, collect, kept_slice) on_disk
        | inr (slice, n) ↦
            let (s', same_chunks, outcome) = referenced-Referenced slice (next_slice calls s).1 in
            let still : Memᴰ ci s'.chunks = rw (same_chunks, kept_slice) on_disk in
            elim outcome [
              | inl (e, failed) ↦ rw (n, failed, collect) still
              | inr (in_write, found) ↦
                  rw
                    (
                      n,
                      found,
                      collect,
                      sweep-goes calls (in_use slice) in_write start grace slice _
                          (reached calls.scan_chunks s'.chunks).0,
                    )
                    (keep_scanned _ calls.scan_chunks ci s'.chunks still
                      (in_use-stays in_write start grace slice o ci at holds))
            ]
      ]

  -- A pass of the collector ends, and a chunk that an object's manifest makes the node hold, by the
  -- manifest's placement or by the ring's, is still on the disk when it does, whatever fails, if the
  -- scans yield a snapshot that has the object and the fuel is above the length of the snapshot.
  pub collect_keeps :
      (start grace : ℕ) (s : State) (o : Object) (ci : ChunkInfo)
      → Memᴰ o objects
      → Memᴰ ci s.chunks
      → Holds view o.key o.manifest ci.id
      → (r : CollectStats × Option (CollectError E) × State) × (collect calls view fuel start grace
            s
          ≡ some r)
        × Memᴰ ci r.2.chunks
  collect_keeps start grace s o ci at on_disk holds =
      let kept = collect-EndsWith start grace s o ci at on_disk holds in
      elim (Option-cases (collect calls view fuel start grace s)) [
        | inl none_left ↦ absurd (rw none_left at kept)
        | inr (r, e) ↦ (r, e, rw e at kept)
      ]
