-- ===== src/Cluster/Tests/Passes.antt =====
-- Background passes: a walk over three objects, the repair of a copy that is missing, and the move of
-- an object to the owners that the ring names.
use mathlib.Core.Bool.{true≢false}
use kavo.Base.{
  ℕ, zero, suc, ◌≡◌, ◌≢◌, refl, ap, sym, subst, ◌∙◌, inl, inr, arith, Bool, true, false, ◌||◌,
  Bool-cases, List, [], ◌∷◌, ◌++◌, map, take, keep, All, Bytes, text, same, same_iff, has, less,
  trim_prefix, has_prefix, ok, err, ok_inj, ok-ne-err, if◌then◌else◌,
}
use kavo.Base.Actions.{◌>>=◌}
use kavo.Faults.{no_owner}
use kavo.Object.Manifest.{ChunkRef, Manifest, no_manifest}
use kavo.Meta.Entries.{Object}
use kavo.Meta.Manifests.{scan_objects, objects_of, cursor}
use kavo.Cluster.Nodes.{Membership, Outside, is_member}
use kavo.Cluster.Put.Durable.{Place, here, there, place, Durable}
use kavo.Cluster.Collect.Scan.{Sorted}
use kavo.Cluster.Uploads.{same_nodes}
use kavo.Cluster.Walk.{Visit, walk}
use kavo.Cluster.Walk.Visits.{key_of, from_here, logged, Scans, Visited, walk-Visited}
use kavo.Cluster.Tests.World.{Piece, World, config, live}
use kavo.Cluster.List.Tests.{keys, kv_of, from_key, scan_at, world}
use kavo.Cluster.List.Tests as Listing
use kavo.Cluster.Repair.{
  no_repairs, is_first, survey_node, survey_nodes, held_by, repair_copy, repair_copies,
  repair_object,
}
use kavo.Cluster.Repair.Restores.{Surveyed, repair_object-Placed}
use kavo.Cluster.Rebalance.{
  no_moves, owners_now, copy_to_new_owners, copy_to_owner, copy_chunk, commit_move,
  rebalance_object,
}
use kavo.Cluster.Rebalance.Moves.{ArrivedThenCommitted, rebalance_object-Arrived}
use kavo.Cluster.Tests.World as Test

abbrev object_of : Bytes → Object
object_of k = record { key = k; manifest = no_manifest; revision = 0 }

abbrev xs : List Object
xs = map object_of keys

objects_of-map :
    (ks : List Bytes) → objects_of Listing.out.meta (map kv_of ks) ≡ ok (map object_of ks)
unfolding objects_of trim_prefix has_prefix
objects_of-map [] = refl
objects_of-map (k ∷ ks) = rw (objects_of-map ks, objects_of) refl

take-map : (n : ℕ) (ks : List Bytes) → take n (map object_of ks) ≡ map object_of (take n ks)
take-map zero ks = refl
take-map (suc n) [] = refl
take-map (suc n) (k ∷ ks) = ap (◌∷◌ (object_of k)) (take-map n ks)

keep-map :
    (f : Bytes) (ks : List Bytes)
    → from_here f (map object_of ks) ≡ map object_of (keep (from_key (text "o/" ++ f)) ks)
unfolding less
keep-map f [] = refl
keep-map f (k ∷ ks) = elim (Bool-cases (less k f)) [
  | inl e ↦ rw e (keep-map f ks)
  | inr e ↦ rw e (ap (◌∷◌ (object_of k)) (keep-map f ks))
]

scan_objects_at :
    (f : Bytes) (n : ℕ) (w : World)
    → (scan_objects Listing.out.meta [] f n w).0
      ≡ ok (map object_of (take n (keep (from_key (text "o/" ++ f)) keys)))
unfolding scan_objects
scan_objects_at f n w =
    rw (scan_at f n w, ◌>>=◌) (objects_of-map (take n (keep (from_key (text "o/" ++ f)) keys)))

-- A visit that counts and fails
visit : Visit World Bytes ℕ
visit o (n, w) = (err no_owner, (suc n, w))

scans : Scans Listing.out config (text "repair") visit xs
scans f n w = inr (
    scan_objects_at f n w
    ∙ ap ok
        (sym (ap (take n) (keep-map f keys) ∙ take-map n (keep (from_key (text "o/" ++ f)) keys))))

sorted : Sorted key_of xs
unfolding less
sorted = ((refl, (refl, tt)), ((refl, tt), (tt, tt)))

named : All (λ o. o.key ≢ []) xs
named = ((λ e. cc), ((λ e. cc), ((λ e. cc), tt)))

no_cursor : (cursor Listing.out.meta (text "repair") config.self world).0 ≡ ok []
unfolding cursor
no_cursor = refl

walk-Visited_example :
    Visited Listing.out config
      (text "repair")
      visit
      xs
      xs
      (walk Listing.out config (text "repair") (logged visit) 4 (([], 0), world))
walk-Visited_example =
    walk-Visited Listing.out config (text "repair") visit xs scans sorted named 4 0 world no_cursor
      (omega arith)

abbrev at_place : Place → Place → Bool
at_place here here = true
at_place here (there b) = false
at_place (there a) here = false
at_place (there a) (there b) = same a b

at_place_eq : (p q : Place) → at_place p q ≡ true → p ≡ q
at_place_eq here here h = refl
at_place_eq here (there b) h = absurd (true≢false (sym h))
at_place_eq (there a) here h = absurd (true≢false (sym h))
at_place_eq (there a) (there b) h = ap there ((same_iff a b).0 h)

-- A piece of the id lies at the place, under whatever checksum.
data Lies (p : Place) (i : Bytes) : List Piece → Type 0 where
  on_top :
      {bytes : Bytes} {crc : ℕ} {rest : List Piece}
      → Lies p i (record { at = p; id = i; bytes = bytes; crc = crc } ∷ rest)
  below : {x : Piece} {rest : List Piece} → Lies p i rest → Lies p i (x ∷ rest)

abbrev Holds : World → Place → Bytes → Type 0
Holds w p i = Lies p i w.pieces

-- The ids of the chunks that lie at a place
abbrev ids_at : Place → List Piece → List Bytes
ids_at p [] = []
ids_at p (x ∷ xs) = let rest = ids_at p xs in if at_place x.at p then x.id ∷ rest else rest

ids_at-Lies : (p : Place) (i : Bytes) (xs : List Piece) → has (ids_at p xs) i ≡ true → Lies p i xs
unfolding has
ids_at-Lies p i [] h = absurd (true≢false (sym h))
ids_at-Lies p i (x ∷ xs) h = elim (Bool-cases (at_place x.at p)) [
  | inr elsewhere ↦ below (ids_at-Lies p i xs (rw elsewhere at h))
  | inl this ↦
      let found : (same x.id i || has (ids_at p xs) i) ≡ true = rw this at h in
      elim (Bool-cases (same x.id i)) [
        | inl it ↦
            subst (λ q. Lies q i (x ∷ xs)) (at_place_eq x.at p this)
              (subst (λ j. Lies x.at j (x ∷ xs)) ((same_iff x.id i).0 it) on_top)
        | inr other ↦ below (ids_at-Lies p i xs (rw other at found))
      ]
]

abbrev out : Outside World Bytes
out = record Test.out {
  has_local = λ ids w. (ok (ids_at here w.pieces), w);
  has_remote = λ addr ids w. (ok (ids_at (there addr) w.pieces), w);
}

surveyed : Surveyed out Holds
surveyed = record {
  read_keeps = λ id crc w p i h. h;
  fetch_keeps = λ addr id crc w p i h. h;
  local_keeps = λ ids w p i h. h;
  remote_keeps = λ addr ids w p i h. h;
  local_holds = λ ids have w i e h. ids_at-Lies here i w.pieces (ap (λ l. has l i) (ok_inj e) ∙ h);
  remote_holds = λ addr ids have w i e h.
      ids_at-Lies (there addr) i w.pieces (ap (λ l. has l i) (ok_inj e) ∙ h);
}

push-Lies :
    (down : Bool) (addr id bytes : Bytes) (crc : ℕ) (w : World)
    → (Test.push down addr id bytes crc w).0 ≡ ok tt
    → Holds (Test.push down addr id bytes crc w).1 (there addr) id
push-Lies true addr id bytes crc w h = absurd (ok-ne-err (sym h))
push-Lies false addr id bytes crc w h = on_top

push_keeps :
    (down : Bool) (addr id bytes : Bytes) (crc : ℕ) (w : World) (p : Place) (i : Bytes)
    → Holds w p i
    → Holds (Test.push down addr id bytes crc w).1 p i
push_keeps true addr id bytes crc w p i h = h
push_keeps false addr id bytes crc w p i h = below h

out_durable : Durable out (λ w p k. Holds w p k.0)
out_durable = record {
  local_holds = λ id bytes crc size w h. on_top;
  push_holds =
      λ addr id bytes crc size w h. push-Lies (same addr (text "a3")) addr id bytes crc w h;
  local_keeps = λ id bytes crc size w p i h. below h;
  push_keeps = λ addr id bytes crc size w p i h.
      push_keeps (same addr (text "a3")) addr id bytes crc w p i.0 h;
  put_keeps = λ k v w p i h. h;
  delete_keeps = λ k w p i h. h;
  txn_keeps = λ cs k v w p i h. h;
}

abbrev chunk : ChunkRef
chunk = record { id = text "c"; size = 2; crc = 2; shard_crcs = [] }

abbrev pub manifest : Manifest
manifest = record no_manifest { nodes = text "n1" ∷ text "n2" ∷ []; chunks = chunk ∷ [] }

abbrev object : Object
object = record { key = text "b/k"; manifest = manifest; revision = 3 }

-- The copy of n1 is missing.
abbrev pub one_copy : World
one_copy = record {
  pieces = record { at = there (text "a2"); id = text "c"; bytes = text "he"; crc = 2 } ∷ [];
  values = [];
}

first : is_first out config live (text "b/k") ≡ true
unfolding is_first kavo.Ring.owners kavo.Ring.partition_for Test.sum kavo.Ring.big_endian
    kavo.Ring.hash_pos kavo.Ring.lap kavo.Ring.node_at kavo.Ring.search_pos same has
first = refl

repaired : (repair_object out config live object (no_repairs, one_copy)).0 ≡ ok tt
unfolding repair_object repair_copies survey_nodes survey_node repair_copy held_by
    kavo.Cluster.Repair.is_first kavo.Ring.owners kavo.Ring.partition_for Test.sum
    kavo.Cluster.Walk.each kavo.Cluster.Repair.restore kavo.Cluster.Replicate.fetch
    kavo.Cluster.Replicate.fetch_any kavo.Cluster.Nodes.local_first kavo.Cluster.Nodes.fetch_from
    kavo.Cluster.Nodes.store_as kavo.Cluster.Nodes.lookup kavo.Cluster.Nodes.read_addr
    kavo.Cluster.Nodes.swap_first kavo.Ring.big_endian kavo.Ring.hash_pos kavo.Ring.lap
    kavo.Ring.node_at kavo.Ring.search_pos has same
repaired = refl

repair_object-Placed_example :
    All
      (λ ref.
        All
          (λ node.
            is_member live.peers node ≡ true
            → Holds
                (repair_object out config live object (no_repairs, one_copy)).1.1
                (place config live node)
                ref.id)
          manifest.nodes)
      manifest.chunks
repair_object-Placed_example =
    repair_object-Placed out config live Holds out_durable surveyed object (no_repairs, one_copy)
      first refl repaired

-- The object was on n2 alone, and one owner is not enough.
abbrev alone : Object
alone = record object { manifest = record manifest { nodes = text "n2" ∷ [] } }

abbrev live_two : Membership
live_two = record live {
  ring = record {
    vnodes = record { pos = 10; node = text "n1" } ∷ record { pos = 30; node = text "n2" } ∷ [];
  };
}

moved : (rebalance_object out config live_two alone (no_moves, one_copy)).1.0.moved ≡ 1
unfolding kavo.Ec.valid rebalance_object copy_to_new_owners copy_to_owner copy_chunk same_nodes
    commit_move kavo.Meta.Manifests.commit_if_unchanged kavo.Meta.Store.object_key
    kavo.Cluster.Repair.is_first kavo.Ring.owners kavo.Ring.partition_for Test.sum
    kavo.Cluster.Walk.each kavo.Cluster.Repair.restore kavo.Cluster.Replicate.fetch
    kavo.Cluster.Replicate.fetch_any kavo.Cluster.Nodes.local_first kavo.Cluster.Nodes.fetch_from
    kavo.Cluster.Nodes.store_as kavo.Cluster.Nodes.lookup kavo.Cluster.Nodes.read_addr
    kavo.Cluster.Nodes.swap_first kavo.Ring.big_endian kavo.Ring.hash_pos kavo.Ring.lap
    kavo.Ring.node_at kavo.Ring.search_pos has same
moved = refl

rebalance_object-Arrived_example :
    ArrivedThenCommitted out config live_two Holds out_durable surveyed alone
      (owners_now out config live_two alone)
      (rebalance_object out config live_two alone (no_moves, one_copy)).1.1
rebalance_object-Arrived_example =
    rebalance_object-Arrived out config live_two Holds out_durable surveyed alone no_moves one_copy
      refl moved
