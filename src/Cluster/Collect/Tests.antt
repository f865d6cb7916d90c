-- ===== src/Cluster/Collect/Tests.antt =====
-- A pass of the collector at two chunks: one that an object names, and one that nothing does.
use mathlib.Core.List.{Memᴰ}
use kavo.Base.{
  ℕ, ◌≡◌, ◌≢◌, refl, ◌⊎◌, inl, inr, true, not, Option, none, some, List, [], ◌∷◌, ◌++◌, arith, take,
  keep, Bytes, text, has, has_prefix, Result, ok, err,
}
use kavo.Object.Manifest.{ChunkRef, Manifest, no_manifest}
use kavo.Meta.Entries.{Object, PartRef}
use kavo.Meta.Keys.{after}
use kavo.Cluster.Collect.{ChunkInfo, CollectStats, View, State, Calls, reference, scan_all}
use kavo.Cluster.Collect.Sweep.{CollectError, Pass, no_stats, sweep, collect}
use kavo.Cluster.Collect.Reference.{Holds, reference-Holds}
use kavo.Cluster.Collect.Scan.{add_all, scan_all_lem}
use kavo.Cluster.Collect.Left.{goes, sweep-goes}
use kavo.Cluster.Collect.Safety.{
  add_object, from_object, from_object-after, from_start, Snapshot, collect_keeps,
}

abbrev kept_id : Bytes
kept_id = text "AX000000"

abbrev view : View
view = record {
  self = text "n1";
  ring = record { vnodes = [] };
  peers = text "n1" ∷ [];
  sha256 = λ s. [];
}

abbrev ref : ChunkRef
ref = record { id = kept_id; size = 4; crc = 9; shard_crcs = [] }

abbrev manifest : Manifest
manifest = record no_manifest { nodes = text "n2" ∷ text "n1" ∷ []; chunks = ref ∷ [] }

abbrev object : Object
object = record { key = text "b/k"; manifest = manifest; revision = 3 }

abbrev objects : List Object
objects = object ∷ []

abbrev parts : List PartRef
parts = []

abbrev scan_objects : Bytes → ℕ → Result Bytes (List Object)
scan_objects from limit = ok (take limit (keep (from_object from) objects))

abbrev calls : Calls Bytes
calls = record {
  read_cursor = none;
  save_cursor = none;
  read_writing = none;
  done_writing = λ id. none;
  scan_parts = λ from limit. ok (take limit []);
  scan_objects = scan_objects;
  remove_chunk = λ id. none;
  scan_chunks = none;
}

abbrev kept : ChunkInfo
kept = record { id = kept_id; size = 4; modified = 1 }

abbrev garbage : ChunkInfo
garbage = record { id = text "AY000000"; size = 5; modified = 1 }

abbrev state : State
state = record { chunks = garbage ∷ kept ∷ []; cursor = []; writes = [] }

snapshot : Snapshot Bytes calls parts objects
snapshot = record {
  parts_sorted = tt;
  parts_named = refl;
  parts_scan = λ from limit. inr refl;
  objects_sorted = (tt, tt);
  objects_scan = λ from limit. inr refl;
}

named : kept_id ≢ []
named h = cc

holds : Holds view (text "b/k") manifest kept_id
holds = (ref, 1, Memᴰ.head refl, inl refl, named, refl)

collect_keeps_example :
    (r : CollectStats × Option (CollectError Bytes) × State) × (collect calls view 2 100 10 state
      ≡ some r)
    × Memᴰ kept r.2.chunks
collect_keeps_example =
    collect_keeps calls view 2 parts objects snapshot (omega arith) (omega arith) 100 10 state
      object kept (Memᴰ.head refl) (Memᴰ.tail (Memᴰ.head refl)) holds

slice_A : has_prefix kept_id (65 ∷ []) ≡ true
unfolding has_prefix
slice_A = refl

abbrev start_pass : Pass Bytes
start_pass = record { stats = no_stats; failed = 0; first = none; left = [] }

reference-Holds_example : has (reference view 65 (text "b/k") manifest []) kept_id ≡ true
reference-Holds_example = reference-Holds view 65 (text "b/k") manifest [] kept_id holds slice_A

sweep-goes_example :
    (sweep calls (kept_id ∷ []) [] 100 10 65 start_pass (garbage ∷ kept ∷ [])).left
    ≡ [] ++ keep (λ ci. not (goes calls (kept_id ∷ []) [] 100 10 65 ci)) (garbage ∷ kept ∷ [])
sweep-goes_example = sweep-goes calls (kept_id ∷ []) [] 100 10 65 start_pass (garbage ∷ kept ∷ [])

scan_all_lem_example :
    ((e : Bytes) × (scan_all scan_objects (λ o. after o.key) (add_object view 65) 2 [] []
        ≡ some (err e)))
    ⊎ (scan_all scan_objects (λ o. after o.key) (add_object view 65) 2 [] []
        ≡ some (ok (add_all (add_object view 65) objects [])))
scan_all_lem_example =
    scan_all_lem scan_objects (λ o. o.key) (λ o. after o.key) from_object (add_object view 65)
      objects (tt, tt) (λ from limit. inr refl) from_object-after 2 [] (from_start objects)
      (omega arith)
