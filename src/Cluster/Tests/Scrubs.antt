-- ===== src/Cluster/Tests/Scrubs.antt =====
-- A scrub of three objects whose chunk has rotted and lies on another node.
use mathlib.Core.Path.{Path}
use kavo.Base.{
  ◌≡◌, refl, true, false, none, some, Bytes, same, less, has_prefix, trim_prefix, Result, ok,
}
use kavo.Faults.{Fault}
use kavo.Cluster.Nodes.{Outside}
use kavo.Cluster.Scrub.{Disk, ScrubStats, scrub, scrub_object, scrub_chunk, rebuild_from_peers}
use kavo.Cluster.Scrub.Accounts.{Balanced, scrub-Balanced}
use kavo.Cluster.Tests.World.{World, config, live}
use kavo.Cluster.Tests.Passes.{manifest, one_copy}
use kavo.Cluster.List.Tests as Listing

abbrev out : Outside World Bytes
out = record Listing.out {
  meta = record Listing.out.meta {
    manifests = record { marshal = λ m. ok m.etag; unmarshal = λ b. ok manifest };
  };
}

abbrev disk : Disk World Bytes
disk = record { has_chunk = λ id w. (ok true, w); read_all = λ id crc w. ((ok false, 2), w) }

abbrev stats : ScrubStats
stats = record { copies_read = 3; bytes_read = 6; rotted = 3; rebuilt = 3; unrecovered = 0 }

abbrev left_world : World
left_world = elim (scrub out disk config live 3 one_copy) [
  | none ↦ one_copy
  | some (r, (st, w)) ↦ w
]

scrubbed : scrub out disk config live 3 one_copy ≡ some (ok tt, (stats, left_world))
unfolding scrub scrub_object scrub_chunk rebuild_from_peers less has_prefix trim_prefix same
    kavo.Cluster.Walk.walk kavo.Cluster.Walk.walk_from kavo.Cluster.Walk.visit_page
    kavo.Cluster.Walk.each kavo.Meta.Manifests.cursor kavo.Meta.Manifests.save_cursor
    kavo.Meta.Manifests.scan kavo.Meta.Manifests.scan_objects kavo.Meta.Manifests.objects_of
    kavo.Meta.Store.object_key kavo.Meta.Store.cursor_key kavo.Cluster.Nodes.lookup
    kavo.Cluster.Nodes.read_addr kavo.Meta.Keys.after
scrubbed = refl

scrub-Balanced_example :
    Balanced stats
    × (Path (Result (Fault Bytes) (Unit {0})) (ok tt) (ok tt) → stats.rotted ≡ stats.rebuilt)
scrub-Balanced_example =
    scrub-Balanced out disk config live 3 one_copy left_world (ok tt) stats scrubbed
