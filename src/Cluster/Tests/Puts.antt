-- ===== src/Cluster/Tests/Puts.antt =====
-- Puts of five bytes in chunks of two.
use kavo.Base.{
  ℕ, length, ◌⊎◌, ◌≡◌, refl, true, false, Option, none, some, List, [], ◌∷◌, All, Bytes, text,
  Result, ok, err,
}
use kavo.Faults.{Fault}
use kavo.Ring.{owners, partition_for}
use kavo.Object.Manifest.{ChunkRef, Manifest, no_manifest}
use kavo.Object.Write
use kavo.Object.Write.{Source}
use kavo.Cluster.Nodes.{width}
use kavo.Cluster.Put
use kavo.Cluster.Put.{Declared, PutOptions, equal_fold, put}
use kavo.Cluster.Put.Durable.{Stored}
use kavo.Cluster.Put.Acknowledged.{put_acknowledged}
use kavo.Cluster.Put.Digests.{Agrees, put_digests}
use kavo.Cluster.Tests.World.{sum, World, Holds, out, config, live, empty, durable}

abbrev undeclared : Declared Bytes
undeclared = record { header = none; trailing = none }

abbrev options : PutOptions Bytes
options = record {
  content_type = text "text/plain";
  etag = [];
  size = 5;
  meta = [];
  md5 = [];
  crc32c = record { header = some 5; trailing = none };
  crc32 = undeclared;
  crc64nvme = undeclared;
}

abbrev body : Source
body = record { content = text "hello"; fails = false }

abbrev run : Option (Result (Fault Bytes) Manifest × World)
run = put out config 6 (text "w-") live (text "key") body options empty

abbrev manifest_of : Option (Result (Fault Bytes) Manifest × World) → Manifest
manifest_of none = no_manifest
manifest_of (some (err e, w)) = no_manifest
manifest_of (some (ok m, w)) = m

abbrev world_of : Option (Result (Fault Bytes) Manifest × World) → World
world_of none = empty
world_of (some (r, w)) = w

run_ok : run ≡ some (ok (manifest_of run), world_of run)
unfolding put Put.write owners sum partition_for Write.write Put.placeable width Write.write_from
    Write.read_chunk Write.read_or_end Put.store_one kavo.Meta.Writing.mark_writing
    kavo.Object.Manifest.write_id kavo.Object.Manifest.chunk_id kavo.Object.Manifest.padded
    kavo.Base.decimal kavo.Base.has_byte Put.store_either kavo.Cluster.Replicate.replicate
    kavo.Cluster.Replicate.count_acks kavo.Cluster.Nodes.store_chunk kavo.Cluster.Nodes.store_as
    kavo.Base.decimal_onto kavo.Base.has kavo.Base.same kavo.Cluster.Nodes.lookup Put.check_crc
    Put.checks Put.commit_written Put.declared_value Put.equal_fold Put.finish_manifest
    Put.stop_writing kavo.Meta.Manifests.commit kavo.Meta.Store.object_key
    kavo.Meta.Store.writing_key kavo.Meta.Writing.commit_while_writing
    kavo.Meta.Writing.done_writing kavo.Meta.Writing.while_writing kavo.Ring.big_endian
    kavo.Ring.hash_pos kavo.Ring.lap kavo.Ring.node_at kavo.Ring.search_pos
run_ok = refl

put_acknowledged_example :
    ((manifest_of run).nodes
      ≡ owners live.ring (partition_for out.sha256 (text "key")) (width config))
    × All
        (λ ref. Stored out config live Holds durable (manifest_of run).nodes ref (world_of run))
        (manifest_of run).chunks
put_acknowledged_example =
    put_acknowledged out config Holds durable live 6 (text "w-") (text "key") body options empty
      (world_of run) (manifest_of run) run_ok

put_digests_example :
    ((manifest_of run).crc32c ≡ some 5)
    × ((manifest_of run).crc32 ≡ some (sum (text "hello")))
    × ((manifest_of run).crc64nvme ≡ some (sum (text "hello")))
    × ((manifest_of run).etag ≡ 5 ∷ [])
    × ((length options.md5 ≡ 0) ⊎ (equal_fold [] (5 ∷ []) ≡ true))
    × Agrees out config live options.crc32c 5
    × Agrees out config live options.crc32 (sum (text "hello"))
    × Agrees out config live options.crc64nvme (sum (text "hello"))
put_digests_example =
    put_digests out config live 6 (text "w-") (text "key") body options empty (world_of run)
      (manifest_of run) run_ok
