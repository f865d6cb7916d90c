-- ===== src/Cluster/Tests/Completions.antt =====
-- A completion of an upload of two parts.
use kavo.Base.{
  ℕ, ◌+◌, ◌≡◌, ◌⊎◌, refl, Option, none, some, List, [], ◌∷◌, length, Bytes, text, Result, ok, err,
}
use kavo.Faults.{Fault, no_owner}
use kavo.Object.Manifest.{Manifest, no_manifest}
use kavo.Meta.Store.{Upload}
use kavo.Meta.Uploads as Records
use kavo.Meta.Store
use kavo.Cluster.Nodes.{Outside}
use kavo.Cluster.Uploads
use kavo.Cluster.Uploads.{CompletedPart, complete_with, complete_upload}
use kavo.Cluster.Uploads.Assembled.{OfParts, AnsweredAgain, complete_upload-Named}
use kavo.Cluster.Tests.World.{World, out, config, empty}

abbrev part_of : Bytes → ℕ → Manifest
part_of id size = record no_manifest {
  etag = id;
  size = size;
  chunks = record { id = id; size = size; crc = 0; shard_crcs = [] } ∷ [];
}

abbrev parts : List CompletedPart
parts = record { number = 1; etag = [] } ∷ record { number = 2; etag = text "\"b\"" } ∷ []

abbrev the_upload : Upload
the_upload = record { key = text "k"; content_type = []; created = 0; meta = [] }

-- The metadata holds the record of the upload, and the manifests of its parts by their keys.
abbrev kept : Outside World Bytes
kept = record out {
  meta = record out.meta {
    etcd = record out.meta.etcd {
      get = λ k w. (ok (some (record { key = k; value = text "u"; mod_revision = 1 })), w);
      read_prefix = λ k w. (
        ok (
            record { key = text "1"; value = text "a"; mod_revision = 1 }
            ∷ record { key = text "12"; value = text "b"; mod_revision = 1 }
            ∷ []),
        w,
      );
    };
    manifests = record { marshal = λ m. ok m.etag; unmarshal = λ b. ok (part_of b (length b + 2)) };
    uploads = record { marshal = λ u. ok u.key; unmarshal = λ b. ok the_upload };
    base = λ s. s;
    atoi = λ s. some (length s);
  };
}

abbrev run : Result (Fault Bytes) Manifest × World
run = complete_upload kept config (λ b. some b) no_owner (text "id") parts none none none empty

abbrev manifest_of : Result (Fault Bytes) Manifest → Manifest
manifest_of (ok m) = m
manifest_of (err e) = no_manifest

run_ok : run ≡ (ok (manifest_of run.0), run.1)
unfolding complete_with Uploads.is_sorted Uploads.assemble Uploads.add_part Uploads.part_at
    Uploads.trim_end Uploads.trim_start Uploads.same_nodes Uploads.commit_completion
    kavo.Meta.Manifests.commit complete_upload Records.upload Records.parts Records.parts_of
    Store.upload_prefix kavo.Base.same
run_ok = refl

complete_upload-Named_example :
    OfParts kept config (λ b. some b) no_owner (text "id") parts (manifest_of run.0) empty
    ⊎ AnsweredAgain kept config (text "id") (manifest_of run.0) empty
complete_upload-Named_example =
    complete_upload-Named kept config (λ b. some b) no_owner (text "id") parts none none none empty
      run.1 (manifest_of run.0) run_ok
