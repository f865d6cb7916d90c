-- ===== src/Meta/Writing.antt =====
-- internal/meta/writing.go: the records of the writes in flight, and the commits that need one.
use kavo.Base.{ℕ, not, ◌||◌, ◌==◌, List, [], ◌∷◌, map, length, Bytes, has_byte, if◌then◌else◌}
use kavo.Base.Actions.{Action, pure, fail, given, fail_if, ◌>>=◌, ◌>>◌}
use kavo.Faults.{Fault, not_writing, bad_write_id}
use kavo.Object.Manifest.{Manifest}
use kavo.Meta.Etcd.{created}
use kavo.Meta.Store.{Store, object_key, writing_key, writing_prefix, upload_key, part_key}
use kavo.Meta.Uploads.{upload}

module _ {W E : Type 0} (s : Store W E) where
  unfoldable pub mark_writing : Bytes → Bytes → Action W (Fault E) (Unit {0})
  mark_writing id node = do
    fail_if (length id == 0 || has_byte b'/' id) bad_write_id
    s.etcd.put (writing_key s id) node

  unfoldable pub done_writing : Bytes → Action W (Fault E) (Unit {0})
  done_writing id = s.etcd.delete (writing_key s id)

  -- Writing: the ids of the writes in flight, with the node of each
  unfoldable pub writing : Action W (Fault E) (List (Bytes × Bytes))
  writing = do
    kvs ← s.etcd.read_prefix (writing_prefix s)
    pure (map (λ kv. (s.base kv.key, kv.value)) kvs)

  -- whileWriting, with the key and the value that it puts
  unfoldable pub while_writing : Bytes → Bytes → Bytes → Action W (Fault E) (Unit {0})
  while_writing id key value = do
    succeeded ← s.etcd.txn (created (writing_key s id) ∷ []) key value
    fail_if (not succeeded) not_writing

  unfoldable pub commit_while_writing : Bytes → Manifest → Bytes → Action W (Fault E) (Unit {0})
  commit_while_writing key m id = do
    bytes ← given (s.manifests.marshal m)
    while_writing id (object_key s key) bytes

  unfoldable pub commit_part_while_writing :
      Bytes → ℕ → Manifest → Bytes → Action W (Fault E) (Unit {0})
  commit_part_while_writing id number m write_id = do
    bytes ← given (s.manifests.marshal m)
    succeeded ←
        s.etcd.txn (created (writing_key s write_id) ∷ created (upload_key s id) ∷ [])
          (part_key s id number) bytes
    if succeeded then pure tt else (do found ← upload s id; fail not_writing)
