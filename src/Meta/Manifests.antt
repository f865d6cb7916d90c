-- ===== src/Meta/Manifests.antt =====
-- internal/meta/meta.go: committing, reading, deleting and scanning manifests, and the cursors of the
-- background passes.
use kavo.Base.{
  ℕ, not, none, some, List, [], ◌∷◌, Bytes, less, if◌then◌else◌, trim_prefix, Result, ok, err,
}
use kavo.Base.Actions.{Action, pure, fail, given, fail_if, ◌>>=◌}
use kavo.Faults.{Fault, not_found, changed}
use kavo.Object.Manifest.{Manifest}
use kavo.Meta.Entries.{Object, Entry}
use kavo.Meta.Etcd.{Kv, modified_at}
use kavo.Meta.Store.{Store, objects, object_key, cursor_key}

module _ {W E : Type 0} (s : Store W E) where
  unfoldable pub commit : Bytes → Manifest → Action W (Fault E) (Unit {0})
  commit key m = do bytes ← given (s.manifests.marshal m); s.etcd.put (object_key s key) bytes

  unfoldable pub get : Bytes → Action W (Fault E) Manifest
  get key = do
    found ← s.etcd.get (object_key s key)
    elim found [ none ↦ fail not_found | some kv ↦ given (s.manifests.unmarshal kv.value) ]

  unfoldable pub delete : Bytes → Action W (Fault E) (Unit {0})
  delete key = s.etcd.delete (object_key s key)

  unfoldable pub commit_if_unchanged : Bytes → Manifest → ℕ → Action W (Fault E) (Unit {0})
  commit_if_unchanged key m revision = do
    bytes ← given (s.manifests.marshal m)
    succeeded ← s.etcd.txn (modified_at (object_key s key) revision ∷ []) (object_key s key) bytes
    fail_if (not succeeded) changed

  -- scan. Go compares the strings with `>` and `>=`.
  unfoldable pub scan : Bytes → Bytes → ℕ → Action W (Fault E) (List Kv)
  scan prefix from limit =
      let start = object_key s (if less prefix from then from else prefix) in
      let end = s.range_end (object_key s prefix) in
      if less start end then s.etcd.range start end limit else pure []

  -- The loops of ScanObjects and ScanEntries over what was read
  unfoldable pub objects_of : List Kv → Result (Fault E) (List Object)
  objects_of [] = ok []
  objects_of (kv ∷ kvs) =
      let rest = objects_of kvs in
      elim (s.manifests.unmarshal kv.value) [
        | err e ↦ err e
        | ok m ↦
            let o : Object = record {
              key = trim_prefix kv.key (objects s);
              manifest = m;
              revision = kv.mod_revision;
            } in
            elim rest [ err e ↦ err e | ok os ↦ ok (o ∷ os) ]
      ]

  unfoldable pub entries_of : List Kv → Result (Fault E) (List Entry)
  entries_of [] = ok []
  entries_of (kv ∷ kvs) =
      let rest = entries_of kvs in
      elim (s.entry kv.value) [
        | err e ↦ err e
        | ok (size, etag, modified) ↦
            let entry : Entry = record {
              key = trim_prefix kv.key (objects s);
              size = size;
              etag = etag;
              modified = modified;
            } in
            elim rest [ err e ↦ err e | ok os ↦ ok (entry ∷ os) ]
      ]

  unfoldable pub scan_objects : Bytes → Bytes → ℕ → Action W (Fault E) (List Object)
  scan_objects prefix from limit = do kvs ← scan prefix from limit; given (objects_of kvs)

  unfoldable pub scan_entries : Bytes → Bytes → ℕ → Action W (Fault E) (List Entry)
  scan_entries prefix from limit = do kvs ← scan prefix from limit; given (entries_of kvs)

  unfoldable pub save_cursor : Bytes → Bytes → Bytes → Action W (Fault E) (Unit {0})
  save_cursor task node key = s.etcd.put (cursor_key s task node) key

  unfoldable pub cursor : Bytes → Bytes → Action W (Fault E) Bytes
  cursor task node = do
    found ← s.etcd.get (cursor_key s task node)
    elim found [ none ↦ pure [] | some kv ↦ pure kv.value ]
