-- ===== src/Meta/Store.antt =====
-- internal/meta: the store of manifests, uploads and records, and the keys that they live under. What
-- the store asks of etcd, of package path and of the decoders are fields of `Store`.
use kavo.Base.{ℕ, Option, Bytes, ◌++◌, List, [], ◌∷◌, text, Result}
use kavo.Faults.{Fault}
use kavo.Object.Manifest.{Manifest, padded}
use kavo.Meta.Etcd.{Etcd, Json}

-- Upload and Completion. A time is a number of nanoseconds.
pub record Upload : Type 0 where
  pub key : Bytes
  pub content_type : Bytes
  pub created : ℕ
  pub meta : List (Bytes × Bytes)

pub record Completion : Type 0 where
  pub key : Bytes
  pub etag : Bytes
  pub when : ℕ
  pub parts : ℕ

-- Store, with the decoding of an entry's size, ETag and time, path.Join, path.Base, path.Dir, strconv.Atoi and clientv3.GetPrefixRangeEnd
pub record Store (W E : Type 0) : Type 0 where
  pub etcd : Etcd W E
  pub manifests : Json E Manifest
  pub entry : Bytes → Result (Fault E) (ℕ × Bytes × ℕ)
  pub uploads : Json E Upload
  pub completions : Json E Completion
  pub join : List Bytes → Bytes
  pub base : Bytes → Bytes
  pub dir : Bytes → Bytes
  pub atoi : Bytes → Option ℕ
  pub range_end : Bytes → Bytes
  pub prefix : Bytes

module _ {W E : Type 0} (s : Store W E) where
  -- The field `objects` that Open fills
  abbrev pub objects : Bytes
  objects = s.join (s.prefix ∷ text "objects" ∷ []) ++ text "/"

  -- key and cursorKey
  unfoldable pub object_key : Bytes → Bytes
  object_key key = objects ++ key

  unfoldable pub cursor_key : Bytes → Bytes → Bytes
  cursor_key task node = s.join (s.prefix ∷ text "cursors" ∷ task ∷ node ∷ [])

  -- writingPrefix and writingKey
  abbrev pub writing_prefix : Bytes
  writing_prefix = s.join (s.prefix ∷ text "writing" ∷ []) ++ text "/"

  unfoldable pub writing_key : Bytes → Bytes
  writing_key id = writing_prefix ++ id

  abbrev pub uploads_prefix : Bytes
  uploads_prefix = s.join (s.prefix ∷ text "uploads" ∷ []) ++ text "/"

  -- uploadPrefix, uploadKey, partKey and completionKey
  unfoldable pub upload_prefix : Bytes → Bytes
  upload_prefix id = s.join (s.prefix ∷ text "uploads" ∷ id ∷ []) ++ text "/"

  unfoldable pub upload_key : Bytes → Bytes
  upload_key id = upload_prefix id ++ text "upload"

  unfoldable pub part_key : Bytes → ℕ → Bytes
  part_key id number = upload_prefix id ++ text "parts/" ++ padded 5 number

  unfoldable pub completion_key : Bytes → Bytes
  completion_key id = s.join (s.prefix ∷ text "completed" ∷ id ∷ [])
