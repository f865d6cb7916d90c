-- ===== src/Meta/Uploads.antt =====
-- internal/meta/upload.go: the records of multipart uploads, of their parts and of completions.
use kavo.Base.{
  ℕ, zero, suc, ◌+◌, Bool, true, false, not, ◌||◌, ltb, ◌==◌, Option, none, some, List, [], ◌∷◌,
  ◌++◌, length, Bytes, text, same, less, has_prefix, index, if◌then◌else◌, Result, ok, err,
}
use kavo.Base.Actions.{Action, pure, fail, given, fail_if, ◌>>=◌, ◌>>◌}
use kavo.Faults.{Fault, not_found}
use kavo.Object.Manifest.{Manifest, no_manifest}
use kavo.Meta.Entries.{PartRef, UploadRef}
use kavo.Meta.Keys.{after}
use kavo.Meta.Etcd.{Kv, created}
use kavo.Meta.Store.{
  Store, Upload, Completion, upload_key, part_key, upload_prefix, uploads_prefix, completion_key,
}

abbrev pub scan_budget : ℕ
scan_budget = 1024

-- strings.HasSuffix
unfoldable pub has_suffix : Bytes → Bytes → Bool
has_suffix [] suffix = same [] suffix
has_suffix (c ∷ cs) suffix = same (c ∷ cs) suffix || has_suffix cs suffix

module _ {W E : Type 0} (s : Store W E) where
  unfoldable pub create_upload : Bytes → Upload → Action W (Fault E) (Unit {0})
  create_upload id u = do bytes ← given (s.uploads.marshal u); s.etcd.put (upload_key s id) bytes

  unfoldable pub upload : Bytes → Action W (Fault E) Upload
  upload id = do
    found ← s.etcd.get (upload_key s id)
    elim found [ none ↦ fail not_found | some kv ↦ given (s.uploads.unmarshal kv.value) ]

  unfoldable pub commit_part : Bytes → ℕ → Manifest → Action W (Fault E) (Unit {0})
  commit_part id number m = do
    bytes ← given (s.manifests.marshal m)
    succeeded ← s.etcd.txn (created (upload_key s id) ∷ []) (part_key s id number) bytes
    fail_if (not succeeded) not_found

  -- The loop of Parts: the parts by their numbers
  unfoldable pub parts_of : (bad_key : Fault E) → List Kv → Result (Fault E) (List (ℕ × Manifest))
  parts_of bad_key [] = ok []
  parts_of bad_key (kv ∷ kvs) =
      let rest = parts_of bad_key kvs in
      elim (s.atoi (s.base kv.key)) [
        | none ↦ err bad_key
        | some number ↦ elim (s.manifests.unmarshal kv.value) [
          | err e ↦ err e
          | ok m ↦ elim rest [ err e ↦ err e | ok ps ↦ ok ((number, m) ∷ ps) ]
        ]
      ]

  -- Parts. `bad_key` is the error of strconv.Atoi.
  unfoldable pub parts : Fault E → Bytes → Action W (Fault E) (List (ℕ × Manifest))
  parts bad_key id = do
    kvs ← s.etcd.read_prefix (upload_prefix s id ++ text "parts/")
    given (parts_of bad_key kvs)

  -- The loop of ScanParts: a record that is not a part has the zero manifest
  unfoldable pub part_refs_of : List Kv → Result (Fault E) (List PartRef)
  part_refs_of [] = ok []
  part_refs_of (kv ∷ kvs) =
      let rest = part_refs_of kvs in
      let found : Result (Fault E) Manifest = elim (index kv.key (text "/parts/")) [
        | none ↦ ok no_manifest
        | some i ↦ s.manifests.unmarshal kv.value
      ] in
      elim found [
        | err e ↦ err e
        | ok m ↦ elim rest [
          | err e ↦ err e
          | ok ps ↦ ok (record { key = kv.key; manifest = m } ∷ ps)
        ]
      ]

  unfoldable pub scan_parts : Bytes → ℕ → Action W (Fault E) (List PartRef)
  scan_parts from limit =
      let start = if length from == 0 then uploads_prefix s else after from in
      let end = s.range_end (uploads_prefix s) in
      if less start end
      then (do kvs ← s.etcd.range start end limit; given (part_refs_of kvs))
      else pure []

  -- The loop of Uploads: what it found, and whether it stopped at the limit
  unfoldable pub uploads_of :
      Bytes → ℕ → List UploadRef → List Kv → Result (Fault E) (List UploadRef × Bool)
  uploads_of prefix limit found [] = ok (found, false)
  uploads_of prefix limit found (kv ∷ kvs) =
      if not (has_suffix kv.key (text "/upload"))
      then uploads_of prefix limit found kvs
      else elim (s.uploads.unmarshal kv.value) [
        | err e ↦ err e
        | ok u ↦
            let ref : UploadRef = record { id = s.base (s.dir kv.key); upload = u } in
            if not (has_prefix u.key prefix)
            then uploads_of prefix limit found kvs
            else if length found == limit
            then ok (found, true)
            else uploads_of prefix limit (found ++ ref ∷ []) kvs
      ]

  -- Uploads. resp.More is that the range holds more keys than were read, which is that the budget
  -- was used up.
  unfoldable pub uploads : Bytes → Bytes → ℕ → Action W (Fault E) (List UploadRef × Bool)
  uploads prefix after_id limit =
      let start =
        if length after_id == 0 then uploads_prefix s else after (upload_prefix s after_id) in
      let end = s.range_end (uploads_prefix s) in
      if less start end
      then (do
        kvs ← s.etcd.range start end scan_budget
        found ← given (uploads_of prefix limit [] kvs)
        pure (found.0, found.1 || length kvs == scan_budget))
      else pure ([], false)

  unfoldable pub finish_upload : Bytes → Completion → Action W (Fault E) (Unit {0})
  finish_upload id c = do
    bytes ← given (s.completions.marshal c)
    s.etcd.put_leased (completion_key s id) bytes

  unfoldable pub completion : Bytes → Action W (Fault E) Completion
  completion id = do
    found ← s.etcd.get (completion_key s id)
    elim found [ none ↦ fail not_found | some kv ↦ given (s.completions.unmarshal kv.value) ]

  unfoldable pub delete_upload : Bytes → Action W (Fault E) (Unit {0})
  delete_upload id = s.etcd.delete_range (upload_prefix s id)

  -- The loop of ExpireUploads over one page: how many uploads it forgot, and where the next page starts
  unfoldable pub expire_page : ℕ → List Kv → ℕ → Bytes → Action W (Fault E) (ℕ × Bytes)
  expire_page cutoff [] n start = pure (n, start)
  expire_page cutoff (kv ∷ kvs) n start =
      if not (has_suffix kv.key (text "/upload"))
      then expire_page cutoff kvs n (after kv.key)
      else (do
        u ← given (s.uploads.unmarshal kv.value)
        if ltb cutoff u.created then expire_page cutoff kvs n (after kv.key) else (do
          delete_upload (s.base (s.dir kv.key))
          expire_page cutoff kvs (n + 1) (after kv.key)))

  -- The loop of ExpireUploads, with `none` when the fuel runs out
  unfoldable pub expire_from : ℕ → ℕ → ℕ → Bytes → W → Option (Result (Fault E) ℕ × W)
  expire_from zero cutoff n start w = none
  expire_from (suc fuel) cutoff n start w =
      let page = s.etcd.range start (s.range_end (uploads_prefix s)) 64 w in
      if not (less start (s.range_end (uploads_prefix s))) then some (ok n, w) else elim page.0 [
        | err e ↦ some (err e, page.1)
        | ok [] ↦ some (ok n, page.1)
        | ok (kv ∷ kvs) ↦
            let done = expire_page cutoff (kv ∷ kvs) n start page.1 in
            elim done.0 [
              | err e ↦ some (err e, done.1)
              | ok (n', start') ↦ expire_from fuel cutoff n' start' done.1
            ]
      ]

  unfoldable pub expire_uploads : ℕ → ℕ → W → Option (Result (Fault E) ℕ × W)
  expire_uploads fuel cutoff = expire_from fuel cutoff 0 (uploads_prefix s)
