-- ===== src/Cluster/Uploads.antt =====
-- internal/cluster/upload.go: multipart uploads. The decoding of hexadecimal digits of package
-- encoding/hex is an argument, and so is the error of strconv.Atoi on the key of a part. A part number
-- is a natural number: zero stands for all that are not positive.
pub mod Assembled
use kavo.Base.{
  ℕ, zero, suc, ◌+◌, ◌*◌, ◌/◌, Bool, true, false, not, ◌&&◌, ◌||◌, ltb, leb, ◌==◌, Option, none,
  some, List, [], ◌∷◌, ◌++◌, length, decimal, Bytes, text, same, if◌then◌else◌, Result, ok, err,
}
use kavo.Base.Actions.{Action, pure, fail, given, fail_if, attempt, ignore, ◌>>=◌, ◌>>◌}
use kavo.Faults.{
  Fault, not_found, no_such_part, part_mismatch, part_order, part_placement, bad_etag, bad_digest,
}
use kavo.Ec.{Scheme}
use kavo.Object.Manifest.{Manifest, Part, no_manifest}
use kavo.Object.Write.{Source}
use kavo.Object.Crc.{combine_crc32c, combine_crc32, combine_crc64nvme}
use kavo.Meta.Store.{Upload, Completion}
use kavo.Meta.Manifests.{commit}
use kavo.Meta.Uploads
use kavo.Meta.Writing.{commit_part_while_writing}
use kavo.Cluster.Nodes.{Config, Membership, Outside}
use kavo.Cluster.Put.{PutOptions, write, checks, stop_writing}

abbrev pub max_parts : ℕ
max_parts = 10000

abbrev pub upload_max_age : ℕ
upload_max_age = 604800000000000

pub record CompletedPart : Type 0 where
  pub number : ℕ
  pub etag : Bytes

-- Part: a part as a listing reports it
pub record ListedPart : Type 0 where
  pub number : ℕ
  pub etag : Bytes
  pub size : ℕ
  pub modified : ℕ

-- strings.Trim of quotes
unfoldable pub trim_start : Bytes → Bytes
trim_start [] = []
trim_start (c ∷ cs) = let rest = trim_start cs in if c == b'"' then rest else c ∷ cs

unfoldable pub trim_end : Bytes → Bytes
trim_end [] = []
trim_end (c ∷ cs) =
    let rest = trim_end cs in if (length rest == 0) && (c == b'"') then [] else c ∷ rest

-- slices.IsSortedFunc by number
unfoldable pub is_sorted : List CompletedPart → Bool
is_sorted [] = true
is_sorted (p ∷ []) = true
is_sorted (p ∷ q ∷ ps) = leb p.number q.number && is_sorted (q ∷ ps)

-- stored[number], where the last entry of a number counts
unfoldable pub part_at : List (ℕ × Manifest) → ℕ → Option Manifest
part_at [] number = none
part_at ((k, m) ∷ stored) number = elim (part_at stored number) [
  | some found ↦ some found
  | none ↦ if k == number then some m else none
]

-- slices.Equal
unfoldable pub same_nodes : List Bytes → List Bytes → Bool
same_nodes [] [] = true
same_nodes [] (y ∷ ys) = false
same_nodes (x ∷ xs) [] = false
same_nodes (x ∷ xs) (y ∷ ys) = same x y && same_nodes xs ys

abbrev pub same_coding : Scheme → Scheme → Bool
same_coding a b = (a.data_shards == b.data_shards) && (a.parity == b.parity)

-- The checksum of the object so far, with that of the next part
abbrev pub combined : (ℕ → ℕ → ℕ → ℕ) → Bool → Option ℕ → Option ℕ → ℕ → Option ℕ
combined combine first old none size = none
combined combine first none (some b) size = if first then some b else none
combined combine first (some a) (some b) size = some (combine a b size)

-- Whether a declared checksum is the one of the object
abbrev pub confirmed : Option ℕ → Option ℕ → Bool
confirmed none sum = true
confirmed (some d) none = false
confirmed (some d) (some sum) = d == sum

-- The manifest that a completion builds up, and the bytes that its ETag is the digest of
pub record Assembly : Type 0 where
  pub final : Manifest
  pub sums : Bytes

abbrev pub with_part : Bool → ℕ → Manifest → Bytes → Assembly → Assembly
with_part first number m raw a = record {
  final = record a.final {
    nodes = if first then m.nodes else a.final.nodes;
    coding = if first then m.coding else a.final.coding;
    chunks = a.final.chunks ++ m.chunks;
    size = a.final.size + m.size;
    parts =
        a.final.parts
        ++ record {
          number = number;
          size = m.size;
          crc32c = m.crc32c;
          crc32 = m.crc32;
          crc64nvme = m.crc64nvme;
        }
          ∷ [];
    crc32c = combined combine_crc32c first a.final.crc32c m.crc32c m.size;
    crc32 = combined combine_crc32 first a.final.crc32 m.crc32 m.size;
    crc64nvme = combined combine_crc64nvme first a.final.crc64nvme m.crc64nvme m.size;
  };
  sums = a.sums ++ raw;
}

module _ {E : Type 0} (hex_decode : Bytes → Option Bytes) (stored : List (ℕ × Manifest)) where
  -- One round of the loop of CompleteUpload, for the part after the one of number `prev`
  unfoldable pub add_part : Bool → ℕ → CompletedPart → Assembly → Result (Fault E) Assembly
  add_part first prev p a =
      if not first && (p.number == prev) then err part_order else elim (part_at stored p.number) [
        | none ↦ err no_such_part
        | some m ↦
            let want = trim_end (trim_start p.etag) in
            if not (length want == 0) && not (same want m.etag)
            then err part_mismatch
            else if not first
                && (not (same_nodes a.final.nodes m.nodes)
                    || not (same_coding a.final.coding m.coding))
            then err part_placement
            else elim (hex_decode m.etag) [
              | none ↦ err bad_etag
              | some raw ↦ ok (with_part first p.number m raw a)
            ]
      ]

  unfoldable pub assemble : Bool → ℕ → List CompletedPart → Assembly → Result (Fault E) Assembly
  assemble first prev [] a = ok a
  assemble first prev (p ∷ ps) a = elim (add_part first prev p a) [
    | err e ↦ err e
    | ok a' ↦ assemble false p.number ps a'
  ]

-- errors.Is with meta.ErrNotFound
abbrev pub is_not_found : {E : Type 0} → Fault E → Bool
is_not_found e = elim e [ not_found ↦ true | _ ↦ false ]

module _ {W E : Type 0} (out : Outside W E) (c : Config) where
  unfoldable pub create_upload : Bytes → Bytes → List (Bytes × Bytes) → Action W (Fault E) Bytes
  create_upload key content_type meta = do
    id ← (λ w. (ok (out.random_text w), w))
    now ← (λ w. (ok (out.now w), w))
    Uploads.create_upload out.meta id
        (record { key = key; content_type = content_type; created = now; meta = meta })
    pure id

  -- The end of UploadPart, after write and the checks
  abbrev pub settle_part :
      Bytes → ℕ → Manifest → Bytes → Result (Fault E) (Unit {0}) → Action W (Fault E) Manifest
  settle_part id number m writing (err e) w = (err e, (stop_writing out c writing w).1)
  settle_part id number m writing (ok u) w =
      (do
        committed ← attempt (
            if length writing == 0
            then Uploads.commit_part out.meta id number m
            else commit_part_while_writing out.meta id number m writing)
        stop_writing out c writing
        given committed
        pure m)
        w

  -- UploadPart. Its checks are those of Put without the MD5.
  unfoldable pub upload_part :
      ℕ
      → Bytes
      → Membership
      → Bytes
      → ℕ
      → Source
      → PutOptions E
      → W
      → Option (Result (Fault E) Manifest × W)
  upload_part fuel prefix live id number body opts w =
      let (found, w1) = Uploads.upload out.meta id w in
      if ltb number 1 || ltb max_parts number then some (err no_such_part, w) else elim found [
        | err e ↦ some (err e, w1)
        | ok u ↦ elim (write out c fuel prefix live u.key body opts.size w1) [
          | none ↦ none
          | some (err e, w2) ↦ some (err e, w2)
          | some (ok (m, writing), w2) ↦
              some (settle_part id number m writing (checks out c (record opts { md5 = [] }) m) w2)
        ]
      ]

  -- The end of CompleteUpload: the checksums that the client declares, and the commit
  unfoldable pub commit_completion :
      Bytes → Upload → ℕ → Option ℕ → Option ℕ → Option ℕ → Manifest → Action W (Fault E) Manifest
  commit_completion id u count crc32c crc64nvme crc32 final = do
    fail_if (not (confirmed crc32c final.crc32c)) bad_digest
    fail_if (not (confirmed crc32 final.crc32)) bad_digest
    fail_if (not (confirmed crc64nvme final.crc64nvme)) bad_digest
    commit out.meta u.key final
    ignore (
        Uploads.finish_upload out.meta id
          (record { key = u.key; etag = final.etag; when = final.modified; parts = count }))
    ignore (Uploads.delete_upload out.meta id)
    pure final

  -- What CompleteUpload starts from and what it adds at the end
  abbrev pub start_assembly : Upload → Assembly
  start_assembly u = record {
    final = record no_manifest { content_type = u.content_type; meta = u.meta };
    sums = [];
  }

  abbrev pub finished : ℕ → ℕ → Assembly → Manifest
  finished count now a = record a.final {
    etag = out.md5 a.sums ++ text "-" ++ decimal count;
    modified = now / 1000000000 * 1000000000;
  }

  -- CompleteUpload, when the record of the upload and its parts have been read
  unfoldable pub complete_with :
      (Bytes → Option Bytes)
      → List (ℕ × Manifest)
      → Bytes
      → Upload
      → List CompletedPart
      → Option ℕ
      → Option ℕ
      → Option ℕ
      → Action W (Fault E) Manifest
  complete_with hex_decode stored id u parts crc32c crc64nvme crc32 w =
      if length parts == 0
      then (err no_such_part, w)
      else if not (is_sorted parts)
      then (err part_order, w)
      else elim (assemble {E = E} hex_decode stored true 0 parts (start_assembly u)) [
        | err e ↦ (err e, w)
        | ok a ↦
            commit_completion id u (length parts) crc32c crc64nvme crc32
              (finished (length parts) (out.now w) a) w
      ]

  unfoldable pub complete_upload :
      (Bytes → Option Bytes)
      → Fault E
      → Bytes
      → List CompletedPart
      → Option ℕ
      → Option ℕ
      → Option ℕ
      → Action W (Fault E) Manifest
  complete_upload hex_decode bad_key id parts crc32c crc64nvme crc32 w =
      let (found, w1) = Uploads.upload out.meta id w in
      elim found [
        | ok u ↦
            let (read, w2) = Uploads.parts out.meta bad_key id w1 in
            elim read [
              | err e ↦ (err e, w2)
              | ok stored ↦ complete_with hex_decode stored id u parts crc32c crc64nvme crc32 w2
            ]
        | err e ↦
            let (done, w2) = Uploads.completion out.meta id w1 in
            if is_not_found e
            then (
              elim done [
                | ok d ↦ ok (record no_manifest { etag = d.etag; modified = d.when })
                | err e' ↦ err e
              ],
              w2,
            )
            else (err e, w1)
      ]

  unfoldable pub abort_upload : Bytes → Action W (Fault E) (Unit {0})
  abort_upload id = do u ← Uploads.upload out.meta id; Uploads.delete_upload out.meta id
