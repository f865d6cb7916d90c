-- ===== src/Cluster/Put.antt =====
-- internal/cluster/cluster.go: write and Put. The digests that run beside the storing of a chunk are
-- functions of the bytes handed to them so far, which the callback's state collects.
pub mod Durable
pub mod Grows
pub mod Acknowledged
pub mod Digests
use kavo.Base.{
  ℕ, zero, suc, ◌+◌, ◌-◌, ◌*◌, ◌/◌, Bool, true, false, not, ◌&&◌, ◌||◌, ltb, ◌==◌, Option, none,
  some, List, [], ◌∷◌, ◌++◌, length, Bytes, same, if◌then◌else◌, Result, ok, err,
}
use kavo.Base.Actions.{Action, pure, fail, given, attempt, ignore, ◌>>=◌, ◌>>◌}
use kavo.Faults.{Fault, quorum, bad_digest, no_nodes, too_few_nodes, bad_chunk_size, read_failed}
use kavo.Ec.{Scheme, is_zero}
use kavo.Ring.{owners, partition_for}
use kavo.Object.Manifest.{ChunkRef, Manifest, write_id}
use kavo.Object.Write
use kavo.Object.Write.{Source, WriteError, refused}
use kavo.Meta.Manifests.{commit}
use kavo.Meta.Writing.{mark_writing, done_writing, commit_while_writing}
use kavo.Cluster.Nodes.{Config, Membership, Outside, width, or_else}
use kavo.Cluster.Replicate.{replicate}
use kavo.Cluster.Erasure.{encode}

-- The checksum that a client declares: in a header, and in a trailer, which is read after the body.
-- `trailing` is `none` if there is no trailer.
pub record Declared (E : Type 0) : Type 0 where
  pub header : Option ℕ
  pub trailing : Option (Result (Fault E) (Option ℕ))

pub record PutOptions (E : Type 0) : Type 0 where
  pub content_type : Bytes
  pub etag : Bytes
  pub size : ℕ
  pub meta : List (Bytes × Bytes)
  pub md5 : Bytes
  pub crc32c : Declared E
  pub crc32 : Declared E
  pub crc64nvme : Declared E

-- strings.EqualFold on hexadecimal digits
abbrev pub lower : ℕ → ℕ
lower b = if ltb 64 b && ltb b 91 then b + 32 else b

unfoldable pub equal_fold : Bytes → Bytes → Bool
equal_fold [] [] = true
equal_fold [] (y ∷ ys) = false
equal_fold (x ∷ xs) [] = false
equal_fold (x ∷ xs) (y ∷ ys) = (lower x == lower y) && equal_fold xs ys

-- Two checksums that are both there and not the same
abbrev pub differ : Option ℕ → Option ℕ → Bool
differ none b = false
differ (some a) none = false
differ (some a) (some b) = not (a == b)

module _ {E : Type 0} where
  -- The middle of checkCRC32C: the declared value, once the trailer has been read
  unfoldable pub declared_value : Declared E → Result (Fault E) (Option ℕ)
  declared_value d = elim d.trailing [
    | none ↦ ok d.header
    | some (err e) ↦ err e
    | some (ok v) ↦ elim d.header [
      | none ↦ ok v
      | some h ↦ if differ v (some h) then err bad_digest else ok (some h)
    ]
  ]

  -- checkCRC32C, checkCRC32 and checkCRC64NVME, which differ in the field of the manifest
  unfoldable pub check_crc : Option ℕ → Declared E → Result (Fault E) (Unit {0})
  check_crc computed d = elim (declared_value d) [
    | err e ↦ err e
    | ok v ↦ if differ v computed then err bad_digest else ok tt
  ]

  -- The errors of object.Write
  abbrev pub of_write : {A : Type 0} → Result (WriteError (Fault E)) A → Result (Fault E) A
  of_write (ok a) = ok a
  of_write (err (refused e)) = err e
  of_write (err Write.bad_chunk_size) = err bad_chunk_size
  of_write (err Write.read_failed) = err read_failed

-- The state of write's callback: the world, the id of the write's record or nothing, and the bytes
-- that the digests have seen
pub record Progress (W : Type 0) : Type 0 where
  pub world : W
  pub writing : Bytes
  pub hashed : Bytes

module _ {W E : Type 0} (out : Outside W E) (c : Config) where
  unfoldable pub stop_writing : Bytes → Action W (Fault E) (Unit {0})
  stop_writing writing =
      if length writing == 0 then pure tt else ignore (done_writing out.meta writing)

  -- Storing one chunk in either mode, with the reference that results
  unfoldable pub store_either :
      Membership → List Bytes → ChunkRef → Bytes → Action W (Fault E) ChunkRef
  store_either live owners ref bytes w =
      if is_zero c.scheme
      then (do replicate out c live ref bytes owners; pure ref) w
      else encode out c live ref bytes owners w

  -- The rest of the callback, after the record of the write, if it makes one
  abbrev pub store_marked :
      Membership
      → List Bytes
      → ChunkRef
      → Bytes
      → Bytes
      → Bytes
      → Result (Fault E) (Unit {0}) × W
      → Result (Fault E) ChunkRef × Progress W
  store_marked live owners ref bytes writing hashed (err e, w) =
      (err e, record { world = w; writing = writing; hashed = hashed })
  store_marked live owners ref bytes writing hashed (ok u, w) =
      let stored = store_either live owners ref bytes w in
      (stored.0, record { world = stored.1; writing = writing; hashed = hashed ++ bytes })

  -- The callback of write
  unfoldable pub store_one :
      Membership
      → List Bytes
      → ChunkRef
      → Bytes
      → Progress W
      → Result (Fault E) ChunkRef × Progress W
  store_one live owners ref bytes p =
      let announces = (length p.writing == 0) && (length bytes == c.chunk_size) in
      let writing = if announces then write_id ref.id else p.writing in
      let marked = (if announces then mark_writing out.meta writing c.self else pure tt) p.world in
      store_marked live owners ref bytes writing p.hashed marked

  -- Whether a placement can take a write, or why not
  unfoldable pub placeable : List Bytes → Result (Fault E) (Unit {0})
  placeable nodes =
      if length nodes == 0
      then err no_nodes
      else if not (is_zero c.scheme) && ltb (length nodes) (width c)
      then err too_few_nodes
      else if is_zero c.scheme && ltb (length nodes) c.quorum
      then err quorum
      else ok tt

  -- The manifest that a write ends with
  unfoldable pub finish_manifest : List Bytes → Progress W → Manifest → Manifest
  finish_manifest nodes p m = record m {
    nodes = nodes;
    coding = c.scheme;
    etag = out.md5 p.hashed;
    crc32c = some (out.crc32c p.hashed);
    crc32 = some (out.crc32 p.hashed);
    crc64nvme = some (out.crc64 p.hashed);
    modified = out.now p.world / 1000000000 * 1000000000;
  }

  -- The end of write, after the loop
  abbrev pub finish_write :
      List Bytes → Result (Fault E) Manifest → Progress W → Result (Fault E) (Manifest × Bytes) × W
  finish_write nodes (err e) p = (err e, (stop_writing p.writing p.world).1)
  finish_write nodes (ok m) p = (ok (finish_manifest nodes p m, p.writing), p.world)

  -- write: the manifest and the id of the write's record. `md5` gives hexadecimal digits. The fuel is
  -- that of the loop of object.Write, and `prefix` the random text of the chunks' ids.
  unfoldable pub write :
      ℕ
      → Bytes
      → Membership
      → Bytes
      → Source
      → ℕ
      → W
      → Option (Result (Fault E) (Manifest × Bytes) × W)
  write fuel prefix live key body expect w =
      let nodes = owners live.ring (partition_for out.sha256 key) (width c) in
      let start : Progress W = record { world = w; writing = []; hashed = [] } in
      elim (placeable nodes) [
        | err e ↦ some (err e, w)
        | ok u ↦
            elim (Write.write out.crc32c (store_one live nodes) prefix fuel body c.chunk_size expect
              start) [ none ↦ none | some (r, p) ↦ some (finish_write nodes (of_write r) p) ]
      ]

  -- The checks of Put before the commit
  unfoldable pub checks : PutOptions E → Manifest → Result (Fault E) (Unit {0})
  checks opts m =
      if not (length opts.md5 == 0) && not (equal_fold opts.md5 m.etag)
      then err bad_digest
      else elim (check_crc m.crc32c opts.crc32c) [
        | err e ↦ err e
        | ok u ↦ elim (check_crc m.crc32 opts.crc32) [
          | err e ↦ err e
          | ok u ↦ check_crc m.crc64nvme opts.crc64nvme
        ]
      ]

  -- The end of Put: the commit, with the record if there is one, and then the end of the record
  unfoldable pub commit_written : Bytes → Manifest → Bytes → Action W (Fault E) Manifest
  commit_written key m writing = do
    committed ← attempt (
        if length writing == 0
        then commit out.meta key m
        else commit_while_writing out.meta key m writing)
    stop_writing writing
    given committed
    pure m

  abbrev pub described : PutOptions E → Manifest → Manifest
  described opts m = record m {
    etag = or_else opts.etag m.etag;
    content_type = opts.content_type;
    meta = opts.meta;
  }

  -- The end of Put, after write and the checks
  abbrev pub settle :
      Bytes
      → PutOptions E
      → Manifest
      → Bytes
      → Result (Fault E) (Unit {0})
      → Action W (Fault E) Manifest
  settle key opts m writing (err e) w = (err e, (stop_writing writing w).1)
  settle key opts m writing (ok u) w = commit_written key (described opts m) writing w

  unfoldable pub put :
      ℕ
      → Bytes
      → Membership
      → Bytes
      → Source
      → PutOptions E
      → W
      → Option (Result (Fault E) Manifest × W)
  put fuel prefix live key body opts w = elim (write fuel prefix live key body opts.size w) [
    | none ↦ none
    | some (err e, w1) ↦ some (err e, w1)
    | some (ok (m, writing), w1) ↦ some (settle key opts m writing (checks opts m) w1)
  ]
