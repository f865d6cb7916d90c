-- ===== src/Lib.antt =====
-- kavo is an object store in Go: nodes with an S3 front end keep the chunks of objects on their disks,
-- place them by a consistent-hash ring, replicate or erasure-code them, and keep the manifests that
-- name the chunks in etcd. A write cuts the stream into chunks, stores them on the owners of the key's
-- partition and commits the manifest; a read resolves the key to a manifest, fetches the chunks that
-- cover a window and checks each of them; background passes repair, rebalance and collect.
--
-- Which file models what:
--   Base           shared names; lists over native numbers (Lists), Go strings as lists of bytes (Text),
--                  errors (Errors), int64 with its wrap-around and strconv.ParseInt (Integers)
--   Ring           internal/ring/ring.go: New, PartitionFor, Owners; SHA-256 is the argument `sha256`
--   Ec             internal/ec/ec.go: Valid, Encode, Reconstruct; the codec of package reedsolomon is the
--                  argument `codec`, and `Codes` is what its documentation promises
--   Object         internal/object/object.go: Manifest holds the types and the ids, Write holds Write,
--                  readChunk and readOrEnd, Read holds ReadRange, readWindow and heldBack. The stream, the
--                  commit of a chunk, the fetch of a chunk and the writer, which may fail, are arguments.
--                  Crc holds internal/object/crc.go
--   Faults         the errors that the calls below return, without their texts
--   Meta           internal/meta: Etcd holds what the store asks of etcd and of encoding/json, which are
--                  arguments; Store the keys (meta.go, upload.go, writing.go); Manifests the calls of
--                  meta.go, Uploads those of upload.go, Writing those of writing.go; Keys holds After and
--                  PastPrefix, Entries what scans yield
--   ChunkStore     internal/store/store.go: chunk files and their commit; the calls of package os are the
--                  argument `os`. ScanChunks is the sweep of Cluster.Collect
--   Cluster        internal/cluster: Nodes holds a node's configuration and view of the cluster and its
--                  calls of the disk and of other nodes (cluster.go), which are the argument `out`;
--                  Replicate holds replicate and fetch; Erasure holds erasure.go; Put holds write, Put
--                  and the checks; Objects holds Delete, Copy, Resolve, Stream and StreamRange;
--                  Uploads holds upload.go, with CompleteUpload as complete_upload. Collect
--                  holds the collector (collect.go): its set of ids in use in Collect.antt, nextSlice
--                  and the sweep in Sweep. How its calls of the store and the disk end is `calls`.
--                  List holds list.go; Walk holds walk and Repair the rest of repair.go, with Repair
--                  as repair; Rebalance holds rebalance.go and Scrub scrub.go
--   Sigv4          internal/sigv4/sigv4.go: Request holds what is read of a request, and the calls of Go's
--                  packages, which are the argument `lib`; Authorization holds parseAuthorization,
--                  Canonical the strings that are signed, Verify the rest, with Verify as verify
--   S3             internal/s3: Range holds parseRange (s3.go) and parseCopyRange (upload.go)
--
-- How they interact: Cluster.Put hands Object.Write the storing of a chunk on the owners that
-- Ring gives, as copies or through Ec, and commits with Meta; Cluster.Collect reads manifests,
-- asks Ring for the owners of their keys and Ec for the number of shards, and deletes chunks; the
-- windows that S3.Range reads from a header are what Object.Read delivers.
--
-- Numbers: sizes, checksums and times are native natural numbers; the 64-bit positions of the ring and
-- the int64 of the range headers wrap around. A time in nanoseconds is compared by sums, so that no
-- subtraction is cut off at 0. Fuel: Write takes a number above the length of the stream, since each
-- round of its loop takes at least one byte; the scans of a collection pass take a number above the
-- number of keys, since each page that is not empty holds at least one, and so do a listing and the
-- walk of a background pass. The loop of Owners and the
-- sweep are recursion on what they go through.
--
-- Calls over a world `W` are functions from a world to a result and a world. Calls that the program
-- makes side by side are made one after the other, and the digests beside a write are taken of the
-- bytes that it has collected. Contexts, which only end calls early, are left out.
--
-- Not modelled: the copies and listings of uploads, the membership records with their
-- leases, the readers of signed bodies, the pace and the timers of the background passes, and the HTTP
-- layers. A scan of the collector and of a walk sees a snapshot, so that no manifest is committed in
-- the course of one.
pub mod Base
pub mod Faults
pub mod Ring
pub mod Ec
pub mod Object
pub mod Meta
pub mod ChunkStore
pub mod Cluster
pub mod Sigv4
pub mod S3
