-- ===== src/Faults.antt =====
-- The errors that callers tell apart, of every package. `outside` is an error of code that is not
-- the repository's: etcd, the disks, the network, the decoders.
pub data Fault (E : Type 0) : Type 0 where
  outside : E → Fault E
  -- meta.ErrNotFound, meta.ErrChanged, meta.ErrNotWriting and the check of a write's id
  not_found changed not_writing bad_write_id : Fault E
  -- cluster.ErrQuorum, cluster.ErrBadDigest and the refusals of a placement
  quorum bad_digest no_nodes too_few_nodes bad_quorum bad_scheme : Fault E
  -- the errors of object.Write and of package ec
  bad_chunk_size read_failed ec_failed : Fault E
  -- a read of a chunk: a node that was never a member, bytes that do not match, no owner that serves
  never_member bad_shards bad_chunk no_owner : Fault E
  -- cluster.ErrNoSuchPart, cluster.ErrPartMismatch, cluster.ErrPartOrder and the other refusals of a
  -- completion
  no_such_part part_mismatch part_order part_placement bad_etag : Fault E
  unrepairable : Fault E
  -- store.ErrInvalidID, store.ErrVerificationFailed and store.ErrNotFound
  invalid_id verification_failed no_chunk : Fault E
