-- ===== src/Object/Manifest.antt =====
-- internal/object/object.go: the manifest of an object and what it names. Sizes and checksums are
-- numbers, times are nanoseconds, and a checksum that is nil in the source is `none`.
use kavo.Base.{
  ℕ, ◌-◌, Option, none, List, [], ◌++◌, leb, if◌then◌else◌, length, take, replicate, Bytes, text,
  decimal,
}
use kavo.Ec.{Scheme}

pub record ChunkRef : Type 0 where
  pub id : Bytes
  pub size : ℕ
  pub crc : ℕ
  pub shard_crcs : List ℕ

pub record Part : Type 0 where
  pub number : ℕ
  pub size : ℕ
  pub crc32c : Option ℕ
  pub crc32 : Option ℕ
  pub crc64nvme : Option ℕ

pub record Manifest : Type 0 where
  pub size : ℕ
  pub etag : Bytes
  pub content_type : Bytes
  pub modified : ℕ
  pub meta : List (Bytes × Bytes)
  pub nodes : List Bytes
  pub chunks : List ChunkRef
  pub coding : Scheme
  pub crc32c : Option ℕ
  pub crc32 : Option ℕ
  pub crc64nvme : Option ℕ
  pub parts : List Part

-- The zero Manifest and the zero Scheme
abbrev pub replicated : Scheme
replicated = record { data_shards = 0; parity = 0 }

abbrev pub no_manifest : Manifest
no_manifest = record {
  size = 0;
  etag = [];
  content_type = [];
  modified = 0;
  meta = [];
  nodes = [];
  chunks = [];
  coding = replicated;
  crc32c = none;
  crc32 = none;
  crc64nvme = none;
  parts = [];
}

-- DefaultChunkSize, smallObject and indexWidth
abbrev pub default_chunk_size : ℕ
default_chunk_size = 33554432

abbrev pub small_object : ℕ
small_object = 1048576

abbrev pub index_width : ℕ
index_width = 6

-- fmt's %0*d: at least `width` digits
unfoldable pub padded : ℕ → ℕ → Bytes
padded width n = replicate (width - length (decimal n)) b'0' ++ decimal n

-- ShardID
unfoldable pub shard_id : ChunkRef → ℕ → Bytes
shard_id c i = c.id ++ text "s" ++ padded 2 i

-- The id of the i-th chunk of a write
unfoldable pub chunk_id : Bytes → ℕ → Bytes
chunk_id prefix i = prefix ++ padded index_width i

-- WriteID
unfoldable pub write_id : Bytes → Bytes
write_id chunk_id =
    if leb (length chunk_id) index_width then [] else take (length chunk_id - index_width) chunk_id
