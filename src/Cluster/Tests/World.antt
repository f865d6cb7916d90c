-- ===== src/Cluster/Tests/World.antt =====
-- A world for tests: the chunks that lie on the nodes, and the keys and values of the metadata. The
-- push to one of the nodes fails.
use kavo.Base.{
  ℕ, ◌+◌, ◌*◌, ◌%◌, ◌≡◌, Bool, true, false, none, List, [], ◌∷◌, length, Bytes, same, text,
  if◌then◌else◌, Result, ok, err, ok-ne-err, sym,
}
use kavo.Base.Actions.{Action}
use kavo.Faults.{Fault, outside}
use kavo.Ec.{codec_failed}
use kavo.Object.Read.{Reader}
use kavo.Cluster.Nodes.{Config, Membership, Outside}
use kavo.Cluster.Put.Durable.{Place, Durable, here, there}

-- A chunk on a node
pub record Piece : Type 0 where
  pub at : Place
  pub id : Bytes
  pub bytes : Bytes
  pub crc : ℕ

pub record World : Type 0 where
  pub pieces : List Piece
  pub values : List (Bytes × Bytes)

-- There is a piece of the id and the checksum at the place.
pub data Lies (p : Place) (i : Bytes × ℕ) : List Piece → Type 0 where
  on_top :
      {bytes : Bytes} {rest : List Piece}
      → Lies p i (record { at = p; id = i.0; bytes = bytes; crc = i.1 } ∷ rest)
  below : {x : Piece} {rest : List Piece} → Lies p i rest → Lies p i (x ∷ rest)

abbrev pub Holds : World → Place → Bytes × ℕ → Type 0
Holds w p i = Lies p i w.pieces

abbrev put_piece : Place → Bytes → Bytes → ℕ → World → World
put_piece p id bytes crc w = record w {
  pieces = record { at = p; id = id; bytes = bytes; crc = crc } ∷ w.pieces;
}

abbrev pub push : Bool → Bytes → Bytes → Bytes → ℕ → Action World (Fault Bytes) (Unit {0})
push true addr id bytes crc w = (err (outside (text "down")), w)
push false addr id bytes crc w = (ok tt, put_piece (there addr) id bytes crc w)

-- A reader of the newest piece of the id
abbrev read : Bytes → List Piece → Result (Fault Bytes) Reader
read id [] = err (outside (text "no such chunk"))
read id (x ∷ rest) =
    if same x.id id then ok (record { pieces = x.bytes ∷ []; verified = true }) else read id rest

unfoldable pub sum : Bytes → ℕ
sum [] = 0
sum (b ∷ bs) = b * 7 + sum bs

abbrev pub digest : Bytes → Bytes
digest s = sum s % 256 ∷ 1 ∷ 2 ∷ 3 ∷ 4 ∷ 5 ∷ 6 ∷ 7 ∷ []

abbrev pub out : Outside World Bytes
out = record {
  meta = record {
    etcd = record {
      get = λ k w. (ok none, w);
      range = λ from to n w. (ok [], w);
      read_prefix = λ k w. (ok [], w);
      put = λ k v w. (ok tt, record w { values = (k, v) ∷ w.values });
      put_leased = λ k v w. (ok tt, record w { values = (k, v) ∷ w.values });
      delete = λ k w. (ok tt, w);
      delete_range = λ k w. (ok tt, w);
      txn = λ cs k v w. (ok true, record w { values = (k, v) ∷ w.values });
    };
    manifests = record { marshal = λ m. ok m.etag; unmarshal = λ b. err (outside (text "no")) };
    entry = λ b. err (outside (text "no"));
    uploads = record { marshal = λ m. ok m.key; unmarshal = λ b. err (outside (text "no")) };
    completions = record { marshal = λ m. ok m.key; unmarshal = λ b. err (outside (text "no")) };
    join = λ ss. text "kavo";
    base = λ s. s;
    dir = λ s. s;
    atoi = λ s. none;
    range_end = λ s. s;
    prefix = text "kavo";
  };
  write_local = λ id bytes crc size w. (ok tt, put_piece here id bytes crc w);
  read_local = λ id crc w. (read id w.pieces, w);
  has_local = λ ids w. (ok ids, w);
  push_chunk = λ addr id bytes crc size. push (same addr (text "a3")) addr id bytes crc;
  fetch_chunk = λ addr id crc w.
      (if same addr (text "a3") then err (outside (text "down")) else read id w.pieces, w);
  has_remote = λ addr ids w. (ok ids, w);
  now = λ w. 7000000001;
  random_text = λ w. text "r-";
  sha256 = digest;
  md5 = λ s. length s ∷ [];
  crc32c = length;
  crc32 = sum;
  crc64 = sum;
  codec = record {
    make = λ s. ok tt;
    split = λ s chunk. ok (chunk ∷ []);
    encode = λ s parts. err codec_failed;
    rebuild = λ s slots. ok slots;
    join = λ s slots size. err codec_failed;
  };
}

abbrev pub config : Config
config = record {
  self = text "n1";
  addr = text "a1";
  quorum = 2;
  chunk_size = 2;
  scheme = record { data_shards = 0; parity = 0 };
}

abbrev pub live : Membership
live = record {
  peers = (text "n1", text "a1") ∷ (text "n2", text "a2") ∷ (text "n3", text "a3") ∷ [];
  known = [];
  ring = record {
    vnodes =
        record { pos = 10; node = text "n1" }
        ∷ record { pos = 20; node = text "n3" }
        ∷ record { pos = 30; node = text "n2" }
        ∷ [];
  };
}

abbrev pub empty : World
empty = record { pieces = []; values = [] }

push-Lies :
    (down : Bool) (addr id bytes : Bytes) (crc : ℕ) (w : World)
    → (push down addr id bytes crc w).0 ≡ ok tt
    → Holds (push down addr id bytes crc w).1 (there addr) (id, crc)
push-Lies true addr id bytes crc w h = absurd (ok-ne-err (sym h))
push-Lies false addr id bytes crc w h = on_top

push_keeps :
    (down : Bool) (addr id bytes : Bytes) (crc : ℕ) (w : World) (p : Place) (i : Bytes × ℕ)
    → Holds w p i
    → Holds (push down addr id bytes crc w).1 p i
push_keeps true addr id bytes crc w p i h = h
push_keeps false addr id bytes crc w p i h = below h

pub durable : Durable out Holds
durable = record {
  local_holds = λ id bytes crc size w h. on_top;
  push_holds =
      λ addr id bytes crc size w h. push-Lies (same addr (text "a3")) addr id bytes crc w h;
  local_keeps = λ id bytes crc size w p i h. below h;
  push_keeps = λ addr id bytes crc size w p i h.
      push_keeps (same addr (text "a3")) addr id bytes crc w p i h;
  put_keeps = λ k v w p i h. h;
  delete_keeps = λ k w p i h. h;
  txn_keeps = λ cs k v w p i h. h;
}
