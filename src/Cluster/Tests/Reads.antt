-- ===== src/Cluster/Tests/Reads.antt =====
-- Reads of a chunk with one of its nodes down, and a decode.
use kavo.Base.{◌≡◌, refl, arith, true, [], ◌∷◌, Bytes, text, if◌then◌else◌, same, has, ok, err}
use kavo.Faults.{outside}
use kavo.Ec.{Scheme}
use kavo.Object.Manifest.{ChunkRef}
use kavo.Object.Read.{Reader}
use kavo.Cluster.Nodes.{Outside, fetch_from, local_first, read_addr, lookup}
use kavo.Cluster.Replicate.{fetch}
use kavo.Cluster.Replicate.Serves.{Serves, Answered, fetch-Serves}
use kavo.Cluster.Erasure.{decode}
use kavo.Cluster.Erasure.Parity.{decode_with_parity, decode-decode_with_parity}
use kavo.Cluster.Tests.World.{World, out, config, live, empty}

abbrev reader : Reader
reader = record { pieces = text "he" ∷ []; verified = true }

-- The node at a2 serves everything, and no other node does.
abbrev one_up : Outside World Bytes
one_up = record out {
  fetch_chunk = λ addr id crc w.
      (if same addr (text "a2") then ok reader else err (outside (text "down")), w);
}

abbrev two_chunk : ChunkRef
two_chunk = record { id = text "c"; size = 2; crc = 2; shard_crcs = 1 ∷ 1 ∷ [] }

n2-Serves : Serves one_up config live two_chunk (text "n2")
unfolding fetch_from read_addr lookup same
n2-Serves w = (reader, refl)

n2_listed : has (text "n3" ∷ text "n2" ∷ []) (text "n2") ≡ true
unfolding has same
n2_listed = refl

fetch-Serves_example :
    (rc : Reader) × ((fetch one_up config live two_chunk (text "n3" ∷ text "n2" ∷ []) empty).0
      ≡ ok rc)
    × Answered one_up config live two_chunk
        (local_first config.self (text "n3" ∷ text "n2" ∷ []))
        rc
fetch-Serves_example =
    fetch-Serves one_up config live two_chunk (text "n3" ∷ text "n2" ∷ []) (text "n2") empty
      n2-Serves n2_listed

abbrev one_and_one : Scheme
one_and_one = record { data_shards = 1; parity = 1 }

decode-decode_with_parity_example :
    decode one_up config live two_chunk (text "n3" ∷ text "n2" ∷ []) one_and_one empty
    ≡ decode_with_parity one_up config live two_chunk (text "n3" ∷ text "n2" ∷ []) one_and_one empty
decode-decode_with_parity_example =
    decode-decode_with_parity one_up config live two_chunk (text "n3" ∷ text "n2" ∷ []) one_and_one
      empty (omega arith)
