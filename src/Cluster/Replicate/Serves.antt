-- ===== src/Cluster/Replicate/Serves.antt =====
-- internal/cluster/cluster.go: a read of a chunk next to the nodes that serve it.
use kavo.Base.{
  ◌≡◌, sym, ◌∙◌, inl, inr, true, Bool-cases, List, [], ◌∷◌, Bytes, same, same_iff, same_refl, has,
  ◌||◌, arith, ok, err, ok-ne-err, Result-cases,
}
use kavo.Object.Manifest.{ChunkRef}
use kavo.Object.Read.{Reader}
use kavo.Cluster.Nodes.{Config, Membership, Outside, swap_first, local_first, fetch_from}
use kavo.Cluster.Replicate.{fetch_any, fetch}

-- The swap puts no node away.
swap_first-has :
    (first self node : Bytes) (xs : List Bytes)
    → has xs self ≡ true
    → has (first ∷ xs) node ≡ true
    → has (self ∷ swap_first first self xs) node ≡ true
unfolding swap_first has
swap_first-has first self node [] k h = absurd cc
swap_first-has first self node (x ∷ xs) k h = elim (Bool-cases (same x self)) [
  | inl found ↦
      let e : x ≡ self = (same_iff x self).0 found in
      let h' : (same first node || (same self node || has xs node)) ≡ true = rw e at h in
      rw found (ground arith)
  | inr other ↦ elim (Bool-cases (same x node)) [
    | inl this ↦ rw (other, this) (ground arith)
    | inr that ↦
        let ih = swap_first-has first self node xs (ground arith) (ground arith) in
        rw (other, that) (ground (arith, ih))
  ]
]

local_first-has :
    (self node : Bytes) (xs : List Bytes)
    → has xs node ≡ true
    → has (local_first self xs) node ≡ true
unfolding local_first has
local_first-has self node [] h = h
local_first-has self node (x ∷ xs) h = elim (Bool-cases (same x self)) [
  | inl mine ↦ rw mine h
  | inr other ↦ elim (Bool-cases (has xs self)) [
    | inl later ↦ rw (other, later) (swap_first-has x self node xs later h)
    | inr none_left ↦ rw (other, none_left) h
  ]
]

module _ {W E : Type 0} (out : Outside W E) (c : Config) (live : Membership) where
  -- The node serves the chunk, whatever was asked before.
  abbrev pub Serves : ChunkRef → Bytes → Type 0
  Serves ref node =
      (w : W) → (rc : Reader) × ((fetch_from out c live node ref.id ref.crc w).0 ≡ ok rc)

  -- The reader is the answer of one of the nodes.
  abbrev pub Answered : ChunkRef → List Bytes → Reader → Type 0
  Answered ref nodes rc =
      (node : Bytes) × (w : W) × (has nodes node ≡ true)
      × ((fetch_from out c live node ref.id ref.crc w).0 ≡ ok rc)

  fetch_any-Serves :
      (ref : ChunkRef) (nodes : List Bytes) (node : Bytes) (w : W)
      → Serves ref node
      → has nodes node ≡ true
      → (rc : Reader) × ((fetch_any out c live ref nodes w).0 ≡ ok rc) × Answered ref nodes rc
  unfolding fetch_any has
  fetch_any-Serves ref [] node w serves h = absurd cc
  fetch_any-Serves ref (x ∷ xs) node w serves h =
      elim (Result-cases (fetch_from out c live x ref.id ref.crc w).0) [
        | inr (rc, done) ↦ (rc, rw (done, fetch_any), (x, w, ground (arith, same_refl x), done))
        | inl (reason, failed) ↦ elim (Bool-cases (same x node)) [
          | inl this ↦
              let (rc, done) = serves w in
              let e : x ≡ node = (same_iff x node).0 this in
              let lost : (fetch_from out c live node ref.id ref.crc w).0 ≡ err reason =
                rw e at failed in
              absurd (ok-ne-err (sym done ∙ lost))
          | inr that ↦
              let (rc, done, (y, w', listed, answered)) =
                fetch_any-Serves ref xs node (fetch_from out c live x ref.id ref.crc w).1 serves
                  (ground arith) in
              (rc, rw (failed, fetch_any) done, (y, w', ground (arith, listed), answered))
        ]
      ]

  -- A fetch of a chunk returns a reader if one of the nodes serves it, whichever of the others are
  -- down and wherever that node stands among them, and the reader is the answer of one of the nodes
  -- that localFirst lists. Whether that reader verifies at its end is not part of the fetch.
  pub fetch-Serves :
      (ref : ChunkRef) (nodes : List Bytes) (node : Bytes) (w : W)
      → Serves ref node
      → has nodes node ≡ true
      → (rc : Reader) × ((fetch out c live ref nodes w).0 ≡ ok rc)
        × Answered ref (local_first c.self nodes) rc
  unfolding fetch
  fetch-Serves ref nodes node w serves h =
      fetch_any-Serves ref (local_first c.self nodes) node w serves
        (local_first-has c.self node nodes h)
