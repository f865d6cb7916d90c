-- ===== src/Cluster/Collect/Sweep.antt =====
-- internal/cluster/collect.go: nextSlice, and the sweep of a slice in Collect.
use kavo.Base.{
  ℕ, ◌+◌, ◌%◌, Option, none, some, List, [], ◌∷◌, ◌++◌, ltb, ◌==◌, if◌then◌else◌, get_elem?, take,
  drop, Bytes, has, has_prefix, index, Result, ok, err,
}
use kavo.Cluster.Collect.{
  id_alphabet, collect_slices, ChunkInfo, CollectStats, View, State, Calls, in_flight, referenced,
}

-- What `visit` does with a chunk: the counter that it belongs to
pub data Fate (E : Type 0) : Type 0 where
  live writing young collected : Fate E
  stuck : E → Fate E

pub data CollectError (E : Type 0) : Type 0 where
  failed : E → CollectError E
  not_removed : ℕ → E → CollectError E

-- What the sweep has done so far: its counters, the chunks that would not go away with the first
-- error of them, and the chunks that are left on the disk
pub record Pass (E : Type 0) : Type 0 where
  pub stats : CollectStats
  pub failed : ℕ
  pub first : Option E
  pub left : List ChunkInfo

abbrev pub no_stats : CollectStats
no_stats = record {
  slice = [];
  referenced = 0;
  examined = 0;
  collected = 0;
  bytes_collected = 0;
  young = 0;
  writing = 0;
}

-- The byte at an index of the alphabet
abbrev pub letter : ℕ → ℕ
letter i = elim (get_elem? id_alphabet i) [ none ↦ 0 | some b ↦ b ]

-- The index that a cursor stands for
unfoldable pub cursor_index : Bytes → ℕ
cursor_index (b ∷ []) = elim (index id_alphabet (b ∷ [])) [ none ↦ 0 | some i ↦ i ]
cursor_index _ = 0

-- The chunks that ScanChunks gets to, and those that it does not
abbrev pub reached :
    {E : Type 0} → Option (ℕ × E) → List ChunkInfo → List ChunkInfo × List ChunkInfo
reached none cs = (cs, [])
reached (some (n, e)) cs = (take n cs, drop n cs)

module _ {E : Type 0} (calls : Calls E) where
  -- nextSlice
  unfoldable pub next_slice : State → Result E ℕ × State
  next_slice s = elim calls.read_cursor [
    | some e ↦ (err e, s)
    | none ↦
        let i = cursor_index s.cursor in
        let next = letter ((i + 1) % collect_slices) in
        elim calls.save_cursor [
          | some e ↦ (err e, s)
          | none ↦ (ok (letter i), record s { cursor = next ∷ [] })
        ]
  ]

  module _ (set : List Bytes) (in_write : List Bytes) (start grace : ℕ) where
    -- The decisions of the visitor. A chunk is young if it is younger than the scan less the grace.
    unfoldable pub fate : ChunkInfo → Fate E
    fate ci =
        if has set ci.id
        then live
        else if in_flight in_write ci.id
        then writing
        else if ltb start (ci.modified + grace)
        then young
        else elim (calls.remove_chunk ci.id) [ some e ↦ stuck e | none ↦ collected ]

    -- The visitor of ScanChunks
    unfoldable pub visit : Pass E → ChunkInfo → Pass E
    visit p ci =
        let st = record p.stats { examined = p.stats.examined + 1 } in
        let kept = p.left ++ ci ∷ [] in
        elim (fate ci) [
          | live ↦ record p { stats = record st { referenced = st.referenced + 1 }; left = kept }
          | writing ↦ record p { stats = record st { writing = st.writing + 1 }; left = kept }
          | young ↦ record p { stats = record st { young = st.young + 1 }; left = kept }
          | stuck e ↦ record {
            stats = st;
            failed = p.failed + 1;
            first = elim p.first [ none ↦ some e | some f ↦ some f ];
            left = kept;
          }
          | collected ↦ record p {
            stats = record st {
              collected = st.collected + 1;
              bytes_collected = st.bytes_collected + ci.size;
            };
          }
        ]

    -- ScanChunks with the visitor: the chunks outside the slice are passed over
    unfoldable pub sweep : ℕ → Pass E → List ChunkInfo → Pass E
    sweep slice p [] = p
    sweep slice p (ci ∷ cs) =
        if has_prefix ci.id (slice ∷ [])
        then sweep slice (visit p ci) cs
        else sweep slice (record p { left = p.left ++ ci ∷ [] }) cs

  -- The end of Collect: the first error of ScanChunks, or that some chunks would not go away
  unfoldable pub result : Pass E → Option (CollectError E)
  result p = elim calls.scan_chunks [
    | some (n, e) ↦ some (failed e)
    | none ↦
        if p.failed == 0
        then none
        else elim p.first [ none ↦ none | some e ↦ some (not_removed p.failed e) ]
  ]

  -- Collect, with `none` when the fuel of the scans runs out
  unfoldable pub collect :
      View → ℕ → ℕ → ℕ → State → Option (CollectStats × Option (CollectError E) × State)
  collect view fuel start grace s =
      let n = next_slice s in
      elim n.0 [
        | err e ↦ some (no_stats, some (failed e), n.1)
        | ok slice ↦
            let st = record no_stats { slice = slice ∷ [] } in
            elim (referenced calls view fuel slice n.1) [
              | none ↦ none
              | some (err e, s') ↦ some (st, some (failed e), s')
              | some (ok (set, in_write), s') ↦
                  let empty : Pass E = record { stats = st; failed = 0; first = none; left = [] } in
                  let scanned = reached calls.scan_chunks s'.chunks in
                  let p = sweep set in_write start grace slice empty scanned.0 in
                  some (p.stats, result p, record s' { chunks = p.left ++ scanned.1 })
            ]
      ]
