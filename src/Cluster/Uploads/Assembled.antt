-- ===== src/Cluster/Uploads/Assembled.antt =====
-- internal/cluster/upload.go: what a completion puts together.
use mathlib.Core.Bool.{true≢false}
use kavo.Base.{
  ℕ, ◌+◌, ◌<◌, ◌≡◌, ◌⊎◌, refl, ap, sym, subst, ◌∙◌, arith, inl, inr, Bool, true, false, not, ◌&&◌,
  ◌||◌, ◌==◌, Bool-cases, Option, some, Option-cases, List, [], ◌∷◌, ◌++◌, append-nil, append_assoc,
  length, Bytes, same, Result, ok, err, ok-ne-err, ok_inj, Result-cases,
}
use kavo.Faults.{
  Fault, outside, not_found, changed, not_writing, bad_write_id, quorum, bad_digest, no_nodes,
  too_few_nodes, bad_quorum, bad_scheme, bad_chunk_size, read_failed, ec_failed, never_member,
  bad_shards, bad_chunk, no_owner, no_such_part, part_mismatch, part_order, part_placement,
  bad_etag, unrepairable, invalid_id, verification_failed, no_chunk,
}
use kavo.Object.Manifest.{ChunkRef, Manifest, no_manifest}
use kavo.Meta.Store.{Upload, Completion}
use kavo.Meta.Uploads
use kavo.Meta.Manifests.{commit}
use kavo.Cluster.Nodes.{Config, Outside}
use kavo.Cluster.Uploads.{
  CompletedPart, Assembly, trim_start, trim_end, is_sorted, part_at, same_nodes, same_coding,
  add_part, assemble, complete_with, complete_upload, is_not_found, commit_completion, confirmed,
  finished, start_assembly,
}

-- The manifests that a completion names, in its order
pub data Named (stored : List (ℕ × Manifest)) : List CompletedPart → List Manifest → Type 0 where
  no_part : Named stored [] []
  next_part :
      {p : CompletedPart} {ps : List CompletedPart} {m : Manifest} {ms : List Manifest}
      → part_at stored p.number ≡ some m
      → Named stored ps ms
      → Named stored (p ∷ ps) (m ∷ ms)

abbrev pub chunks_of : List Manifest → List ChunkRef
chunks_of [] = []
chunks_of (m ∷ ms) = m.chunks ++ chunks_of ms

abbrev pub size_of : List Manifest → ℕ
size_of [] = 0
size_of (m ∷ ms) = m.size + size_of ms

-- The numbers of the parts grow from `prev` on.
abbrev pub Ascending : ℕ → List CompletedPart → Type 0
Ascending prev [] = Unit
Ascending prev (p ∷ ps) = (prev < p.number) × Ascending p.number ps

abbrev pub Rising : List CompletedPart → Type 0
Rising [] = Unit
Rising (p ∷ ps) = Ascending p.number ps

module _ (E : Type 0) (hex_decode : Bytes → Option Bytes) (stored : List (ℕ × Manifest)) where
  -- What a round that succeeds has found and added
  abbrev Added : Bool → ℕ → CompletedPart → Assembly → Result (Fault E) Assembly → Type 0
  Added first prev p a (err e) = Unit
  Added first prev p a (ok a') =
      (m : Manifest) × (part_at stored p.number ≡ some m)
      × (a'.final.chunks ≡ a.final.chunks ++ m.chunks)
      × (a'.final.size ≡ a.final.size + m.size)
      × ((not first && (p.number == prev)) ≡ false)

  add_part-Added :
      (first : Bool) (prev : ℕ) (p : CompletedPart) (a : Assembly)
      → Added first prev p a (add_part {E = E} hex_decode stored first prev p a)
  unfolding add_part
  add_part-Added first prev p a = elim (Bool-cases (not first && (p.number == prev))) [
    | inl twice ↦ rw (twice, add_part) tt
    | inr once ↦ elim (Option-cases (part_at stored p.number)) [
      | inl missing ↦ rw (once, missing, add_part) tt
      | inr (m, found) ↦
          let want = trim_end (trim_start p.etag) in
          elim (Bool-cases (not (length want == 0) && not (same want m.etag))) [
            | inl other ↦ rw (once, found, other, add_part) tt
            | inr right ↦
                elim (Bool-cases (
                  not first
                  && (not (same_nodes a.final.nodes m.nodes)
                      || not (same_coding a.final.coding m.coding)))) [
                        | inl elsewhere ↦ rw (once, found, right, elsewhere, add_part) tt
                        | inr together ↦ elim (Option-cases (hex_decode m.etag)) [
                          | inl bad ↦ rw (once, found, right, together, bad, add_part) tt
                          | inr (raw, decoded) ↦
                              rw (once, found, right, together, decoded, add_part)
                                (m, found, refl, refl, once)
                        ]
                      ]
          ]
    ]
  ]

  add_part-ok :
      (first : Bool) (prev : ℕ) (p : CompletedPart) (a a' : Assembly)
      → add_part {E = E} hex_decode stored first prev p a ≡ ok a'
      → Added first prev p a (ok a')
  add_part-ok first prev p a a' h = subst (Added first prev p a) h (add_part-Added first prev p a)

  pub assemble-Named :
      (first : Bool) (prev : ℕ) (ps : List CompletedPart) (a a' : Assembly)
      → assemble {E = E} hex_decode stored first prev ps a ≡ ok a'
      → (ms : List Manifest) × Named stored ps ms
        × (a'.final.chunks ≡ a.final.chunks ++ chunks_of ms)
        × (a'.final.size ≡ a.final.size + size_of ms)
  unfolding assemble
  assemble-Named first prev [] a a' h =
      let e : a ≡ a' = cc in
      ([], no_part, rw (sym e) (sym (append-nil a.final.chunks)), rw (sym e) (omega arith))
  assemble-Named first prev (p ∷ ps) a a' h =
      elim (Result-cases (add_part {E = E} hex_decode stored first prev p a)) [
        | inl (e, failed) ↦ absurd (ok-ne-err (sym (rw (failed, assemble) at h)))
        | inr (a1, done) ↦
            let (m, found, chunks, size, once) = add_part-ok first prev p a a1 done in
            let (ms, named, chunks', size') =
              assemble-Named false p.number ps a1 a' (rw (done, assemble) at h) in
            (
              m ∷ ms,
              next_part found named,
              chunks' ∙ rw chunks (append_assoc a.final.chunks m.chunks (chunks_of ms)),
              omega (arith, size, size'),
            )
      ]

  pub assemble-Ascending :
      (p : CompletedPart) (ps : List CompletedPart) (a a' : Assembly)
      → is_sorted (p ∷ ps) ≡ true
      → assemble {E = E} hex_decode stored false p.number ps a ≡ ok a'
      → Ascending p.number ps
  unfolding assemble is_sorted
  assemble-Ascending p [] a a' k h = tt
  assemble-Ascending p (q ∷ ps) a a' k h =
      elim (Result-cases (add_part {E = E} hex_decode stored false p.number q a)) [
        | inl (e, failed) ↦ absurd (ok-ne-err (sym (rw (failed, assemble) at h)))
        | inr (a1, done) ↦
            let (m, found, chunks, size, once) = add_part-ok false p.number q a a1 done in
            let later : is_sorted (q ∷ ps) ≡ true = ground arith in
            (ground arith, assemble-Ascending q ps a1 a' later (rw (done, assemble) at h))
      ]

  assemble-Rising :
      (prev : ℕ) (ps : List CompletedPart) (a a' : Assembly)
      → is_sorted ps ≡ true
      → assemble {E = E} hex_decode stored true prev ps a ≡ ok a'
      → Rising ps
  unfolding assemble
  assemble-Rising prev [] a a' k h = tt
  assemble-Rising prev (p ∷ ps) a a' k h =
      elim (Result-cases (add_part {E = E} hex_decode stored true prev p a)) [
        | inl (e, failed) ↦ absurd (ok-ne-err (sym (rw (failed, assemble) at h)))
        | inr (a1, done) ↦ assemble-Ascending p ps a1 a' k (rw (done, assemble) at h)
      ]

not_found_only : {E : Type 0} (e : Fault E) → is_not_found e ≡ true → e ≡ not_found
not_found_only not_found h = refl
not_found_only (outside e) h = absurd (true≢false (sym h))
not_found_only changed h = absurd (true≢false (sym h))
not_found_only not_writing h = absurd (true≢false (sym h))
not_found_only bad_write_id h = absurd (true≢false (sym h))
not_found_only quorum h = absurd (true≢false (sym h))
not_found_only bad_digest h = absurd (true≢false (sym h))
not_found_only no_nodes h = absurd (true≢false (sym h))
not_found_only too_few_nodes h = absurd (true≢false (sym h))
not_found_only bad_quorum h = absurd (true≢false (sym h))
not_found_only bad_scheme h = absurd (true≢false (sym h))
not_found_only bad_chunk_size h = absurd (true≢false (sym h))
not_found_only read_failed h = absurd (true≢false (sym h))
not_found_only ec_failed h = absurd (true≢false (sym h))
not_found_only never_member h = absurd (true≢false (sym h))
not_found_only bad_shards h = absurd (true≢false (sym h))
not_found_only bad_chunk h = absurd (true≢false (sym h))
not_found_only no_owner h = absurd (true≢false (sym h))
not_found_only no_such_part h = absurd (true≢false (sym h))
not_found_only part_mismatch h = absurd (true≢false (sym h))
not_found_only part_order h = absurd (true≢false (sym h))
not_found_only part_placement h = absurd (true≢false (sym h))
not_found_only bad_etag h = absurd (true≢false (sym h))
not_found_only unrepairable h = absurd (true≢false (sym h))
not_found_only invalid_id h = absurd (true≢false (sym h))
not_found_only verification_failed h = absurd (true≢false (sym h))
not_found_only no_chunk h = absurd (true≢false (sym h))

zero_plus : (n : ℕ) → 0 + n ≡ n
zero_plus n = omega arith

module _ {W E : Type 0} (out : Outside W E) (c : Config) where
  abbrev GivesBack : Manifest → Result (Fault E) Manifest × W → Type 0
  GivesBack m (err e, w) = Unit
  GivesBack m (ok m', w) = m' ≡ m

  commit_completion-GivesBack :
      (id : Bytes) (u : Upload) (count : ℕ) (crc32c crc64nvme crc32 : Option ℕ) (final : Manifest)
      (w : W)
      → GivesBack final (commit_completion out c id u count crc32c crc64nvme crc32 final w)
  unfolding commit_completion commit
  commit_completion-GivesBack id u count crc32c crc64nvme crc32 final w =
      elim (Bool-cases (not (confirmed crc32c final.crc32c))) [
        | inl off ↦ rw (off, commit_completion) tt
        | inr one ↦ elim (Bool-cases (not (confirmed crc32 final.crc32))) [
          | inl off ↦ rw (one, off, commit_completion) tt
          | inr two ↦ elim (Bool-cases (not (confirmed crc64nvme final.crc64nvme))) [
            | inl off ↦ rw (one, two, off, commit_completion) tt
            | inr three ↦ elim (Result-cases (commit out.meta u.key final w).0) [
              | inl (e, failed) ↦ rw (one, two, three, failed, commit_completion) tt
              | inr (tt', done) ↦ rw (one, two, three, done, commit_completion) refl
            ]
          ]
        ]
      ]

  -- The completion of an upload whose record was read names at least one part, only parts that are stored, and with numbers
  -- that grow; its object is the chunks of these parts in order, of the sum of their sizes.
  complete_with-Named :
      (hex_decode : Bytes → Option Bytes) (stored : List (ℕ × Manifest)) (id : Bytes) (u : Upload)
      (parts : List CompletedPart) (crc32c crc64nvme crc32 : Option ℕ) (w w' : W) (m : Manifest)
      → complete_with out c hex_decode stored id u parts crc32c crc64nvme crc32 w ≡ (ok m, w')
      → (ms : List Manifest) × Named stored parts ms
        × (0 < length parts)
        × Rising parts
        × (m.chunks ≡ chunks_of ms)
        × (m.size ≡ size_of ms)
  unfolding complete_with
  complete_with-Named hex_decode stored id u parts crc32c crc64nvme crc32 w w' m h =
      elim (Bool-cases (length parts == 0)) [
        | inl bare ↦ absurd (ok-ne-err (sym (ap (λ r. r.0) (rw bare at h))))
        | inr some_left ↦ elim (Bool-cases (not (is_sorted parts))) [
          | inl mixed ↦ absurd (ok-ne-err (sym (ap (λ r. r.0) (rw (some_left, mixed) at h))))
          | inr ordered ↦
              elim (Result-cases
                (assemble {E = E} hex_decode stored true 0 parts (start_assembly out c u))) [
                  | inl (e, failed) ↦
                      absurd
                        (ok-ne-err (sym (ap (λ r. r.0) (rw (some_left, ordered, failed) at h))))
                  | inr (a, built) ↦
                      let final = finished out c (length parts) (out.now w) a in
                      let last : commit_completion out c id u (length parts) crc32c crc64nvme crc32
                            final w
                          ≡ (ok m, w') =
                        rw (some_left, ordered, built) at h in
                      let same_one : m ≡ final = subst (GivesBack final) last (
                        commit_completion-GivesBack id u (length parts) crc32c crc64nvme crc32 final
                          w) in
                      let (ms, named, chunks, size) =
                        assemble-Named E hex_decode stored true 0 parts (start_assembly out c u) a
                          built in
                      let sorted : is_sorted parts ≡ true = ground arith in
                      (
                        ms,
                        named,
                        ground arith,
                        assemble-Rising E hex_decode stored 0 parts (start_assembly out c u) a
                            sorted built,
                        rw same_one chunks,
                        rw same_one (size ∙ zero_plus (size_of ms)),
                      )
                ]
        ]
      ]

  -- The answer to a completion that is asked for again: what the record of the upload's completion
  -- says, and nothing else
  abbrev pub AnsweredAgain : Bytes → Manifest → W → Type 0
  AnsweredAgain id m w =
      let found = Uploads.upload out.meta id w in
      (found.0 ≡ err not_found)
      × (d : Completion) × ((Uploads.completion out.meta id found.1).0 ≡ ok d)
      × (m ≡ record no_manifest { etag = d.etag; modified = d.when })

  -- The parts that were stored, and what the object is of them
  abbrev pub OfParts :
      (Bytes → Option Bytes) → Fault E → Bytes → List CompletedPart → Manifest → W → Type 0
  OfParts hex_decode bad_key id parts m w =
      let found = Uploads.upload out.meta id w in
      (stored : List (ℕ × Manifest)) × ((Uploads.parts out.meta bad_key id found.1).0 ≡ ok stored)
      × (ms : List Manifest) × Named stored parts ms
      × (0 < length parts)
      × Rising parts
      × (m.chunks ≡ chunks_of ms)
      × (m.size ≡ size_of ms)

  -- A CompleteUpload that succeeds names at least one part, only parts that are stored, and with
  -- numbers that grow, and its object is the chunks of these parts in order, of the sum of their
  -- sizes; or the upload is no longer there, and the answer is the ETag and the time that the record
  -- of its completion holds, whatever parts are named.
  pub complete_upload-Named :
      (hex_decode : Bytes → Option Bytes) (bad_key : Fault E) (id : Bytes)
      (parts : List CompletedPart) (crc32c crc64nvme crc32 : Option ℕ) (w w' : W) (m : Manifest)
      → complete_upload out c hex_decode bad_key id parts crc32c crc64nvme crc32 w ≡ (ok m, w')
      → OfParts hex_decode bad_key id parts m w ⊎ AnsweredAgain id m w
  unfolding complete_upload
  complete_upload-Named hex_decode bad_key id parts crc32c crc64nvme crc32 w w' m h =
      let found = Uploads.upload out.meta id w in
      elim (Result-cases found.0) [
        | inr (u, there_is) ↦
            let read = Uploads.parts out.meta bad_key id found.1 in
            elim (Result-cases read.0) [
              | inl (e, failed) ↦
                  absurd
                    (ok-ne-err (sym (ap (λ r. r.0) (rw (there_is, failed, complete_upload) at h))))
              | inr (stored, done) ↦
                  let (ms, named, some_parts, rising, chunks, size) =
                    complete_with-Named hex_decode stored id u parts crc32c crc64nvme crc32 read.1
                      w' m (rw (there_is, done, complete_upload) at h) in
                  inl (stored, done, ms, named, some_parts, rising, chunks, size)
            ]
        | inl (e, gone) ↦
            let done = Uploads.completion out.meta id found.1 in
            elim (Bool-cases (is_not_found e)) [
              | inr other ↦
                  absurd (ok-ne-err (sym (ap (λ r. r.0) (rw (gone, other, complete_upload) at h))))
              | inl missing ↦ elim (Result-cases done.0) [
                | inl (e', failed) ↦ absurd (
                    ok-ne-err
                      (sym (ap (λ r. r.0) (rw (gone, missing, failed, complete_upload) at h))))
                | inr (d, recorded) ↦ inr (
                  gone ∙ ap err (not_found_only e missing),
                  d,
                  recorded,
                  sym (ok_inj (ap (λ r. r.0) (rw (gone, missing, recorded, complete_upload) at h))),
                )
              ]
            ]
      ]
