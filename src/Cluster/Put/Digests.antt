-- ===== src/Cluster/Put/Digests.antt =====
-- internal/cluster/cluster.go: the checksums that a Put records, next to the bytes of its body and to
-- what its caller declares.
use mathlib.Core.Path.{Path}
use mathlib.Core.Option.{some_inj, none-ne-some}
use kavo.Base.{
  ℕ, ◌≡◌, refl, ap, sym, subst, ◌∙◌, inl, inr, ◌⊎◌, arith, true, not, ◌&&◌, ◌==◌, Bool-cases,
  Option, none, some, Option-cases, List, [], ◌++◌, length, Bytes, if◌then◌else◌, Result, ok, err,
  ok-ne-err, Result-cases,
}
use kavo.Faults.{Fault, bad_digest}
use kavo.Ring.{owners, partition_for}
use kavo.Object.Manifest.{ChunkRef, Manifest}
use kavo.Object.Write
use kavo.Object.Write.{Source, WriteError, refused}
use kavo.Object.Write.Gathers.{write-Gathered}
use kavo.Cluster.Nodes.{Config, Membership, Outside, width, or_else}
use kavo.Cluster.Put.{
  Declared, PutOptions, Progress, equal_fold, declared_value, check_crc, of_write, store_marked,
  store_one, finish_write, settle, placeable, finish_manifest, write, checks, commit_written,
  described, put,
}
use kavo.Cluster.Put.Acknowledged.{Gives, commit_written-Gives}

module _ {W E : Type 0} (out : Outside W E) (c : Config) (live : Membership) where
  store_marked_hashed :
      (nodes : List Bytes) (given : ChunkRef) (bytes writing hashed : Bytes)
      (marked : Result (Fault E) (Unit {0}) × W) (ref : ChunkRef)
      → (store_marked out c live nodes given bytes writing hashed marked).0 ≡ ok ref
      → (store_marked out c live nodes given bytes writing hashed marked).1.hashed ≡ hashed ++ bytes
  store_marked_hashed nodes given bytes writing hashed (err e, w) ref h = absurd (ok-ne-err (sym h))
  store_marked_hashed nodes given bytes writing hashed (ok u, w) ref h = refl

  store_one_hashed :
      (nodes : List Bytes) (given : ChunkRef) (bytes : Bytes) (ref : ChunkRef) (p : Progress W)
      → (store_one out c live nodes given bytes p).0 ≡ ok ref
      → (store_one out c live nodes given bytes p).1.hashed ≡ p.hashed ++ bytes
  unfolding store_one
  store_one_hashed nodes given bytes ref p h =
      store_marked_hashed nodes given bytes _ p.hashed _ ref h

  -- What a write that succeeds records of the bytes that it has read
  abbrev Digested : Bytes → Option (Result (Fault E) (Manifest × Bytes) × W) → Type 0
  Digested total none = Unit
  Digested total (some (err e, w)) = Unit
  Digested total (some (ok (m, writing), w)) =
      (m.crc32c ≡ some (out.crc32c total))
      × (m.crc32 ≡ some (out.crc32 total))
      × (m.crc64nvme ≡ some (out.crc64 total))
      × (m.etag ≡ out.md5 total)

  abbrev Hashed : Bytes → Option (Result (WriteError (Fault E)) Manifest × Progress W) → Type 0
  Hashed total none = Unit
  Hashed total (some (err e, p)) = Unit
  Hashed total (some (ok m, p)) = p.hashed ≡ total

  finish_write-Digested :
      (nodes : List Bytes) (total : Bytes) (r : Result (WriteError (Fault E)) Manifest)
      (p : Progress W)
      → Hashed total (some (r, p))
      → Digested total (some (finish_write out c nodes (of_write r) p))
  unfolding finish_manifest
  finish_write-Digested nodes total (ok m) p h = (
    ap (λ x. some (out.crc32c x)) h,
    ap (λ x. some (out.crc32 x)) h,
    ap (λ x. some (out.crc64 x)) h,
    ap out.md5 h,
  )
  finish_write-Digested nodes total (err (refused e)) p h = tt
  finish_write-Digested nodes total (err Write.bad_chunk_size) p h = tt
  finish_write-Digested nodes total (err Write.read_failed) p h = tt

  write-Digested :
      (fuel : ℕ) (prefix key : Bytes) (body : Source) (expect : ℕ) (w : W)
      → Digested body.content (write out c fuel prefix live key body expect w)
  unfolding write
  write-Digested fuel prefix key body expect w =
      let nodes = owners live.ring (partition_for out.sha256 key) (width c) in
      let start : Progress W = record { world = w; writing = []; hashed = [] } in
      let loop =
        Write.write out.crc32c (store_one out c live nodes) prefix fuel body c.chunk_size expect
          start in
      elim (Result-cases (placeable out c nodes)) [
        | inl (e, unfit) ↦ rw (unfit, write) tt
        | inr (u, fit) ↦ elim (Option-cases loop) [
          | inl starved ↦ rw (fit, starved, write) tt
          | inr ((r, p), ended) ↦
              let all : Hashed body.content loop =
                write-Gathered out.crc32c (store_one out c live nodes) prefix (λ p. p.hashed)
                  (store_one_hashed nodes) fuel body c.chunk_size expect start in
              let hashed : Hashed body.content (some (r, p)) = rw ended at all in
              rw (fit, ended, write) (finish_write-Digested nodes body.content r p hashed)
        ]
      ]

  settle-ok :
      (key : Bytes) (opts : PutOptions E) (m0 m : Manifest) (writing : Bytes)
      (checked : Result (Fault E) (Unit {0})) (w : W)
      → (settle out c key opts m0 writing checked w).0 ≡ ok m
      → (checked ≡ ok tt) × (m ≡ described out c opts m0)
  settle-ok key opts m0 m writing (err e) w h = absurd (ok-ne-err (sym h))
  settle-ok key opts m0 m writing (ok u) w h =
      let w' = (commit_written out c key (described out c opts m0) writing w).1 in
      let gives : Gives out c (described out c opts m0) (ok m, w') =
        rw h at (commit_written-Gives out c key (described out c opts m0) writing w) in
      (refl, gives)

  -- What a Put that succeeds went through
  put-eq-ok :
      (fuel : ℕ) (prefix key : Bytes) (body : Source) (opts : PutOptions E) (w w' : W)
      (m : Manifest)
      → put out c fuel prefix live key body opts w ≡ some (ok m, w')
      → (m0 : Manifest) × (writing : Bytes) × (w1 : W) × (write out c fuel prefix live key body
            opts.size w
          ≡ some (ok (m0, writing), w1))
        × (checks out c opts m0 ≡ ok tt)
        × (m ≡ described out c opts m0)
  unfolding put
  put-eq-ok fuel prefix key body opts w w' m done =
      elim (Option-cases (write out c fuel prefix live key body opts.size w)) [
        | inl starved ↦ absurd (none-ne-some _ (rw (starved, put) at done))
        | inr ((err e, w1), ended) ↦
            absurd (ok-ne-err (sym (ap (λ x. x.0) (some_inj.0 (rw (ended, put) at done)))))
        | inr ((ok (m0, writing), w1), ended) ↦
            let settled : (settle out c key opts m0 writing (checks out c opts m0) w1).0 ≡ ok m =
              ap (λ x. x.0) (some_inj.0 (rw (ended, put) at done)) in
            let (passed, same_one) =
              settle-ok key opts m0 m writing (checks out c opts m0) w1 settled in
            (m0, writing, w1, ended, passed, same_one)
      ]

  -- Nothing is declared in the header, or what was computed; and where a trailer is read, it is read
  -- without an error and carries nothing, or what was computed.
  abbrev pub MayBe : Option ℕ → ℕ → Type 0
  MayBe v computed = (v ≡ none) ⊎ (v ≡ some computed)

  abbrev pub Trailed : Option (Result (Fault E) (Option ℕ)) → ℕ → Type 0
  Trailed none computed = Unit
  Trailed (some (err e)) computed = ⊥
  Trailed (some (ok v)) computed = MayBe v computed

  abbrev pub Agrees : Declared E → ℕ → Type 0
  Agrees d computed = MayBe d.header computed × Trailed d.trailing computed

  same_value :
      (v computed : ℕ)
      → Path
          (Result (Fault E) (Unit {0}))
          (if not (v == computed) then err bad_digest else ok tt)
          (ok tt)
      → MayBe (some v) computed
  same_value v computed h = elim (Bool-cases (v == computed)) [
    | inl same_one ↦ let e : v ≡ computed = ground arith in inr (ap some e)
    | inr other ↦ absurd (ok-ne-err (sym (rw other at h)))
  ]

  check_crc-Agrees :
      (computed : ℕ) (header : Option ℕ) (trailing : Option (Result (Fault E) (Option ℕ)))
      → check_crc (some computed) (record { header = header; trailing = trailing }) ≡ ok tt
      → Agrees (record { header = header; trailing = trailing }) computed
  unfolding check_crc declared_value
  check_crc-Agrees computed none none h = (inl refl, tt)
  check_crc-Agrees computed (some v) none h = (same_value v computed h, tt)
  check_crc-Agrees computed header (some (err e)) h = absurd (ok-ne-err (sym h))
  check_crc-Agrees computed none (some (ok none)) h = (inl refl, inl refl)
  check_crc-Agrees computed none (some (ok (some v))) h = (inl refl, same_value v computed h)
  check_crc-Agrees computed (some v) (some (ok none)) h = (same_value v computed h, inl refl)
  check_crc-Agrees computed (some v) (some (ok (some t))) h = elim (Bool-cases (t == v)) [
    | inl same_one ↦
        let e : t ≡ v = ground arith in
        let here = same_value v computed (rw (same_one, check_crc, declared_value) at h) in
        (here, subst (λ x. MayBe (some x) computed) (sym e) here)
    | inr other ↦ absurd (ok-ne-err (sym (rw (other, check_crc, declared_value) at h)))
  ]

  checks-Agrees :
      (opts : PutOptions E) (m : Manifest) (a b d : ℕ)
      → m.crc32c ≡ some a
      → m.crc32 ≡ some b
      → m.crc64nvme ≡ some d
      → checks out c opts m ≡ ok tt
      → ((length opts.md5 ≡ 0) ⊎ (equal_fold opts.md5 m.etag ≡ true))
        × Agrees opts.crc32c a
        × Agrees opts.crc32 b
        × Agrees opts.crc64nvme d
  unfolding checks
  checks-Agrees opts m a b d ea eb ed h =
      elim (Bool-cases (not (length opts.md5 == 0) && not (equal_fold opts.md5 m.etag))) [
        | inl wrong ↦ absurd (ok-ne-err (sym (rw (wrong, checks) at h)))
        | inr right ↦ elim (Result-cases (check_crc m.crc32c opts.crc32c)) [
          | inl (e, failed) ↦ absurd (ok-ne-err (sym (rw (right, failed, checks) at h)))
          | inr (tt', one) ↦ elim (Result-cases (check_crc m.crc32 opts.crc32)) [
            | inl (e, failed) ↦ absurd (ok-ne-err (sym (rw (right, one, failed, checks) at h)))
            | inr (tt'', two) ↦ (
              ground arith,
              check_crc-Agrees a opts.crc32c.header opts.crc32c.trailing
                  (ap (λ x. check_crc x opts.crc32c) (sym ea) ∙ one),
              check_crc-Agrees b opts.crc32.header opts.crc32.trailing
                  (ap (λ x. check_crc x opts.crc32) (sym eb) ∙ two),
              check_crc-Agrees d opts.crc64nvme.header opts.crc64nvme.trailing (
                  ap (λ x. check_crc x opts.crc64nvme) (sym ed)
                  ∙ rw (right, one, two, checks) at h),
            )
          ]
        ]
      ]

  -- A Put that succeeds returns the checksums of the whole body, and its MD5 as the ETag unless the
  -- caller gives another; and what the caller declares agrees with the body: an MD5, a checksum in a
  -- header, and a checksum in a trailer, which is then read without an error.
  pub put_digests :
      (fuel : ℕ) (prefix key : Bytes) (body : Source) (opts : PutOptions E) (w w' : W)
      (m : Manifest)
      → put out c fuel prefix live key body opts w ≡ some (ok m, w')
      → (m.crc32c ≡ some (out.crc32c body.content))
        × (m.crc32 ≡ some (out.crc32 body.content))
        × (m.crc64nvme ≡ some (out.crc64 body.content))
        × (m.etag ≡ or_else opts.etag (out.md5 body.content))
        × ((length opts.md5 ≡ 0) ⊎ (equal_fold opts.md5 (out.md5 body.content) ≡ true))
        × Agrees opts.crc32c (out.crc32c body.content)
        × Agrees opts.crc32 (out.crc32 body.content)
        × Agrees opts.crc64nvme (out.crc64 body.content)
  put_digests fuel prefix key body opts w w' m done =
      let (m0, writing, w1, ended, passed, same_one) =
        put-eq-ok fuel prefix key body opts w w' m done in
      let (ea, eb, ed, etag) : Digested body.content (some (ok (m0, writing), w1)) =
        rw ended at (write-Digested fuel prefix key body opts.size w) in
      let (md5, a, b, d) = checks-Agrees opts m0 _ _ _ ea eb ed passed in
      rw same_one (ea, eb, ed, ap (or_else opts.etag) etag, rw etag at md5, a, b, d)
