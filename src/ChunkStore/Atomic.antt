-- ===== src/ChunkStore/Atomic.antt =====
-- internal/store/store.go: what a write of a chunk leaves at its path, whatever call of it fails.
use kavo.Base.{
  ℕ, ◌≡◌, ◌≢◌, refl, ap, sym, ◌∙◌, ◌⊎◌, inl, inr, Bool, true, false, Option, some, [], ◌++◌, length,
  Bytes, Result, ok, err, ok-ne-err,
}
use kavo.Base.Actions.{Action, pure, given, fail_if, ◌>>=◌, ◌>>◌, >>=-elim}
use kavo.Faults.{Fault, read_failed}
use kavo.Object.Write.{Source}
use kavo.ChunkStore.{Os, ChunkStore, staged, abandon, durable_write}

-- What the calls do to the contents of files, by their documentation. `at w p` is what a path names:
-- a temporary file starts empty in its directory, a write appends, a rename that succeeds moves the
-- file in one step, and one that fails changes nothing.
pub record Files {W E : Type 0} (os : Os W E) (at : W → Bytes → Option Bytes) : Type 0 where
  pub temp_made :
      (d tmp : Bytes) (w : W)
      → (os.create_temp d w).0 ≡ ok tmp
      → (os.dir tmp ≡ d) × (at (os.create_temp d w).1 tmp ≡ some [])
  pub temp_keeps : (d p : Bytes) (w : W) → os.dir p ≢ d → at (os.create_temp d w).1 p ≡ at w p
  pub written :
      (p bytes was : Bytes) (w : W)
      → at w p ≡ some was
      → (os.write_file p bytes w).0 ≡ ok tt
      → at (os.write_file p bytes w).1 p ≡ some (was ++ bytes)
  pub write_keeps : (q bytes p : Bytes) (w : W) → p ≢ q → at (os.write_file q bytes w).1 p ≡ at w p
  pub sync_keeps : (q p : Bytes) (w : W) → at (os.sync_file q w).1 p ≡ at w p
  pub close_keeps : (q p : Bytes) (w : W) → at (os.close_file q w).1 p ≡ at w p
  pub mkdir_keeps : (q p : Bytes) (w : W) → at (os.mkdir_all q w).1 p ≡ at w p
  pub sync_dir_keeps : (q p : Bytes) (w : W) → at (os.sync_dir q w).1 p ≡ at w p
  pub renamed :
      (q p : Bytes) (w : W) → (os.rename q p w).0 ≡ ok tt → at (os.rename q p w).1 p ≡ at w q
  pub rename_failed :
      (q p : Bytes) (e : Fault E) (w : W)
      → (os.rename q p w).0 ≡ err e
      → at (os.rename q p w).1 p ≡ at w p
  pub remove_keeps : (q p : Bytes) (w : W) → p ≢ q → at (os.remove q w).1 p ≡ at w p

module _ {W E : Type 0} (os : Os W E) (crc32c : Bytes → ℕ) (at : W → Bytes → Option Bytes)
    (files : Files os at) (path : Bytes) (src : Source)
    (check : ℕ → ℕ → Result (Fault E) (Unit {0})) where
  -- The whole of the source, which passed the check, lies at the path.
  abbrev pub Committed : W → Type 0
  Committed w =
      (at w path ≡ some src.content)
      × (src.fails ≡ false)
      × (check (crc32c src.content) (length src.content) ≡ ok tt)

  -- Where a write succeeds the chunk is committed; where it fails, the path names what it named, or
  -- the chunk is committed all the same.
  abbrev pub Atomic : {A : Type 0} → Option Bytes → Result (Fault E) A × W → Type 0
  Atomic was (ok a, w) = Committed w
  Atomic was (err e, w) = (at w path ≡ was) ⊎ Committed w

  module _ (tmp : Bytes) (was : Option Bytes) (apart : path ≢ tmp) where
    -- The last two calls, from a file that is complete
    renamed-Atomic :
        (w : W)
        → at w path ≡ was
        → at w tmp ≡ some src.content
        → src.fails ≡ false
        → check (crc32c src.content) (length src.content) ≡ ok tt
        → Atomic {A = ℕ × ℕ} was (
            (os.rename tmp path
                >> (os.sync_dir (os.dir path) >> pure (crc32c src.content, length src.content)))
              w)
    renamed-Atomic w old full sound passed =
        >>=-elim (Atomic {A = ℕ × ℕ} was) (os.rename tmp path)
          (λ _. os.sync_dir (os.dir path) >> pure (crc32c src.content, length src.content)) w
          (λ e failed. inl (files.rename_failed tmp path e w failed ∙ old))
          (λ u moved.
            let there = files.renamed tmp path w moved ∙ full in
            >>=-elim (Atomic {A = ℕ × ℕ} was) (os.sync_dir (os.dir path))
              (λ _. pure (crc32c src.content, length src.content)) _
              (λ e failed. inr (files.sync_dir_keeps (os.dir path) path _ ∙ there, sound, passed))
              (λ u synced. (files.sync_dir_keeps (os.dir path) path _ ∙ there, sound, passed)))

    step :
        {A B : Type 0} (act : Action W (Fault E) A) (next : A → Action W (Fault E) B) (w : W)
        → at (act w).1 path ≡ was
        → ((a : A) → (act w).0 ≡ ok a → Atomic was (next a (act w).1))
        → Atomic was ((act >>= next) w)
    step act next w kept k = >>=-elim (Atomic was) act next w (λ e failed. inl kept) k

    fail_if-ok : (b : Bool) (e : Fault E) (w : W) → (fail_if b e w).0 ≡ ok tt → b ≡ false
    fail_if-ok true e w h = absurd (ok-ne-err (sym h))
    fail_if-ok false e w h = refl

    fail_if-at : (b : Bool) (e : Fault E) (w : W) (p : Bytes) → at (fail_if b e w).1 p ≡ at w p
    fail_if-at true e w p = refl
    fail_if-at false e w p = refl

    staged-Atomic :
        (w : W)
        → at w path ≡ was
        → at w tmp ≡ some []
        → Atomic was (staged os crc32c tmp path src check w)
    unfolding staged
    staged-Atomic w old fresh =
        let moved : Action W (Fault E) (ℕ × ℕ) =
          os.rename tmp path
          >> (os.sync_dir (os.dir path) >> pure (crc32c src.content, length src.content)) in
        let made : Action W (Fault E) (ℕ × ℕ) = os.mkdir_all (os.dir path) >> moved in
        let closed : Action W (Fault E) (ℕ × ℕ) = os.close_file tmp >> made in
        let synced : Action W (Fault E) (ℕ × ℕ) = os.sync_file tmp >> closed in
        let checked : Action W (Fault E) (ℕ × ℕ) =
          given (check (crc32c src.content) (length src.content)) >> synced in
        let read : Action W (Fault E) (ℕ × ℕ) = fail_if src.fails read_failed >> checked in
        let w1 = (os.write_file tmp src.content w).1 in
        let w2 = (fail_if src.fails read_failed w1).1 in
        let old1 = files.write_keeps tmp src.content path w apart ∙ old in
        let old2 = fail_if-at src.fails read_failed w1 path ∙ old1 in
        step (os.write_file tmp src.content) (λ _. read) w old1
          (λ u done.
            let full2 =
              fail_if-at src.fails read_failed w1 tmp
              ∙ files.written tmp src.content [] w fresh done in
            step (fail_if src.fails read_failed) (λ _. checked) w1 old2
              (λ u sound.
                step (given (check (crc32c src.content) (length src.content))) (λ _. synced) w2 old2
                  (λ u passed.
                    let w3 = (os.sync_file tmp w2).1 in
                    let old3 = files.sync_keeps tmp path w2 ∙ old2 in
                    let full3 = files.sync_keeps tmp tmp w2 ∙ full2 in
                    step (os.sync_file tmp) (λ _. closed) w2 old3
                      (λ u done.
                        let old4 = files.close_keeps tmp path w3 ∙ old3 in
                        let full4 = files.close_keeps tmp tmp w3 ∙ full3 in
                        let w4 = (os.close_file tmp w3).1 in
                        step (os.close_file tmp) (λ _. made) w3 old4
                          (λ u done.
                            let old5 = files.mkdir_keeps (os.dir path) path w4 ∙ old4 in
                            let full5 = files.mkdir_keeps (os.dir path) tmp w4 ∙ full4 in
                            step (os.mkdir_all (os.dir path)) (λ _. moved) w4 old5
                              (λ u done.
                                renamed-Atomic (os.mkdir_all (os.dir path) w4).1 old5 full5
                                  (fail_if-ok src.fails read_failed w1 sound) passed))))))

    at_after :
        (o : Option Bytes) (w w' : W)
        → at w' path ≡ at w path
        → (at w path ≡ o) ⊎ Committed w
        → (at w' path ≡ o) ⊎ Committed w'
    at_after o w w' e (inl h) = inl (e ∙ h)
    at_after o w w' e (inr (h, sound, passed)) = inr (e ∙ h, sound, passed)

    abandon-Atomic :
        {A : Type 0} (r : Result (Fault E) A × W)
        → Atomic was r
        → Atomic was (abandon os crc32c tmp r)
    unfolding abandon
    abandon-Atomic (ok a, w) h = h
    abandon-Atomic (err e, w) h =
        at_after was w _
          (files.remove_keeps tmp path (os.close_file tmp w).1 apart ∙ files.close_keeps tmp path w)
          h

  pub durable_write-Atomic :
      (s : ChunkStore) (w : W)
      → os.dir path ≢ s.tmp_dir
      → Atomic (at w path) (durable_write os crc32c s path src check w)
  unfolding durable_write
  durable_write-Atomic s w elsewhere =
      >>=-elim (Atomic {A = ℕ × ℕ} (at w path)) (os.create_temp s.tmp_dir)
        (λ tmp w. abandon os crc32c tmp (staged os crc32c tmp path src check w)) w
        (λ e failed. inl (files.temp_keeps s.tmp_dir path w elsewhere))
        (λ tmp made.
          let (inside, fresh) = files.temp_made s.tmp_dir tmp w made in
          let apart : path ≢ tmp = λ e. elsewhere (ap os.dir e ∙ inside) in
          abandon-Atomic tmp (at w path) apart _ (
            staged-Atomic tmp (at w path) apart _ (files.temp_keeps s.tmp_dir path w elsewhere)
              fresh))
