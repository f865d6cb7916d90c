-- ===== src/Cluster/Walk/Visits.antt =====
-- internal/cluster/repair.go: which objects a walk visits.
use kavo.Base.{
  ℕ, zero, suc, ◌<◌, ◌≡◌, ◌≢◌, refl, ap, sym, ◌∙◌, ◌⊎◌, inl, inr, false, not, ◌==◌, Option, some,
  List, [], ◌∷◌, ◌++◌, append_assoc, append-nil, arith, Bool-cases, length, take, drop,
  take-append-drop, keep, All, length-drop, Bytes, less, Result, ok, err, Result-cases,
}
use kavo.Faults.{Fault}
use kavo.Meta.Entries.{Object}
use kavo.Meta.Keys.{after, less-after, less_nil}
use kavo.Meta.Manifests.{scan_objects, save_cursor, cursor}
use kavo.Cluster.Nodes.{Config, Outside}
use kavo.Cluster.Collect.{scan_page}
use kavo.Cluster.Collect.Scan.{Sorted, drop_page, init_last, less_refl, less_asym}
use kavo.Cluster.Walk.{Visit, resume_from, visit_page, walk_from, walk}

abbrev pub key_of : Object → Bytes
key_of o = o.key

-- The objects at and past a position
abbrev pub from_here : Bytes → List Object → List Object
from_here from = keep (λ o. not (less o.key from))

module _ {W E S : Type 0} (visit : Visit W E S) where
  -- The visit, which also writes down what is visited
  abbrev pub logged : Visit W E (List Object × S)
  logged o ((seen, s), w) = let (r, (s', w')) = visit o (s, w) in (r, ((seen ++ o ∷ [], s'), w'))

  visit_page-append :
      (q : List Object) (z : Object) (last : Bytes) (seen : List Object) (s : S) (w : W)
      → (s' : S) × (w' : W) × (visit_page logged (q ++ z ∷ []) last ((seen, s), w)
          ≡ (z.key, ((seen ++ (q ++ z ∷ []), s'), w')))
  unfolding visit_page
  visit_page-append [] z last seen s w = let v = (visit z (s, w)).1 in (v.0, v.1, refl)
  visit_page-append (o ∷ q) z last seen s w =
      let v = (visit o (s, w)).1 in
      let (s', w', e) = visit_page-append q z o.key (seen ++ o ∷ []) v.0 v.1 in
      (s', w', e ∙ ap (λ l. (z.key, ((l, s'), w'))) (append_assoc seen (o ∷ []) (q ++ z ∷ [])))

from_after :
    (x : Object) (xs : List Object) → from_here (after x.key) xs ≡ keep (λ o. less x.key o.key) xs
from_after x [] = refl
from_after x (o ∷ xs) = elim (Bool-cases (less x.key o.key)) [
  | inl e ↦ rw (less-after x.key o.key, e) (ap (◌∷◌ o) (from_after x xs))
  | inr e ↦ rw (less-after x.key o.key, e) (from_after x xs)
]

resume_past : (k : Bytes) → k ≢ [] → resume_from k ≡ after k
resume_past [] h = absurd (h refl)
resume_past (c ∷ k) h =
    let some_key : (length (c ∷ k) == 0) ≡ false = ground arith in rw some_key refl

last-All :
    (P : Object → Type 0) (q : List Object) (z : Object) (post : List Object)
    → All P (q ++ z ∷ post)
    → P z
last-All P [] z post (h, a) = h
last-All P (x ∷ q) z post (h, a) = last-All P q z post a

module _ {W E S : Type 0} (out : Outside W E) (c : Config) (task : Bytes)
    (visit : Visit W E S) where
  -- What a walk does after the visits of a page
  abbrev after_page : ℕ → Bytes × (S × W) → Option (Result (Fault E) (Unit {0}) × (S × W))
  after_page fuel (last, (s, w)) =
      let (saved, w') = save_cursor out.meta task c.self last w in
      elim saved [
        | err e ↦ some (err e, (s, w'))
        | ok u ↦ walk_from out c task visit fuel last (s, w')
      ]

  walk_from_page :
      (fuel : ℕ) (last : Bytes) (s : S) (w : W) (o : Object) (os : List Object)
      → (scan_objects out.meta [] (resume_from last) scan_page w).0 ≡ ok (o ∷ os)
      → walk_from out c task visit (suc fuel) last (s, w)
        ≡ after_page fuel (
            visit_page visit
              (o ∷ os)
              last
              (s, (scan_objects out.meta [] (resume_from last) scan_page w).1))
  unfolding walk_from
  walk_from_page fuel last s w o os page = rw (page, walk_from) refl

module _ {W E S : Type 0} (out : Outside W E) (c : Config) (task : Bytes) (visit : Visit W E S)
    (xs : List Object) where
  -- A scan fails, or it reads the next objects of the snapshot, as many as it may.
  abbrev pub Scans : Type 0
  Scans =
      (from : Bytes) (n : ℕ) (w : W)
      → ((e : Fault E) × ((scan_objects out.meta [] from n w).0 ≡ err e))
        ⊎ ((scan_objects out.meta [] from n w).0 ≡ ok (take n (from_here from xs)))

  -- The error is that of a scan or of a write of the cursor.
  abbrev pub OfWalk : Fault E → Type 0
  OfWalk e =
      ((from : Bytes) × (n : ℕ) × (w : W) × ((scan_objects out.meta [] from n w).0 ≡ err e))
      ⊎ ((last : Bytes) × (w : W) × ((save_cursor out.meta task c.self last w).0 ≡ err e))

  -- A walk has failed with such an error, or it has visited these objects, and has reset the cursor
  -- as the last thing.
  abbrev pub Visited :
      List Object → Option (Result (Fault E) (Unit {0}) × ((List Object × S) × W)) → Type 0
  Visited os r =
      ((e : Fault E) × (v : (List Object × S) × W) × OfWalk e × (r ≡ some (err e, v)))
      ⊎ ((s : S) × (w : W) × ((save_cursor out.meta task c.self [] w).0 ≡ ok tt)
          × (r ≡ some (ok tt, ((os, s), (save_cursor out.meta task c.self [] w).1))))

  module _ (law : Scans) (sorted : Sorted key_of xs) (named : All (λ o. o.key ≢ []) xs) where
    walk_from-Visited :
        (fuel : ℕ) (pre rest : List Object) (last : Bytes) (seen : List Object) (s : S) (w : W)
        → xs ≡ pre ++ rest
        → from_here (resume_from last) xs ≡ rest
        → length rest < fuel
        → Visited (seen ++ rest) (walk_from out c task (logged visit) fuel last ((seen, s), w))
    unfolding walk_from
    walk_from-Visited zero pre rest last seen s w e k h = absurd (omega arith)
    walk_from-Visited (suc fuel) pre [] last seen s w e k h =
        let scanned = scan_objects out.meta [] (resume_from last) scan_page w in
        let saved = save_cursor out.meta task c.self [] scanned.1 in
        elim (law (resume_from last) scan_page w) [
          | inl (bad, failed) ↦ inl (
            bad,
            ((seen, s), scanned.1),
            inl (resume_from last, scan_page, w, failed),
            rw (failed, walk_from),
          )
          | inr got ↦
              let page : scanned.0 ≡ ok [] = got ∙ rw k in
              elim (Result-cases saved.0) [
                | inl (bad, failed) ↦ inl (
                  bad,
                  ((seen, s), saved.1),
                  inr ([], scanned.1, failed),
                  rw (page, walk_from, failed),
                )
                | inr (u, done) ↦
                    inr (s, scanned.1, done, rw (page, walk_from, done, append-nil seen))
              ]
        ]
    walk_from-Visited (suc fuel) pre (x ∷ r) last seen s w e k h =
        let scanned = scan_objects out.meta [] (resume_from last) scan_page w in
        elim (law (resume_from last) scan_page w) [
          | inl (bad, failed) ↦ inl (
            bad,
            ((seen, s), scanned.1),
            inl (resume_from last, scan_page, w, failed),
            rw (failed, walk_from),
          )
          | inr got ↦
              let page : scanned.0 ≡ ok (take scan_page (x ∷ r)) = got ∙ rw k in
              let (q, z, split) = init_last x (take 255 r) in
              let more = drop 255 r in
              let (s', w', visited) = visit_page-append visit q z last seen s scanned.1 in
              let whole : x ∷ r ≡ q ++ z ∷ more =
                ap (◌∷◌ x) (sym (take-append-drop 255 r))
                ∙ ap (λ l. l ++ more) split
                ∙ append_assoc q (z ∷ []) more in
              let parted : xs ≡ (pre ++ q) ++ z ∷ more =
                e ∙ ap (◌++◌ pre) whole ∙ sym (append_assoc pre q (z ∷ more)) in
              let z_named : z.key ≢ [] = last-All _ (pre ++ q) z more (rw parted at named) in
              let further : from_here (resume_from z.key) xs ≡ more =
                ap (λ p. from_here p xs) (resume_past z.key z_named)
                ∙ from_after z xs
                ∙ rw parted (
                    drop_page key_of less_refl less_asym (pre ++ q) z more (rw parted at sorted)) in
              let ahead : xs ≡ (pre ++ (q ++ z ∷ [])) ++ more =
                parted
                ∙ append_assoc pre q (z ∷ more)
                ∙ ap (◌++◌ pre) (sym (append_assoc q (z ∷ []) more))
                ∙ sym (append_assoc pre (q ++ z ∷ []) more) in
              let saved = save_cursor out.meta task c.self z.key w' in
              let all_seen : (seen ++ (q ++ z ∷ [])) ++ more ≡ seen ++ x ∷ r =
                append_assoc seen (q ++ z ∷ []) more
                ∙ ap (◌++◌ seen) (append_assoc q (z ∷ []) more ∙ sym whole) in
              let seen_page : visit_page (logged visit) (x ∷ take 255 r) last ((seen, s), scanned.1)
                  ≡ (z.key, ((seen ++ (q ++ z ∷ []), s'), w')) =
                rw split visited in
              let rest =
                walk_from-Visited fuel (pre ++ (q ++ z ∷ [])) more z.key (seen ++ (q ++ z ∷ [])) s'
                  saved.1 ahead further (omega (arith, length-drop 255 r)) in
              let step =
                walk_from_page out c task (logged visit) fuel last (seen, s) w x (take 255 r) page
                ∙ ap (after_page out c task (logged visit) fuel) seen_page in
              elim (Result-cases saved.0) [
                | inl (bad, failed) ↦ inl (
                  bad,
                  ((seen ++ (q ++ z ∷ []), s'), saved.1),
                  inr (z.key, w', failed),
                  step ∙ rw (failed, after_page) refl,
                )
                | inr (u, done) ↦ rw (step, done, after_page) (rw all_seen at rest)
              ]
        ]

    -- A walk that starts over visits every object, each once, in the order of the keys, whatever the
    -- visits do and return, and resets its cursor; or it fails with the error of a scan or of a write
    -- of the cursor. It ends if the fuel is above the number of objects. The snapshot is sorted by
    -- key, no key is empty, the cursor is read and empty, and every scan fails or reads the next
    -- objects of the snapshot.
    pub walk-Visited :
        (fuel : ℕ) (s : S) (w : W)
        → (cursor out.meta task c.self w).0 ≡ ok []
        → length xs < fuel
        → Visited xs (walk out c task (logged visit) fuel (([], s), w))
    unfolding walk
    walk-Visited fuel s w start h =
        rw (start, walk)
          (walk_from-Visited fuel [] xs [] [] s (cursor out.meta task c.self w).1 refl (all_here xs)
            h)
      where
        all_here : (ys : List Object) → from_here [] ys ≡ ys
        all_here [] = refl
        all_here (y ∷ ys) = rw (less_nil y.key) (ap (◌∷◌ y) (all_here ys))
