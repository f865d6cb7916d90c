-- ===== src/Cluster/Walk/Each.antt =====
-- internal/cluster: a loop that joins its errors, and what its steps keep and establish.
use kavo.Base.{
  ℕ, zero, suc, ◌≡◌, sym, inl, inr, Option, none, some, List, [], ◌∷◌, All, Bytes, Result, ok,
  ok-ne-err, Result-cases,
}
use kavo.Base.Actions.{Action}
use kavo.Faults.{Fault}
use kavo.Meta.Entries.{Object}
use kavo.Meta.Manifests.{scan_objects, save_cursor, cursor}
use kavo.Cluster.Nodes.{Config, Outside}
use kavo.Cluster.Collect.{scan_page}
use kavo.Cluster.Walk.{each, Visit, resume_from, visit_page, walk_from, walk}

module _ {V E X : Type 0} (body : X → Action V E (Unit {0})) where
  pub each_keeps :
      (Q : V → Type 0)
      → ((x : X) (v : V) → Q v → Q (body x v).1)
      → (xs : List X) (v : V) → Q v
      → Q (each body xs v).1
  unfolding each
  each_keeps Q stays [] v h = h
  each_keeps Q stays (x ∷ xs) v h = each_keeps Q stays xs (body x v).1 (stays x v h)

  -- A loop without an error has no error at the first item, nor at the others.
  each-ok :
      (x : X) (xs : List X) (v : V)
      → (each body (x ∷ xs) v).0 ≡ ok tt
      → ((body x v).0 ≡ ok tt) × ((each body xs (body x v).1).0 ≡ ok tt)
  unfolding each
  each-ok x xs v h = elim (Result-cases (body x v).0) [
    | inl (e, failed) ↦ absurd (ok-ne-err (sym (rw failed at h)))
    | inr (u, done) ↦ (done, rw done at h)
  ]

  module _ (Inv : V → Type 0) (P : X → V → Type 0)
      (keeps : (x : X) (v : V) → Inv v → Inv (body x v).1)
      (holds : (x : X) (v : V) → Inv v → (body x v).0 ≡ ok tt → P x (body x v).1)
      (stays : (x y : X) (v : V) → P x v → P x (body y v).1) where
    -- A loop without an error has established at every item what a step without an error does.
    pub each-All :
        (xs : List X) (v : V)
        → Inv v
        → (each body xs v).0 ≡ ok tt
        → All (λ x. P x (each body xs v).1) xs
    unfolding each
    each-All [] v inv h = tt
    each-All (x ∷ xs) v inv h =
        let (first, others) = each-ok x xs v h in
        (
          each_keeps (P x) (stays x) xs (body x v).1 (holds x v inv first),
          each-All xs (body x v).1 (keeps x v inv) others,
        )

module _ {W E S : Type 0} (visit : Visit W E S) (Q : S → Type 0)
    (keeps : (o : Object) (v : S × W) → Q v.0 → Q (visit o v).1.0) where
  -- What every visit keeps of the counts holds when a walk ends.
  abbrev pub EndsWith : Option (Result (Fault E) (Unit {0}) × (S × W)) → Type 0
  EndsWith none = Unit
  EndsWith (some (r, v)) = Q v.0

  visit_page_keeps :
      (os : List Object) (last : Bytes) (v : S × W) → Q v.0 → Q (visit_page visit os last v).1.0
  unfolding visit_page
  visit_page_keeps [] last v h = h
  visit_page_keeps (o ∷ os) last v h = visit_page_keeps os o.key (visit o v).1 (keeps o v h)

  module _ (out : Outside W E) (c : Config) (task : Bytes) where
    walk_from-EndsWith :
        (fuel : ℕ) (last : Bytes) (v : S × W)
        → Q v.0
        → EndsWith (walk_from out c task visit fuel last v)
    unfolding walk_from
    walk_from-EndsWith zero last v h = tt
    walk_from-EndsWith (suc fuel) last (s, w) h =
        let scanned = scan_objects out.meta [] (resume_from last) scan_page w in
        elim (Result-cases scanned.0) [
          | inl (e, failed) ↦ rw (failed, walk_from) h
          | inr ([], done) ↦ rw (done, walk_from) h
          | inr (o ∷ os, done) ↦
              let page = visit_page visit (o ∷ os) last (s, scanned.1) in
              let kept = visit_page_keeps (o ∷ os) last (s, scanned.1) h in
              elim (Result-cases (save_cursor out.meta task c.self page.0 page.1.1).0) [
                | inl (e, failed) ↦ rw (done, walk_from, failed) kept
                | inr (u, saved) ↦
                    rw (done, walk_from, saved)
                      (walk_from-EndsWith fuel page.0
                        (page.1.0, (save_cursor out.meta task c.self page.0 page.1.1).1) kept)
              ]
        ]

    pub walk-EndsWith : (fuel : ℕ) (v : S × W) → Q v.0 → EndsWith (walk out c task visit fuel v)
    unfolding walk
    walk-EndsWith fuel (s, w) h = elim (Result-cases (cursor out.meta task c.self w).0) [
      | inl (e, failed) ↦ rw (failed, walk) h
      | inr (last, done) ↦
          rw (done, walk) (walk_from-EndsWith fuel last (s, (cursor out.meta task c.self w).1) h)
    ]
