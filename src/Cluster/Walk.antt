-- ===== src/Cluster/Walk.antt =====
-- internal/cluster/repair.go: walk, the loop over all objects that the background passes share. A
-- pass counts in a state beside the world. The context does not end, so that the error of a visit is
-- logged and no more.
pub mod Visits
pub mod Each
use kavo.Base.{
  ℕ, zero, suc, ◌==◌, Bool, Option, none, some, List, [], ◌∷◌, length, Bytes, if◌then◌else◌, Result,
  ok, err,
}
use kavo.Base.Actions.{Action}
use kavo.Faults.{Fault}
use kavo.Meta.Entries.{Object}
use kavo.Meta.Keys.{after}
use kavo.Meta.Manifests.{scan_objects, save_cursor, cursor}
use kavo.Cluster.Collect.{scan_page}
use kavo.Cluster.Nodes.{Config, Outside}

-- An action on the world beside the counts
abbrev pub lift : {W E S A : Type 0} → Action W E A → Action (S × W) E A
lift act (s, w) = let (r, w') = act w in (r, (s, w'))

-- A change of the counts alone
abbrev pub tally : {W E S : Type 0} → (S → S) → Action (S × W) E (Unit {0})
tally f (s, w) = (ok tt, (f s, w))

-- A call that is counted by how it ends
abbrev pub counted :
    {W E S : Type 0} → Action W E (Unit {0}) → (S → S) → (S → S) → Action (S × W) E (Unit {0})
counted act failed done (s, w) =
    let (r, w') = act w in elim r [ err e ↦ (err e, (failed s, w')) | ok u ↦ (ok tt, (done s, w')) ]

-- A loop that goes on after an error and joins the errors at its end. What stands for the joined
-- errors is the first one.
unfoldable pub each :
    {V E X : Type 0} → (X → Action V E (Unit {0})) → List X → Action V E (Unit {0})
each body [] v = (ok tt, v)
each body (x ∷ xs) v =
    let (r, v') = body x v in
    let (rest, v'') = each body xs v' in (elim r [ ok u ↦ rest | err e ↦ err e ], v'')

abbrev pub Visit : Type 0 → Type 0 → Type 0 → Type 0
Visit W E S = Object → Action (S × W) (Fault E) (Unit {0})

-- Where a walk resumes from a cursor
abbrev pub resume_from : Bytes → Bytes
resume_from cursor = if length cursor == 0 then [] else after cursor

module _ {W E S : Type 0} (visit : Visit W E S) where
  -- The loop over the objects of a page, with the cursor that it ends with
  unfoldable pub visit_page : List Object → Bytes → S × W → Bytes × (S × W)
  visit_page [] last v = (last, v)
  visit_page (o ∷ os) last v = visit_page os o.key (visit o v).1

module _ {W E S : Type 0} (out : Outside W E) (c : Config) (task : Bytes)
    (visit : Visit W E S) where
  -- The loop over the pages, with `none` when the fuel runs out
  unfoldable pub walk_from : ℕ → Bytes → S × W → Option (Result (Fault E) (Unit {0}) × (S × W))
  walk_from zero last v = none
  walk_from (suc fuel) last (s, w) =
      let (r, w') = scan_objects out.meta [] (resume_from last) scan_page w in
      elim r [
        | err e ↦ some (err e, (s, w'))
        | ok [] ↦ some (lift (save_cursor out.meta task c.self []) (s, w'))
        | ok (o ∷ os) ↦
            let (last', (s', w'')) = visit_page visit (o ∷ os) last (s, w') in
            let (saved, w3) = save_cursor out.meta task c.self last' w'' in
            let rest = walk_from fuel last' (s', w3) in
            elim saved [ err e ↦ some (err e, (s', w3)) | ok u ↦ rest ]
      ]

  unfoldable pub walk : ℕ → S × W → Option (Result (Fault E) (Unit {0}) × (S × W))
  walk fuel (s, w) =
      let (r, w') = cursor out.meta task c.self w in
      elim r [ err e ↦ some (err e, (s, w')) | ok last ↦ walk_from fuel last (s, w') ]
