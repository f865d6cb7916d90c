-- ===== src/Cluster/List/Limit.antt =====
-- internal/cluster/list.go: how much a page holds.
use kavo.Base.{
  ℕ, zero, suc, ◌+◌, ◌≤◌, ◌<◌, ◌≡◌, sym, subst, ◌∙◌, inl, inr, arith, ◌||◌, ltb, ◌==◌, Bool-cases,
  Option, none, some, Option-cases, List, [], ◌∷◌, ◌++◌, length, length-append, Bytes,
  if◌then◌else◌, Result, ok, err, Result-cases,
}
use kavo.Faults.{Fault}
use kavo.Meta.Entries.{Entry}
use kavo.Meta.Keys.{after, past_prefix}
use kavo.Meta.Manifests.{scan_entries}
use kavo.Cluster.Nodes.{Outside}
use kavo.Cluster.List.{
  ListRequest, ListPage, no_page, Scanned, stopped, going, is_full, within_group, list_keys,
  group_of, wanted, list_from, list,
}
use kavo.Cluster.List.Keys.{page_of}

module _ (req : ListRequest) where
  abbrev Within : ListPage → Type 0
  Within p = length p.objects + length p.prefixes ≤ req.limit

  list_keys-Within :
      (os : List Entry) (g f : Bytes) (p : ListPage)
      → Within p
      → Within (page_of (list_keys req os g f p))
  unfolding list_keys
  list_keys-Within [] g f p h = h
  list_keys-Within (o ∷ os) g f p h = elim (Bool-cases (within_group g o.key)) [
    | inl inside ↦ rw (inside, list_keys) (list_keys-Within os g f p h)
    | inr outside ↦ elim (Bool-cases (is_full req p)) [
      | inl full ↦ rw (outside, full, list_keys) h
      | inr room ↦
          let less_than : length p.objects + length p.prefixes < req.limit = ground arith in
          elim (Option-cases (group_of o.key req.prefix req.delimiter)) [
            | inl alone ↦
                rw (outside, room, alone, list_keys)
                  (list_keys-Within os [] (after o.key) (record p { objects = p.objects ++ o ∷ [] })
                    (omega (arith, length-append p.objects (o ∷ []))))
            | inr (gg, grouped) ↦
                rw (outside, room, grouped, list_keys)
                  (list_keys-Within os gg (past_prefix gg)
                    (record p { prefixes = p.prefixes ++ gg ∷ [] })
                    (omega (arith, length-append p.prefixes (gg ∷ []))))
          ]
    ]
  ]

  module _ {W E : Type 0} (out : Outside W E) where
    abbrev Small : Option (Result (Fault E) ListPage × W) → Type 0
    Small none = Unit
    Small (some (err e, w)) = Unit
    Small (some (ok p, w)) = Within p

    page-Small :
        (fuel : ℕ) (os : List Entry) (w : W)
        → ((f : Bytes) (q : ListPage) → Within q → Small (list_from out fuel req f q w))
        → (r : Scanned) → Within (page_of r)
        → Small (elim r [
          | stopped page' ↦ some (ok page', w)
          | going page' from' group ↦
              let rest = list_from out fuel req from' page' w in
              if ltb (length os) (wanted req) || length from' == 0 then some (ok page', w) else rest
        ])
    page-Small fuel os w later (stopped q) k = k
    page-Small fuel os w later (going q f' g) k =
        elim (Bool-cases (ltb (length os) (wanted req) || length f' == 0)) [
          | inl last ↦ rw last k
          | inr more ↦ rw more (later f' q k)
        ]

    list_from-Small :
        (fuel : ℕ) (f : Bytes) (p : ListPage) (w : W)
        → Within p
        → Small (list_from out fuel req f p w)
    unfolding list_from
    list_from-Small zero f p w h = tt
    list_from-Small (suc fuel) f p w h =
        let scanned = scan_entries out.meta req.prefix f (wanted req) w in
        elim (Result-cases scanned.0) [
          | inl (e, failed) ↦ rw (failed, list_from) tt
          | inr ([], done) ↦ rw (done, list_from) h
          | inr (o ∷ os, done) ↦
              rw (done, list_from)
                (page-Small fuel (o ∷ os) scanned.1 (λ f' q. list_from-Small fuel f' q scanned.1)
                  (list_keys req (o ∷ os) [] f p) (list_keys-Within (o ∷ os) [] f p h))
        ]

    -- A page that List returns holds at most as many objects and common prefixes as the request's
    -- limit.
    pub list-Within :
        (fuel : ℕ) (w w' : W) (p : ListPage)
        → list out fuel req w ≡ some (ok p, w')
        → length p.objects + length p.prefixes ≤ req.limit
    unfolding list
    list-Within fuel w w' p e = elim (Bool-cases (req.limit == 0)) [
      | inl z ↦
          let page : some (ok no_page, w) ≡ some (ok p, w') = sym (rw z) ∙ e in
          subst Small page (omega arith)
      | inr nz ↦
          let same_list : list_from out fuel req req.from no_page w ≡ some (ok p, w') =
            sym (rw nz) ∙ e in
          subst Small same_list (list_from-Small fuel req.from no_page w (omega arith))
    ]
