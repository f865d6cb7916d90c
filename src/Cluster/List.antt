-- ===== src/Cluster/List.antt =====
-- internal/cluster/list.go: one page of a listing, put together from scans of the keys.
pub mod Groups
pub mod Keys
pub mod Pages
pub mod Limit
pub mod Tests
use kavo.Base.{
  ℕ, zero, suc, ◌+◌, Bool, true, false, not, ◌&&◌, ◌||◌, ltb, ◌==◌, Option, none, some, List, [],
  ◌∷◌, ◌++◌, length, take, Bytes, has_prefix, trim_prefix, index, if◌then◌else◌, Result, ok, err,
}
use kavo.Faults.{Fault}
use kavo.Meta.Entries.{Entry}
use kavo.Meta.Keys.{after, past_prefix}
use kavo.Meta.Manifests.{scan_entries}
use kavo.Cluster.Nodes.{Outside}

-- A limit of zero stands for all that are not positive.
pub record ListRequest : Type 0 where
  pub prefix : Bytes
  pub delimiter : Bytes
  pub from : Bytes
  pub limit : ℕ

pub record ListPage : Type 0 where
  pub objects : List Entry
  pub prefixes : List Bytes
  pub next : Bytes

abbrev pub no_page : ListPage
no_page = record { objects = []; prefixes = []; next = [] }

abbrev pub scan_page_size : ℕ
scan_page_size = 256

-- groupOf
unfoldable pub group_of : Bytes → Bytes → Bytes → Option Bytes
group_of key prefix delimiter =
    let rest = trim_prefix key prefix in
    if length delimiter == 0 then none else elim (index rest delimiter) [
      | none ↦ none
      | some i ↦ some (prefix ++ take (i + length delimiter) rest)
    ]

-- How the loop over the keys of one scan ends: with the page, or with the page, the position and the
-- group that it goes on from
pub data Scanned : Type 0 where
  stopped : ListPage → Scanned
  going : ListPage → Bytes → Bytes → Scanned

abbrev pub is_full : ListRequest → ListPage → Bool
is_full req page = length page.objects + length page.prefixes == req.limit

abbrev pub within_group : Bytes → Bytes → Bool
within_group group key = not (length group == 0) && has_prefix key group

unfoldable pub list_keys : ListRequest → List Entry → Bytes → Bytes → ListPage → Scanned
list_keys req [] group from page = going page from group
list_keys req (o ∷ os) group from page =
    let skipped = list_keys req os group from page in
    let alone =
      list_keys req os [] (after o.key) (record page { objects = page.objects ++ o ∷ [] }) in
    if within_group group o.key
    then skipped
    else if is_full req page
    then stopped (record page { next = from })
    else elim (group_of o.key req.prefix req.delimiter) [
      | some g ↦
          list_keys req os g (past_prefix g) (record page { prefixes = page.prefixes ++ g ∷ [] })
      | none ↦ alone
    ]

-- How many keys a scan asks for
abbrev pub wanted : ListRequest → ℕ
wanted req = if length req.delimiter == 0 then req.limit + 1 else scan_page_size

module _ {W E : Type 0} (out : Outside W E) where
  -- The loop over the scans, with `none` when the fuel runs out
  unfoldable pub list_from :
      ℕ → ListRequest → Bytes → ListPage → W → Option (Result (Fault E) ListPage × W)
  list_from zero req from page w = none
  list_from (suc fuel) req from page w =
      let (r, w') = scan_entries out.meta req.prefix from (wanted req) w in
      elim r [
        | err e ↦ some (err e, w')
        | ok [] ↦ some (ok page, w')
        | ok (o ∷ os) ↦ elim (list_keys req (o ∷ os) [] from page) [
          | stopped page' ↦ some (ok page', w')
          | going page' from' group ↦
              let rest = list_from fuel req from' page' w' in
              if ltb (length (o ∷ os)) (wanted req) || length from' == 0
              then some (ok page', w')
              else rest
        ]
      ]

  unfoldable pub list : ℕ → ListRequest → W → Option (Result (Fault E) ListPage × W)
  list fuel req w =
      let loop = list_from fuel req req.from no_page w in
      if req.limit == 0 then some (ok no_page, w) else loop
