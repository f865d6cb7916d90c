-- ===== src/Cluster/List/Keys.antt =====
-- internal/cluster/list.go: the loop over the keys of one scan, and what the position that it ends at
-- covers.
use kavo.Base.{
  ◌≡◌, ◌<◌, ◌≢◌, ◌⊎◌, refl, ◌∙◌, inl, inr, arith, true, false, ◌==◌, Bool-cases, Option-cases, List,
  [], ◌∷◌, ◌++◌, length, All, All-map, Bytes, IsBytes, less, has_prefix,
}
use kavo.Meta.Entries.{Entry}
use kavo.Meta.Keys.{after, past_prefix, less-after, ends_plain, less-past_prefix, past_prefix_empty}
use kavo.Cluster.Collect.Scan.{Sorted, less_refl, less_asym}
use kavo.Cluster.List.{
  ListRequest, ListPage, Scanned, stopped, going, is_full, within_group, list_keys, group_of,
}
use kavo.Cluster.List.Groups.{group_of-prefix, group_of-plain, above_prefix, up_to_prefix}

abbrev pub page_of : Scanned → ListPage
page_of (stopped p) = p
page_of (going p f g) = p

abbrev pub entry_key : Entry → Bytes
entry_key e = e.key

-- A key of a listing: bytes, with the prefix of the request
abbrev pub Listed : ListRequest → Entry → Type 0
Listed req e = (has_prefix e.key req.prefix ≡ true) × IsBytes e.key

abbrev pub Ahead : Bytes → Bytes → List Entry → Type 0
Ahead f g = All (λ e. less e.key f ≡ within_group g e.key)

abbrev pub Behind : Bytes → List Entry → Type 0
Behind f = All (λ e. less e.key f ≡ true)

-- How a scan's loop ends: the position is past what was read, and below what was not but for the
-- keys of the last group; or no position is past the last group, and nothing else is left.
abbrev pub Ends : Bytes → List Entry → List Entry → Scanned → Type 0
Ends f page post (stopped p) = Unit
Ends f page post (going p f' g') =
    ((f' ≡ []) × All (λ e. within_group g' e.key ≡ true) post)
    ⊎ (Behind f' page
        × Ahead f' g' post
        × ((b : Bytes)
            → IsBytes b
            → less b f ≡ true
            → All (λ e. less b e.key ≡ true) page
            → less b f' ≡ true))

-- A delimiter whose last byte below 0xff is below 0x7f, so that PastPrefix steps over its groups
abbrev pub Plain : ListRequest → Type 0
Plain req = 0 < length req.delimiter → ends_plain req.delimiter ≡ true

nil-cases : (b : Bytes) → (b ≡ []) ⊎ (b ≢ [])
nil-cases [] = inl refl
nil-cases (c ∷ cs) = inr (λ e. cc)

module _ (req : ListRequest) where
  pub skip_all :
      (os : List Entry) (g f : Bytes) (p : ListPage)
      → All (λ e. within_group g e.key ≡ true) os
      → list_keys req os g f p ≡ going p f g
  unfolding list_keys
  skip_all [] g f p a = refl
  skip_all (o ∷ os) g f p (h, a) = rw (h, list_keys) (skip_all os g f p a)

  extend :
      (o : Entry) (os post : List Entry) (f f1 : Bytes) (r : Scanned)
      → less o.key f1 ≡ true
      → All (λ e. less o.key e.key ≡ true) os
      → IsBytes o.key
      → ((b : Bytes) → IsBytes b → less b f ≡ true → less b o.key ≡ true → less b f1 ≡ true)
      → Ends f1 os post r
      → Ends f (o ∷ os) post r
  extend o os post f f1 (stopped p) h above bo k ends = tt
  extend o os post f f1 (going p f' g') h above bo k (inl e) = inl e
  extend o os post f f1 (going p f' g') h above bo k (inr (behind, ahead, mono)) =
      inr ((mono o.key bo h above, behind), ahead, λ b bb hb a. mono b bb (k b bb hb a.0) a.1)

  pub All-left : (P : Entry → Type 0) (xs ys : List Entry) → All P (xs ++ ys) → All P xs
  All-left P [] ys a = tt
  All-left P (x ∷ xs) ys (h, a) = (h, All-left P xs ys a)

  pub All-right : (P : Entry → Type 0) (xs ys : List Entry) → All P (xs ++ ys) → All P ys
  All-right P [] ys a = a
  All-right P (x ∷ xs) ys (h, a) = All-right P xs ys a

  -- After a key that is reported on its own
  after-Ahead :
      (o : Entry) (es : List Entry)
      → All (λ e. less o.key e.key ≡ true) es
      → Ahead (after o.key) [] es
  after-Ahead o es a = All-map _ _ es (λ e h. ground (arith, less-after o.key e.key)) a

  -- After a group
  group-Ahead :
      (o : Entry) (g : Bytes) (es : List Entry)
      → has_prefix o.key g ≡ true
      → (length g == 0) ≡ false
      → ends_plain g ≡ true
      → All (λ e. less o.key e.key ≡ true) es
      → All (Listed req) es
      → Ahead (past_prefix g) g es
  group-Ahead o g [] h k ne a l = tt
  group-Ahead o g (e ∷ es) h k ne (above, a) ((pre, bytes), l) =
      let beyond : less e.key g ≡ false = above_prefix o.key g e.key h above in
      let place = less-past_prefix g e.key bytes ne in
      (ground (arith, beyond, place), group-Ahead o g es h k ne a l)

  group_last :
      (o : Entry) (g : Bytes) (es : List Entry)
      → has_prefix o.key g ≡ true
      → (length g == 0) ≡ false
      → past_prefix g ≡ []
      → All (λ e. less o.key e.key ≡ true) es
      → All (Listed req) es
      → All (λ e. within_group g e.key ≡ true) es
  group_last o g [] h k none_past a l = tt
  group_last o g (e ∷ es) h k none_past (above, a) ((pre, bytes), l) =
      let beyond : less e.key g ≡ false = above_prefix o.key g e.key h above in
      let place = past_prefix_empty g e.key bytes none_past in
      (ground (arith, beyond, place), group_last o g es h k none_past a l)

  past_prefix-below :
      (o : Entry) (g b : Bytes)
      → has_prefix o.key g ≡ true
      → ends_plain g ≡ true
      → IsBytes b
      → less o.key b ≡ false
      → less b (past_prefix g) ≡ true
  past_prefix-below o g b h ne bytes up =
      less-past_prefix g b bytes ne ∙ up_to_prefix o.key g b h up

  -- The loop over what a scan read, when the keys that follow are those past its position.
  pub list_keys-Ends :
      (page post : List Entry) (g f : Bytes) (p : ListPage)
      → Sorted entry_key (page ++ post)
      → All (Listed req) (page ++ post)
      → Ahead f g (page ++ post)
      → Plain req
      → Ends f page post (list_keys req page g f p)
  unfolding list_keys
  list_keys-Ends [] post g f p s l ahead plain = inr (tt, ahead, λ b bb h a. h)
  list_keys-Ends (o ∷ os) post g f p (above, s) ((pre, bytes), l) (here, ahead) plain =
      let above_os = All-left (λ e. less o.key e.key ≡ true) os post above in
      elim (Bool-cases (within_group g o.key)) [
        | inl inside ↦
            rw (inside, list_keys)
              (extend o os post f f (list_keys req os g f p) (here ∙ inside) above_os bytes
                (λ b bb h k. h) (list_keys-Ends os post g f p s l ahead plain))
        | inr outside ↦ elim (Bool-cases (is_full req p)) [
          | inl full ↦ rw (outside, full, list_keys) tt
          | inr room ↦ elim (Option-cases (group_of o.key req.prefix req.delimiter)) [
            | inl alone ↦
                let p' : ListPage = record p { objects = p.objects ++ o ∷ [] } in
                rw (outside, room, alone, list_keys)
                  (extend o os post f (after o.key) (list_keys req os [] (after o.key) p')
                    (ground (arith, less-after o.key o.key, less_refl o.key)) above_os bytes
                    (λ b bb h k. ground (arith, less-after o.key b, less_asym b o.key k))
                    (list_keys-Ends os post [] (after o.key) p' s l
                      (after-Ahead o (os ++ post) above) plain))
            | inr (gg, grouped) ↦
                let p' : ListPage = record p { prefixes = p.prefixes ++ gg ∷ [] } in
                let (has_gg, some_gg) =
                  group_of-prefix o.key req.prefix req.delimiter gg pre grouped in
                let plain_gg = group_of-plain o.key req.prefix req.delimiter gg plain grouped in
                elim (nil-cases (past_prefix gg)) [
                  | inl none_past ↦
                      let all = group_last o gg (os ++ post) has_gg some_gg none_past above l in
                      rw
                        (
                          outside,
                          room,
                          grouped,
                          list_keys,
                          skip_all os gg (past_prefix gg) p' (All-left _ os post all),
                        )
                        (inl (none_past, All-right _ os post all))
                  | inr some_past ↦
                      rw (outside, room, grouped, list_keys)
                        (extend o os post f (past_prefix gg)
                          (list_keys req os gg (past_prefix gg) p')
                          (past_prefix-below o gg o.key has_gg plain_gg bytes (less_refl o.key))
                          above_os bytes
                          (λ b bb h k.
                            past_prefix-below o gg b has_gg plain_gg bb (less_asym b o.key k))
                          (list_keys-Ends os post gg (past_prefix gg) p' s l
                            (group-Ahead o gg (os ++ post) has_gg some_gg plain_gg above l) plain))
                ]
          ]
        ]
      ]
