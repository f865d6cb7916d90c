-- ===== src/Cluster/List/Pages.antt =====
-- internal/cluster/list.go: a listing next to one pass over all keys.
use mathlib.Core.Bool.{true≢false}
use kavo.Base.{
  ℕ, zero, suc, ◌<◌, ◌≤◌, ◌≡◌, ◌⊎◌, refl, ap, sym, subst, ◌∙◌, inl, inr, arith, Bool, true, false,
  not, ◌||◌, ltb, ◌==◌, Bool-cases, Option, some, Option-cases, List, [], ◌∷◌, ◌++◌, length, take,
  drop, take-append-drop, length-drop, length-take, drop_all, All, All-map, keep, Bytes, IsBytes,
  less, Result, ok, err,
}
use kavo.Faults.{Fault}
use kavo.Meta.Entries.{Entry}
use kavo.Meta.Keys.{less_trans, less_total, less_nil}
use kavo.Meta.Manifests.{scan_entries}
use kavo.Cluster.Nodes.{Outside}
use kavo.Cluster.Collect.Scan.{Sorted, keep-All}
use kavo.Cluster.List.{
  ListRequest, ListPage, no_page, Scanned, stopped, going, is_full, within_group, list_keys,
  group_of, wanted, list_from, list,
}
use kavo.Cluster.List.Keys.{
  Plain, page_of, entry_key, Listed, Ahead, Behind, Ends, skip_all, All-left, list_keys-Ends,
}

-- The entries at and past a position
abbrev pub from_here : Bytes → List Entry → List Entry
from_here f = keep (λ e. not (less e.key f))

keep-from : (f : Bytes) (xs : List Entry) → Ahead f [] (from_here f xs)
keep-from f [] = tt
keep-from f (x ∷ xs) = elim (Bool-cases (less x.key f)) [
  | inl e ↦ rw e (keep-from f xs)
  | inr e ↦ rw e (e, keep-from f xs)
]

All-keep : (P : Entry → Type 0) (q : Entry → Bool) (xs : List Entry) → All P xs → All P (keep q xs)
All-keep P q [] a = tt
All-keep P q (x ∷ xs) (h, a) = elim (Bool-cases (q x)) [
  | inl e ↦ rw e (h, All-keep P q xs a)
  | inr e ↦ rw e (All-keep P q xs a)
]

keep-Sorted :
    (q : Entry → Bool) (xs : List Entry) → Sorted entry_key xs → Sorted entry_key (keep q xs)
keep-Sorted q [] s = tt
keep-Sorted q (x ∷ xs) (a, s) = elim (Bool-cases (q x)) [
  | inl e ↦ rw e (All-keep _ q xs a, keep-Sorted q xs s)
  | inr e ↦ rw e (keep-Sorted q xs s)
]

-- A later position keeps less.
keep-keep :
    (f f' : Bytes) (xs : List Entry)
    → All (λ e. less e.key f ≡ true → less e.key f' ≡ true) xs
    → from_here f' (from_here f xs) ≡ from_here f' xs
keep-keep f f' [] a = refl
keep-keep f f' (x ∷ xs) (h, a) = elim (Bool-cases (less x.key f)) [
  | inl e ↦ let k = h e in rw (e, k) (keep-keep f f' xs a)
  | inr e ↦ elim (Bool-cases (less x.key f')) [
    | inl k ↦ rw (e, k) (keep-keep f f' xs a)
    | inr k ↦ rw (e, k) (ap (◌∷◌ x) (keep-keep f f' xs a))
  ]
]

keep-Behind :
    (f : Bytes) (xs ys : List Entry) → Behind f xs → from_here f (xs ++ ys) ≡ from_here f ys
keep-Behind f [] ys a = refl
keep-Behind f (x ∷ xs) ys (h, a) = rw h (keep-Behind f xs ys a)

length-keep : (q : Entry → Bool) (xs : List Entry) → length (keep q xs) ≤ length xs
length-keep q [] = omega arith
length-keep q (x ∷ xs) = elim (Bool-cases (q x)) [
  | inl e ↦ rw e (omega (arith, length-keep q xs))
  | inr e ↦ rw e (omega (arith, length-keep q xs))
]

Scanned-cases :
    (r : Scanned)
    → ((q : ListPage) × (r ≡ stopped q))
      ⊎ ((q : ListPage) × (f : Bytes) × (g : Bytes) × (r ≡ going q f g))
Scanned-cases (stopped q) = inl (q, refl)
Scanned-cases (going q f g) = inr (q, f, g, refl)

module _ (req : ListRequest) where
  -- The loop over more keys, from where it ended
  abbrev resume : Scanned → List Entry → Scanned
  resume (stopped q) ys = stopped q
  resume (going q f g) ys = list_keys req ys g f q

  list_keys-append :
      (xs ys : List Entry) (g f : Bytes) (p : ListPage)
      → list_keys req (xs ++ ys) g f p ≡ resume (list_keys req xs g f p) ys
  unfolding list_keys
  list_keys-append [] ys g f p = refl
  list_keys-append (o ∷ xs) ys g f p = elim (Bool-cases (within_group g o.key)) [
    | inl inside ↦ rw (inside, list_keys) (list_keys-append xs ys g f p)
    | inr outside ↦ elim (Bool-cases (is_full req p)) [
      | inl full ↦ rw (outside, full, list_keys) refl
      | inr room ↦ elim (Option-cases (group_of o.key req.prefix req.delimiter)) [
        | inl alone ↦ rw (outside, room, alone, list_keys) (list_keys-append xs ys _ _ _)
        | inr (gg, grouped) ↦ rw (outside, room, grouped, list_keys) (list_keys-append xs ys _ _ _)
      ]
    ]
  ]

  All-later :
      (f : Bytes) (x : Entry) (xs : List Entry)
      → less x.key f ≡ false
      → All (λ y. less x.key y.key ≡ true) xs
      → All (λ y. not (less y.key f) ≡ true) xs
  All-later f x [] h a = tt
  All-later f x (y ∷ ys) h (k, a) = (
    elim (Bool-cases (less y.key f)) [
      | inl e ↦ absurd (bad (less_trans x.key y.key f k e))
      | inr e ↦ rw e
    ],
    All-later f x ys h a,
  )
    where
      bad : less x.key f ≡ true → ⊥
      bad e = cc

  -- The keys that a position leaves out are those of the last group.
  skip_to :
      (ys : List Entry) (g f : Bytes) (p : ListPage)
      → Sorted entry_key ys
      → Ahead f g ys
      → page_of (list_keys req (from_here f ys) [] f p) ≡ page_of (list_keys req ys g f p)
  unfolding list_keys
  skip_to [] g f p s a = refl
  skip_to (o ∷ ys) g f p (above, s) (here, a) = elim (Bool-cases (within_group g o.key)) [
    | inl inside ↦ let out = here ∙ inside in rw (inside, out, list_keys) (skip_to ys g f p s a)
    | inr outside ↦
        let kept = here ∙ outside in
        let same_rest =
          keep-All entry_key (λ e. not (less e.key f)) ys (All-later f o ys kept above) in
        let whole : from_here f (o ∷ ys) ≡ o ∷ ys = rw kept (ap (◌∷◌ o) same_rest) in
        let same_step : list_keys req (o ∷ ys) [] f p ≡ list_keys req (o ∷ ys) g f p =
          rw (outside, list_keys) in
        ap (λ l. page_of (list_keys req l [] f p)) whole ∙ ap page_of same_step
  ]

take_none : (n : ℕ) → take {A = Entry} n [] ≡ []
take_none zero = refl
take_none (suc n) = refl

entries-cases : (xs : List Entry) → (xs ≡ []) ⊎ ((y : Entry) × (ys : List Entry) × (xs ≡ y ∷ ys))
entries-cases [] = inl refl
entries-cases (y ∷ ys) = inr (y, ys, refl)

-- A key below the position is below every key that the position covers.
below_all :
    (f b : Bytes) (xs : List Entry)
    → less b f ≡ true
    → Ahead f [] xs
    → All (λ e. less b e.key ≡ true) xs
below_all f b [] h a = tt
below_all f b (x ∷ xs) h (k, a) = (
  elim (Bool-cases (less b x.key)) [
    | inl e ↦ e
    | inr e ↦ elim (Bool-cases (less x.key b)) [
      | inl up ↦ absurd (true≢false (sym (less_trans x.key b f up h) ∙ k))
      | inr same_one ↦
          let e : b ≡ x.key = less_total b x.key e same_one in
          absurd (true≢false (sym h ∙ ap (λ y. less y f) e ∙ k))
    ]
  ],
  below_all f b xs h a,
)

above_some : (f b : Bytes) → less b f ≡ true → (length f == 0) ≡ false
above_some [] b h = absurd (true≢false (sym h ∙ less_nil b))
above_some (c ∷ f) b h = ground arith

Sorted-right : (xs ys : List Entry) → Sorted entry_key (xs ++ ys) → Sorted entry_key ys
Sorted-right [] ys s = s
Sorted-right (x ∷ xs) ys (a, s) = Sorted-right xs ys s

list_keys_none :
    (req : ListRequest) (g f : Bytes) (p : ListPage) → list_keys req [] g f p ≡ going p f g
unfolding list_keys
list_keys_none req g f p = refl

module _ {W E : Type 0} (out : Outside W E) (req : ListRequest) (xs : List Entry) where
  -- A scan fails, or it reads the next entries of the snapshot, as many as it may.
  abbrev pub Scans : Type 0
  Scans =
      (f : Bytes) (n : ℕ) (w : W)
      → ((e : Fault E) × ((scan_entries out.meta req.prefix f n w).0 ≡ err e))
        ⊎ ((scan_entries out.meta req.prefix f n w).0 ≡ ok (take n (from_here f xs)))

  -- The error is that of a scan.
  abbrev pub OfScan : Fault E → Type 0
  OfScan e = (f : Bytes) × (n : ℕ) × (w : W) × ((scan_entries out.meta req.prefix f n w).0 ≡ err e)

  -- A listing fails with the error of a scan, or it returns the page.
  abbrev pub Answers : ListPage → Option (Result (Fault E) ListPage × W) → Type 0
  Answers p r =
      ((e : Fault E) × (w : W) × OfScan e × (r ≡ some (err e, w)))
      ⊎ ((w : W) × (r ≡ some (ok p, w)))

  module _ (law : Scans) (sorted : Sorted entry_key xs) (listed : All (Listed req) xs)
      (plain : Plain req) where
    -- One pass over the keys from a position
    abbrev pass : Bytes → ListPage → ListPage
    pass f p = page_of (list_keys req (from_here f xs) [] f p)

    goes_on :
        (f f' g : Bytes) (p : ListPage) (page post : List Entry)
        → from_here f xs ≡ page ++ post
        → Behind f' page
        → Ahead f' g post
        → All (λ e. less e.key f ≡ true → less e.key f' ≡ true) xs
        → from_here f' xs ≡ from_here f' post
    goes_on f f' g p page post e behind ahead mono =
        sym (keep-keep f f' xs mono) ∙ ap (from_here f') e ∙ keep-Behind f' page post behind

    wanted-suc : (n : ℕ) × (wanted req ≡ suc n)
    wanted-suc = elim (Bool-cases (length req.delimiter == 0)) [
      | inl e ↦ (req.limit, rw e (omega arith))
      | inr e ↦ (255, rw e refl)
    ]

    mono_all :
        (f f' : Bytes) (page post : List Entry)
        → from_here f xs ≡ page ++ post
        → ((b : Bytes)
            → IsBytes b
            → less b f ≡ true
            → All (λ e. less b e.key ≡ true) page
            → less b f' ≡ true)
        → All (λ e. less e.key f ≡ true → less e.key f' ≡ true) xs
    mono_all f f' page post split mono =
        All-map (Listed req) (λ e. less e.key f ≡ true → less e.key f' ≡ true) xs
          (λ e l h. mono e.key l.1 h (
            All-left req (λ y. less e.key y.key ≡ true) page post
              (subst (All (λ y. less e.key y.key ≡ true)) split
                (below_all f e.key (from_here f xs) h (keep-from f xs)))))
          listed

    -- Nothing is left after a page that is short, or after a group that nothing sorts past.
    last_page :
        (f f' g : Bytes) (q : ListPage) (x : Entry) (r : List Entry) (n : ℕ)
        → wanted req ≡ suc n
        → (ltb (length (x ∷ take n r)) (wanted req) || length f' == 0) ≡ true
        → Ends f (x ∷ take n r) (drop n r) (going q f' g)
        → page_of (list_keys req (drop n r) g f' q) ≡ q
    last_page f f' g q x r n want last (inl (none_past, all)) =
        ap page_of (skip_all req (drop n r) g f' q all)
    last_page f f' g q x r n want last (inr ((first, behind), ahead, mono)) =
        let some_from : (length f' == 0) ≡ false = above_some f' x.key first in
        let short : length r ≤ n = ground (arith, length-take n r) in
        ap (λ l. page_of (list_keys req l g f' q)) (drop_all n r short)
        ∙ ap page_of (list_keys_none req g f' q)

    moved :
        (f f' g : Bytes) (q : ListPage) (x : Entry) (r : List Entry) (n : ℕ)
        → (ltb (length (x ∷ take n r)) (wanted req) || length f' == 0) ≡ false
        → Ends f (x ∷ take n r) (drop n r) (going q f' g)
        → Behind f' (x ∷ take n r)
          × Ahead f' g (drop n r)
          × ((b : Bytes)
              → IsBytes b
              → less b f ≡ true
              → All (λ e. less b e.key ≡ true) (x ∷ take n r)
              → less b f' ≡ true)
    moved f f' g q x r n more (inl (none_past, all)) =
        let nothing : (length f' == 0) ≡ true = rw none_past in
        absurd (true≢false (sym nothing ∙ ground arith))
    moved f f' g q x r n more (inr h) = h

    list_from_lem :
        (fuel : ℕ) (f : Bytes) (p : ListPage) (w : W)
        → length (from_here f xs) < fuel
        → Answers (pass f p) (list_from out fuel req f p w)
    unfolding list_from
    list_from_lem zero f p w h = absurd (omega arith)
    list_from_lem (suc fuel) f p w h =
        let scanned = scan_entries out.meta req.prefix f (wanted req) w in
        elim (law f (wanted req) w) [
          | inl (e, failed) ↦ inl (e, scanned.1, (f, wanted req, w, failed), rw (failed, list_from))
          | inr got ↦ elim (entries-cases (from_here f xs)) [
            | inl nothing ↦
                let page : scanned.0 ≡ ok [] = got ∙ rw nothing (ap ok (take_none (wanted req))) in
                inr (scanned.1, rw (page, list_from, nothing, list_keys_none req [] f p) refl)
            | inr (x, r, some_left) ↦
                let (n, want) = wanted-suc in
                let page : scanned.0 ≡ ok (x ∷ take n r) = got ∙ rw (some_left, want) refl in
                let split : from_here f xs ≡ (x ∷ take n r) ++ drop n r =
                  some_left ∙ ap (◌∷◌ x) (sym (take-append-drop n r)) in
                let sorted' = subst (Sorted entry_key) split (keep-Sorted _ xs sorted) in
                let listed' = subst (All (Listed req)) split (All-keep (Listed req) _ xs listed) in
                let ahead' = subst (Ahead f []) split (keep-from f xs) in
                let ends =
                  list_keys-Ends req (x ∷ take n r) (drop n r) [] f p sorted' listed' ahead'
                    plain in
                let whole : pass f p
                    ≡ page_of (resume req (list_keys req (x ∷ take n r) [] f p) (drop n r)) =
                  ap (λ l. page_of (list_keys req l [] f p)) split
                  ∙ ap page_of (list_keys-append req (x ∷ take n r) (drop n r) [] f p) in
                elim (Scanned-cases (list_keys req (x ∷ take n r) [] f p)) [
                  | inl (q, stops) ↦
                      let e : pass f p ≡ q =
                        whole ∙ ap (λ z. page_of (resume req z (drop n r))) stops in
                      inr (
                        scanned.1,
                        rw (page, list_from, stops) (ap (λ y. some (ok y, scanned.1)) (sym e)),
                      )
                  | inr (q, f', g', goes) ↦
                      let e : pass f p ≡ page_of (list_keys req (drop n r) g' f' q) =
                        whole ∙ ap (λ z. page_of (resume req z (drop n r))) goes in
                      let ends' = subst (Ends f (x ∷ take n r) (drop n r)) goes ends in
                      elim (Bool-cases
                        (ltb (length (x ∷ take n r)) (wanted req) || length f' == 0)) [
                          | inl last ↦
                              let done = last_page f f' g' q x r n want last ends' in
                              inr (
                                scanned.1,
                                rw (page, list_from, goes, last)
                                    (ap (λ y. some (ok y, scanned.1)) (sym (e ∙ done))),
                              )
                          | inr more ↦
                              let (behind, ahead, mono) = moved f f' g' q x r n more ends' in
                              let later =
                                goes_on f f' g' q (x ∷ take n r) (drop n r) split behind ahead
                                  (mono_all f f' (x ∷ take n r) (drop n r) split mono) in
                              let small : length (from_here f' xs) < fuel = omega (
                                arith,
                                ap length later,
                                length-keep (λ e. not (less e.key f')) (drop n r),
                                length-drop n r,
                                ap length some_left,
                              ) in
                              let same_page : pass f p ≡ pass f' q =
                                e
                                ∙ sym (
                                    skip_to req (drop n r) g' f' q
                                      (Sorted-right (x ∷ take n r) (drop n r) sorted') ahead)
                                ∙ ap (λ l. page_of (list_keys req l [] f' q)) (sym later) in
                              rw (page, list_from, goes, more, same_page)
                                (list_from_lem fuel f' q scanned.1 small)
                        ]
                ]
          ]
        ]

    -- List fails with the error of a scan, or it returns the page of one pass over all entries from
    -- the position on, however many scans it takes: if the snapshot's keys are sorted byte strings
    -- with the prefix, every scan fails or reads the next entries of the snapshot, the last byte of
    -- the delimiter that is below 0xff is below 0x7f where there is a delimiter, the limit is
    -- positive, and the fuel is above the snapshot's length.
    pub list_lem :
        (fuel : ℕ) (w : W)
        → 0 < req.limit
        → length xs < fuel
        → Answers
            (page_of (list_keys req (from_here req.from xs) [] req.from no_page))
            (list out fuel req w)
    unfolding list
    list_lem fuel w h k =
        let some_limit : (req.limit == 0) ≡ false = ground arith in
        rw some_limit (
          list_from_lem fuel req.from no_page w
            (omega (arith, k, length-keep (λ e. not (less e.key req.from)) xs)))
