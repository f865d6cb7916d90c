-- ===== src/Cluster/Collect/Scan.antt =====
-- internal/cluster/collect.go: the two loops of `referenced` over a snapshot of what is scanned.
use mathlib.Core.Bool.{true≢false}
use kavo.Base.{
  ℕ, zero, suc, ◌<◌, ◌≡◌, refl, ap, sym, ◌∙◌, ◌⊎◌, inl, inr, Bool, true, false, some, List, [], ◌∷◌,
  ◌++◌, append_assoc, arith, Bool-cases, length, take, drop, take-append-drop, keep, All,
  length-drop, Bytes, less, Result, ok, err,
}
use kavo.Meta.Keys.{less_trans}
use kavo.Cluster.Collect.{scan_page, add_page, scan_all}

module _ {X : Type 0} (key : X → Bytes) where
  -- Keys in order, each once.
  abbrev pub Sorted : List X → Type 0
  Sorted [] = Unit
  Sorted (x ∷ xs) = All (λ y. less (key x) (key y) ≡ true) xs × Sorted xs

  -- What a scan from a position yields of a snapshot `xs`, where `past` tells what the position covers
  abbrev pub from_position : (Bytes → X → Bool) → List X → Bytes → List X
  from_position past xs from = keep (past from) xs

  pub keep-All : (p : X → Bool) (xs : List X) → All (λ y. p y ≡ true) xs → keep p xs ≡ xs
  keep-All p [] a = refl
  keep-All p (x ∷ xs) (h, a) = rw h (ap (◌∷◌ x) (keep-All p xs a))

  -- A scan past a key of sorted items yields the items that follow.
  pub drop_page :
      (less_refl : (k : Bytes) → less k k ≡ false)
      (asym : (j k : Bytes) → less j k ≡ true → less k j ≡ false) (pre : List X) (x : X)
      (post : List X)
      → Sorted (pre ++ x ∷ post)
      → keep (λ y. less (key x) (key y)) (pre ++ x ∷ post) ≡ post
  drop_page less_refl asym [] x post (a, s) = rw (less_refl (key x)) (keep-All _ post a)
  drop_page less_refl asym (p ∷ pre) x post (a, s) =
      let before : less (key x) (key p) ≡ false = asym (key p) (key x) (before_x p pre x post a) in
      rw before (drop_page less_refl asym pre x post s)
    where
      before_x :
          (p : X) (pre : List X) (x : X) (post : List X)
          → All (λ y. less (key p) (key y) ≡ true) (pre ++ x ∷ post)
          → less (key p) (key x) ≡ true
      before_x p [] x post (h, a) = h
      before_x p (q ∷ pre) x post (h, a) = before_x p pre x post a

pub less_refl : (k : Bytes) → less k k ≡ false
unfolding less
less_refl [] = refl
less_refl (c ∷ k) = ground (arith, less_refl k)

pub less_asym : (j k : Bytes) → less j k ≡ true → less k j ≡ false
less_asym j k h = elim (Bool-cases (less k j)) [
  | inl back ↦ absurd (true≢false (sym (less_trans j k j h back) ∙ less_refl j))
  | inr e ↦ e
]

module _ {A X : Type 0} (add : X → A → A) where
  -- The items, added one after another
  abbrev pub add_all : List X → A → A
  add_all [] set = set
  add_all (x ∷ xs) set = add_all xs (add x set)

  add_all-append : (xs ys : List X) (set : A) → add_all (xs ++ ys) set ≡ add_all ys (add_all xs set)
  add_all-append [] ys set = refl
  add_all-append (x ∷ xs) ys set = add_all-append xs ys (add x set)

pub init_last : {X : Type 0} (x : X) (xs : List X) → (q : List X) × (z : X) × (x ∷ xs ≡ q ++ z ∷ [])
init_last x [] = ([], x, refl)
init_last x (y ∷ ys) = let (q, z, e) = init_last y ys in (x ∷ q, z, ap (◌∷◌ x) e)

-- A scan fails, or it yields the next items of the snapshot, as many as it may.
abbrev pub PageOrError :
    {E X : Type 0} (scan : Bytes → ℕ → Result E (List X)) (key : X → Bytes)
    (past : Bytes → X → Bool)
    → List X
    → Bytes
    → ℕ
    → Type 0
PageOrError {E} scan key past xs from limit =
    ((e : E) × (scan from limit ≡ err e))
    ⊎ (scan from limit ≡ ok (take limit (from_position key past xs from)))

module _ {E X : Type 0} (scan : Bytes → ℕ → Result E (List X)) (key next : X → Bytes)
    (past : Bytes → X → Bool) (add : X → List Bytes → List Bytes) (xs : List X)
    (sorted : Sorted key xs)
    (law : (from : Bytes) (limit : ℕ) → PageOrError scan key past xs from limit)
    (next_past : (x : X) → past (next x) ≡ (λ y. less (key x) (key y))) where
  add_page-append :
      (q : List X) (z : X) (from : Bytes) (set : List Bytes)
      → add_page scan next add (q ++ z ∷ []) from set ≡ (next z, add_all add (q ++ z ∷ []) set)
  add_page-append [] z from set = refl
  add_page-append (x ∷ q) z from set = add_page-append q z (next x) (add x set)

  scan_all_from :
      (fuel : ℕ) (pre rest : List X) (from : Bytes) (set : List Bytes)
      → xs ≡ pre ++ rest
      → from_position key past xs from ≡ rest
      → length rest < fuel
      → ((e : E) × (scan_all scan next add fuel from set ≡ some (err e)))
        ⊎ (scan_all scan next add fuel from set ≡ some (ok (add_all add rest set)))
  unfolding scan_all
  scan_all_from zero pre rest from set e k h = absurd (omega arith)
  scan_all_from (suc fuel) pre [] from set e k h = elim (law from scan_page) [
    | inl (bad, failed) ↦ inl (bad, rw (failed, scan_all))
    | inr got ↦ let page : scan from scan_page ≡ ok [] = got ∙ rw k in inr (rw (page, scan_all))
  ]
  scan_all_from (suc fuel) pre (x ∷ r) from set e k h = elim (law from scan_page) [
    | inl (bad, failed) ↦ inl (bad, rw (failed, scan_all))
    | inr got ↦
        let page : scan from scan_page ≡ ok (take scan_page (x ∷ r)) = got ∙ rw k in
        let (q, z, split) = init_last x (take 255 r) in
        let more = drop 255 r in
        let whole : x ∷ r ≡ q ++ z ∷ more =
          ap (◌∷◌ x) (sym (take-append-drop 255 r))
          ∙ ap (λ w. w ++ more) split
          ∙ append_assoc q (z ∷ []) more in
        let parted : xs ≡ (pre ++ q) ++ z ∷ more =
          e ∙ ap (◌++◌ pre) whole ∙ sym (append_assoc pre q (z ∷ more)) in
        let further : from_position key past xs (next z) ≡ more =
          rw (next_past z, parted)
            (drop_page key less_refl less_asym (pre ++ q) z more (rw parted at sorted)) in
        let added : add_page scan next add (x ∷ take 255 r) from set
            ≡ (next z, add_all add (x ∷ take 255 r) set) =
          rw split (add_page-append q z from set) in
        let ahead : xs ≡ (pre ++ x ∷ take 255 r) ++ more =
          e
          ∙ ap (λ w. pre ++ x ∷ w) (sym (take-append-drop 255 r))
          ∙ sym (append_assoc pre (x ∷ take 255 r) more) in
        let all_added : add_all add more (add_all add (x ∷ take 255 r) set)
            ≡ add_all add (x ∷ r) set =
          sym (add_all-append add (take 255 r) more (add x set))
          ∙ ap (λ w. add_all add w (add x set)) (take-append-drop 255 r) in
        let rest =
          scan_all_from fuel (pre ++ x ∷ take 255 r) more (next z)
            (add_all add (x ∷ take 255 r) set) ahead further (omega (arith, length-drop 255 r)) in
        rw (page, scan_all, added) (rw all_added at rest)
  ]

  -- A loop of `referenced` ends: it fails, or it adds every item of the snapshot, in order, if the
  -- snapshot is sorted by key, every scan fails or yields the next items that its position covers,
  -- the next position covers what follows the item, and the fuel is above the snapshot's length.
  pub scan_all_lem :
      (fuel : ℕ) (set : List Bytes)
      → from_position key past xs [] ≡ xs
      → length xs < fuel
      → ((e : E) × (scan_all scan next add fuel [] set ≡ some (err e)))
        ⊎ (scan_all scan next add fuel [] set ≡ some (ok (add_all add xs set)))
  scan_all_lem fuel set start h = scan_all_from fuel [] xs [] set refl start h
