-- ===== src/Ring/Order.antt =====
-- internal/ring/ring.go: the order of the virtual nodes and the search in it.
use kavo.Base.{
  ℕ, ◌≤◌, ◌≡◌, refl, ap, ◌∙◌, true, false, Bool, inl, inr, List, [], ◌∷◌, arith, ltb, leb,
  Bool-cases, take, drop, All, keep,
}
use kavo.Ring.{Vnode, insert, sort_by_pos, search_pos}

abbrev pub IsSorted : List Vnode → Type 0
IsSorted [] = Unit
IsSorted (v ∷ vs) = All (λ w. v.pos ≤ w.pos) vs × IsSorted vs

All-le_trans :
    (m n : ℕ) (vs : List Vnode) → m ≤ n → All (λ w. n ≤ w.pos) vs → All (λ w. m ≤ w.pos) vs
All-le_trans m n [] h a = tt
All-le_trans m n (v ∷ vs) h a = (omega arith, All-le_trans m n vs h a.1)

All-insert :
    (m : ℕ) (v : Vnode) (vs : List Vnode)
    → m ≤ v.pos
    → All (λ w. m ≤ w.pos) vs
    → All (λ w. m ≤ w.pos) (insert v vs)
unfolding insert
All-insert m v [] h a = (h, tt)
All-insert m v (w ∷ ws) h a = ground (arith, All-insert m v ws h a.1)

insert-IsSorted : (v : Vnode) (vs : List Vnode) → IsSorted vs → IsSorted (insert v vs)
unfolding insert
insert-IsSorted v [] s = (tt, tt)
insert-IsSorted v (w ∷ ws) s =
    ground (arith, insert-IsSorted v ws s.1, All-insert w.pos v ws, All-le_trans v.pos w.pos ws)

pub sort_by_pos-IsSorted : (vs : List Vnode) → IsSorted (sort_by_pos vs)
unfolding sort_by_pos
sort_by_pos-IsSorted [] = tt
sort_by_pos-IsSorted (v ∷ vs) = insert-IsSorted v (sort_by_pos vs) (sort_by_pos-IsSorted vs)

keep_none_below :
    (t : ℕ) (vs : List Vnode) → All (λ w. t ≤ w.pos) vs → keep (λ w. ltb w.pos t) vs ≡ []
keep_none_below t [] a = refl
keep_none_below t (v ∷ vs) a = ground (arith, keep_none_below t vs a.1)

keep-All_above :
    (t : ℕ) (vs : List Vnode) → All (λ w. t ≤ w.pos) vs → keep (λ w. leb t w.pos) vs ≡ vs
keep-All_above t [] a = refl
keep-All_above t (v ∷ vs) a = ground (arith, keep-All_above t vs a.1)

-- What the search skips is what lies below the target.
pub take-search_pos :
    (t : ℕ) (vs : List Vnode) → IsSorted vs → take (search_pos t vs) vs ≡ keep (λ w. ltb w.pos t) vs
unfolding search_pos
take-search_pos t [] s = refl
take-search_pos t (v ∷ vs) s =
    ground (arith, take-search_pos t vs s.1, keep_none_below t vs, All-le_trans t v.pos vs)

pub drop-search_pos :
    (t : ℕ) (vs : List Vnode) → IsSorted vs → drop (search_pos t vs) vs ≡ keep (λ w. leb t w.pos) vs
unfolding search_pos
drop-search_pos t [] s = refl
drop-search_pos t (v ∷ vs) s =
    ground (arith, drop-search_pos t vs s.1, keep-All_above t vs, All-le_trans t v.pos vs)

All-keep :
    (m : ℕ) (p : Vnode → Bool) (vs : List Vnode)
    → All (λ w. m ≤ w.pos) vs
    → All (λ w. m ≤ w.pos) (keep p vs)
All-keep m p [] a = tt
All-keep m p (v ∷ vs) a = ground (arith, All-keep m p vs a.1)

insert_front : (v : Vnode) (vs : List Vnode) → All (λ w. v.pos ≤ w.pos) vs → insert v vs ≡ v ∷ vs
unfolding insert
insert_front v [] a = refl
insert_front v (w ∷ ws) a = ground arith

-- A filter of a sorted insertion is the insertion into the filtered list.
keep-insert_in :
    (p : Vnode → Bool) (v : Vnode) (vs : List Vnode)
    → p v ≡ true
    → IsSorted vs
    → keep p (insert v vs) ≡ insert v (keep p vs)
unfolding insert
keep-insert_in p v [] h s = rw h
keep-insert_in p v (w ∷ ws) h s = ground (
  arith,
  keep-insert_in p v ws h s.1,
  insert_front v (keep p ws),
  All-keep v.pos p ws,
  All-le_trans v.pos w.pos ws,
)

keep-insert_out :
    (p : Vnode → Bool) (v : Vnode) (vs : List Vnode)
    → p v ≡ false
    → keep p (insert v vs) ≡ keep p vs
unfolding insert
keep-insert_out p v [] h = rw h
keep-insert_out p v (w ∷ ws) h = ground (arith, keep-insert_out p v ws h)

-- Filtering and sorting commute.
pub keep-sort_by_pos :
    (p : Vnode → Bool) (vs : List Vnode) → keep p (sort_by_pos vs) ≡ sort_by_pos (keep p vs)
unfolding sort_by_pos
keep-sort_by_pos p [] = refl
keep-sort_by_pos p (v ∷ vs) = elim (Bool-cases (p v)) [
  | inl h ↦ rw h (
      keep-insert_in p v (sort_by_pos vs) h (sort_by_pos-IsSorted vs)
      ∙ ap (insert v) (keep-sort_by_pos p vs))
  | inr h ↦ rw h (keep-insert_out p v (sort_by_pos vs) h ∙ keep-sort_by_pos p vs)
]
