-- ===== src/Cluster/Collect/Left.antt =====
-- internal/cluster/collect.go: which chunks a sweep leaves.
use mathlib.Core.List.{Memᴰ}
use kavo.Base.{
  ℕ, ◌+◌, ◌≡◌, ap, sym, ◌∙◌, inl, inr, Bool, true, false, not, ◌&&◌, none, some, List, [], ◌∷◌,
  ◌++◌, append-nil, append_assoc, Bool-cases, Option-cases, ltb, if◌then◌else◌, keep, Bytes, has,
  has_prefix,
}
use kavo.Cluster.Collect.{ChunkInfo, Calls, in_flight}
use kavo.Cluster.Collect.Sweep.{Pass, fate, visit, sweep}

pub Mem-keep :
    {A : Type 0} (p : A → Bool) (x : A) (xs : List A) → Memᴰ x xs → p x ≡ true → Memᴰ x (keep p xs)
Mem-keep p x [] m h = elim m [ ]
Mem-keep p x (y ∷ xs) (Memᴰ.head e) h = let k : p y ≡ true = rw e at h in rw k (Memᴰ.head e)
Mem-keep p x (y ∷ xs) (Memᴰ.tail m) h = elim (Bool-cases (p y)) [
  | inl k ↦ rw k (Memᴰ.tail (Mem-keep p x xs m h))
  | inr k ↦ rw k (Mem-keep p x xs m h)
]

module _ {E : Type 0} (calls : Calls E) (set in_write : List Bytes) (start grace slice : ℕ) where
  -- A chunk goes if it is in the slice, no manifest and no running write names it, it is not younger
  -- than the grace, and the disk lets it go.
  abbrev pub goes : ChunkInfo → Bool
  goes ci =
      has_prefix ci.id (slice ∷ [])
      && not (has set ci.id)
      && not (in_flight in_write ci.id)
      && not (ltb start (ci.modified + grace))
      && elim (calls.remove_chunk ci.id) [ none ↦ true | some e ↦ false ]

  visit-goes :
      (p : Pass E) (ci : ChunkInfo)
      → has_prefix ci.id (slice ∷ []) ≡ true
      → (visit calls set in_write start grace p ci).left
        ≡ p.left ++ (if goes ci then [] else ci ∷ [])
  unfolding visit fate
  visit-goes p ci h = elim (Bool-cases (has set ci.id)) [
    | inl a ↦ rw (h, a, visit, fate)
    | inr a ↦ elim (Bool-cases (in_flight in_write ci.id)) [
      | inl b ↦ rw (h, a, b, visit, fate)
      | inr b ↦ elim (Bool-cases (ltb start (ci.modified + grace))) [
        | inl c ↦ rw (h, a, b, c, visit, fate)
        | inr c ↦ elim (Option-cases (calls.remove_chunk ci.id)) [
          | inl d ↦ rw (h, a, b, c, d, visit, fate) (sym (append-nil p.left))
          | inr (e, d) ↦ rw (h, a, b, c, d, visit, fate)
        ]
      ]
    ]
  ]

  keep_step :
      (ci : ChunkInfo) (cs : List ChunkInfo)
      → (if goes ci then [] else ci ∷ []) ++ keep (λ c. not (goes c)) cs
        ≡ keep (λ c. not (goes c)) (ci ∷ cs)
  keep_step ci cs = elim (Bool-cases (goes ci)) [ inl g ↦ rw g | inr g ↦ rw g ]

  -- What the sweep leaves are the chunks, in their order, but for those that are in the slice, named
  -- by no manifest and no running write, not younger than the grace, and removed by the disk.
  pub sweep-goes :
      (p : Pass E) (cs : List ChunkInfo)
      → (sweep calls set in_write start grace slice p cs).left
        ≡ p.left ++ keep (λ ci. not (goes ci)) cs
  unfolding sweep
  sweep-goes p [] = sym (append-nil p.left)
  sweep-goes p (ci ∷ cs) = elim (Bool-cases (has_prefix ci.id (slice ∷ []))) [
    | inl inside ↦
        let visited = visit calls set in_write start grace p ci in
        let opened : (sweep calls set in_write start grace slice p (ci ∷ cs)).left
            ≡ (sweep calls set in_write start grace slice visited cs).left =
          rw (inside, sweep) in
        opened
        ∙ sweep-goes visited cs
        ∙ ap (λ w. w ++ keep (λ c. not (goes c)) cs) (visit-goes p ci inside)
        ∙ append_assoc p.left (if goes ci then [] else ci ∷ []) (keep (λ c. not (goes c)) cs)
        ∙ ap (◌++◌ p.left) (keep_step ci cs)
    | inr outside ↦
        let passed : Pass E = record p { left = p.left ++ ci ∷ [] } in
        let opened : (sweep calls set in_write start grace slice p (ci ∷ cs)).left
            ≡ (sweep calls set in_write start grace slice passed cs).left =
          rw (outside, sweep) in
        let stays : goes ci ≡ false = rw outside in
        opened
        ∙ sweep-goes passed cs
        ∙ append_assoc p.left (ci ∷ []) (keep (λ c. not (goes c)) cs)
        ∙ ap (◌++◌ p.left) (
            ap (λ b. (if b then [] else ci ∷ []) ++ keep (λ c. not (goes c)) cs) (sym stays)
            ∙ keep_step ci cs)
  ]
