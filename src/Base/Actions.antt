-- ===== src/Base/Actions.antt =====
-- A Go function that acts on the world and returns a value and an error. The world comes back after
-- an error too, since what was done stays done.
use mathlib.Core.Path.{◌≡◌, refl, sym, ap}
use mathlib.Core.Bool.{Bool, true, false}
use mathlib.Core.Logic.{inl, inr}
use kavo.Base.Tests.{if◌then◌else◌}
use kavo.Base.Errors.{Result, ok, err, ok-ne-err, Result-cases}

abbrev pub Action : Type 0 → Type 0 → Type 0 → Type 0
Action W E A = W → Result E A × W

module _ {W E A : Type 0} where
  abbrev pub pure : A → Action W E A
  pure a w = (ok a, w)

  abbrev pub fail : E → Action W E A
  fail e w = (err e, w)

  -- A value that was computed without acting
  abbrev pub given : Result E A → Action W E A
  given r w = (r, w)

module _ {W E A B : Type 0} where
  infixl 5 ◌>>=◌
  abbrev pub ◌>>=◌ : (act : Action W E A) (next : A → Action W E B) → Action W E B
  ◌>>=◌ act next w = let (r, w') = act w in elim r [ err e ↦ (err e, w') | ok a ↦ next a w' ]

  infixl 5 ◌>>◌
  abbrev pub ◌>>◌ : (act : Action W E A) (next : Action W E B) → Action W E B
  act >> next = act >>= (λ _. next)

module _ {W E : Type 0} where
  -- Go's `if cond { return err }`
  abbrev pub fail_if : Bool → E → Action W E (Unit {0})
  fail_if true e = fail e
  fail_if false e = pure tt

  -- A call whose error the caller looks at
  abbrev pub attempt : {A : Type 0} → Action W E A → Action W E (Result E A)
  attempt act w = let (r, w') = act w in (ok r, w')

  -- A call whose error is logged and no more
  abbrev pub ignore : {A : Type 0} → Action W E A → Action W E (Unit {0})
  ignore act w = let (r, w') = act w in (ok tt, w')

-- If two actions in a row succeed, each did.
pub >>=-eq-ok :
    {W E A B : Type 0} (act : Action W E A) (next : A → Action W E B) (w : W) {u : W} {b : B}
    → (act >>= next) w ≡ (ok b, u)
    → (a : A) × ((act w).0 ≡ ok a) × (next a (act w).1 ≡ (ok b, u))
>>=-eq-ok act next w h = elim (Result-cases (act w).0) [
  | inl (e, failed) ↦
      let refused = rw (failed, ◌>>=◌) at h in absurd (ok-ne-err (sym (ap (λ r. r.0) refused)))
  | inr (a, done) ↦ (a, done, rw (done, ◌>>=◌) at h)
]

module _ {W E : Type 0} (Q : W → Type 0) where
  -- What each of two actions keeps is kept by both in a row, and by a choice of them.
  pub >>=-keeps :
      {A B : Type 0} (act : Action W E A) (next : A → Action W E B) (w : W)
      → Q (act w).1
      → ((a : A) → Q (act w).1 → Q (next a (act w).1).1)
      → Q ((act >>= next) w).1
  >>=-keeps act next w h k = elim (Result-cases (act w).0) [
    | inl (e, failed) ↦ rw (failed, ◌>>=◌) h
    | inr (a, done) ↦ rw (done, ◌>>=◌) (k a h)
  ]

  pub if_keeps :
      {A : Type 0} (b : Bool) (act other : Action W E A) (w : W)
      → (b ≡ true → Q (act w).1)
      → (b ≡ false → Q (other w).1)
      → Q ((if b then act else other) w).1
  if_keeps true act other w h k = h refl
  if_keeps false act other w h k = k refl

  pub fail_if-keeps : (b : Bool) (e : E) (w : W) → Q w → Q (fail_if b e w).1
  fail_if-keeps true e w h = h
  fail_if-keeps false e w h = h

-- Two actions in a row end as the first does if it fails, and as the second does if not.
pub >>=-elim :
    {W E A B : Type 0} (P : Result E B × W → Type 0) (act : Action W E A) (next : A → Action W E B)
    (w : W)
    → ((e : E) → (act w).0 ≡ err e → P (err e, (act w).1))
    → ((a : A) → (act w).0 ≡ ok a → P (next a (act w).1))
    → P ((act >>= next) w)
>>=-elim P act next w h k = elim (Result-cases (act w).0) [
  | inl (e, failed) ↦ rw (failed, ◌>>=◌) (h e failed)
  | inr (a, done) ↦ rw (done, ◌>>=◌) (k a done)
]
