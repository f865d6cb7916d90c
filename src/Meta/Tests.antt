-- ===== src/Meta/Tests.antt =====
-- The positions that a scan resumes from, at concrete keys.
use kavo.Base.{◌≡◌, refl, true, not, ◌||◌, [], ◌∷◌, ◌++◌, arith, text, less, has_prefix}
use kavo.Meta.Keys.{
  after, past_prefix, rune_text, ends_plain, less-after, past_prefix_empty, less-past_prefix,
}

past_prefix_run : past_prefix (text "a/" ++ 255 ∷ []) ≡ text "a0"
unfolding past_prefix rune_text
past_prefix_run = refl

past_prefix_last : past_prefix (255 ∷ 255 ∷ []) ≡ []
unfolding past_prefix rune_text
past_prefix_last = refl

not_past : ends_plain (text "a/") ≡ true
unfolding ends_plain past_prefix rune_text
not_past = refl

less-past_prefix_example :
    less (text "a/b") (past_prefix (text "a/"))
    ≡ (less (text "a/b") (text "a/") || has_prefix (text "a/b") (text "a/"))
less-past_prefix_example = less-past_prefix (text "a/") (text "a/b") (omega arith) not_past

past_prefix_none : past_prefix (255 ∷ []) ≡ []
unfolding past_prefix rune_text
past_prefix_none = refl

past_prefix_empty_example :
    (less (255 ∷ 7 ∷ []) (255 ∷ []) || has_prefix (255 ∷ 7 ∷ []) (255 ∷ [])) ≡ true
past_prefix_empty_example =
    past_prefix_empty (255 ∷ []) (255 ∷ 7 ∷ []) (omega arith) past_prefix_none

less-after_example : less (text "b") (after (text "a")) ≡ not (less (text "a") (text "b"))
less-after_example = less-after (text "a") (text "b")
