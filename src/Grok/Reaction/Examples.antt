-- ===== src/Grok/Reaction/Examples.antt =====
-- The filters of a reaction at a concrete table of filters.
use semicomplete_googlecode.Common.{
  ℕ, ◌≡◌, Option, none, some, List, [], ◌∷◌, ◌++◌, arith, if◌then◌else◌, codes, length,
}
use semicomplete_googlecode.Grok.Database.{same_key}
use semicomplete_googlecode.Grok.Filters.{filter_shelldqescape}
use semicomplete_googlecode.Grok.Reaction.{Filter, reaction_apply_filter}
use semicomplete_googlecode.Grok.Reaction.Filtering.{
  filter_text, filtered, reaction_apply_filter_correct,
}

lookup_dq : List ℕ → Option Filter
lookup_dq name =
    if same_key name (codes "shelldqescape") then some (filter_shelldqescape 0) else none

abbrev names : List (List ℕ)
names = codes "x" ∷ codes "shelldqescape" ∷ []

abbrev money : List ℕ
money = codes "a$b"

reaction_apply_filter_correct_example :
    reaction_apply_filter lookup_dq
      (filter_text names ++ b'}' ∷ [])
      (length (filter_text names))
      (record { bytes = money ++ b' ' ∷ []; len = 3 })
    ≡ filtered lookup_dq names (record { bytes = money ++ b' ' ∷ []; len = 3 }) money
reaction_apply_filter_correct_example =
    reaction_apply_filter_correct lookup_dq names (b'}' ∷ []) money b' ' [] (ground arith)
      (ground arith)
