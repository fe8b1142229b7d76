-- ===== src/Grok/Expand/Flat.antt =====
-- The loop of `grok_pattern_expand` of tags/grok/20090928/grokre.c ends where no expression refers to
-- another pattern: each round leaves one '%' fewer behind the offset.
use semicomplete_googlecode.Common.{
  ℕ, ◌+◌, ◌≤◌, ◌<◌, ◌≡◌, List, [], ◌∷◌, length, some, none, get_elem?, if◌then◌else◌, ◌==◌, Option,
}
use semicomplete_googlecode.Grok.Expand.{Vector, Pcre}
use semicomplete_googlecode.Grok.Expand.Rewrites.{Rewrites, group_text}
use semicomplete_googlecode.Grok.Database.{Database}
use semicomplete_googlecode.Grok.Buffer.Texts.{IsText}
use semicomplete_googlecode.Grok.Capture.{Xdr}
use semicomplete_googlecode.Grok.Predicate.Choice.{Choice}
use semicomplete_googlecode.Grok.Capture.Tables.{Table}

unfoldable pub percent_signs : List ℕ → ℕ
percent_signs [] = 0
percent_signs (c ∷ cs) = (if c == b'%' then 1 else 0) + percent_signs cs

-- What `PATTERN_REGEX` finds begins with a '%', not before the offset, and is not empty.
pub record Begins (text : List ℕ) (offset : ℕ) (v : Vector) : Type 0 where
  pub behind : offset ≤ v.start
  pub sign : get_elem? text v.start ≡ some b'%'
  pub proper : v.start < v.end

module _ (B : Database (List ℕ)) (P : Pcre) (patterns : Database.Db B)
    (begins : (text : List ℕ) (offset : ℕ) (v : Vector)
      → Pcre.exec P text offset ≡ some v
      → Begins text offset v)
    (flat : (name regex : List ℕ)
      → Database.get B patterns name ≡ some regex
      → percent_signs regex ≡ 0) where
  module _ (X : Xdr) (T : Table (Xdr.Bytes X)) (made : Choice → List ℕ → Option (List ℕ))
      (pointers : (c : Choice) (args extra : List ℕ) → made c args ≡ some extra → length extra ≤ 8)
      (texts : (name regex : List ℕ) → Database.get B patterns name ≡ some regex → IsText regex)
      (plain : (text : List ℕ) (offset : ℕ) (v : Vector)
        → Pcre.exec P text offset ≡ some v
        → (v.subname ≡ none) × (length (group_text text v.name) ≤ 200000)) where
    -- A name without a subname.
    abbrev Short : List ℕ × List ℕ → Type 0
    Short (name, sub) = (sub ≡ []) × (length name ≤ 200000)
