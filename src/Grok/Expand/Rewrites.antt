-- ===== src/Grok/Expand/Rewrites.antt =====
-- What the expansion of tags/grok/20090928/grokre.c means, on texts: which rewriting steps lead from
-- a pattern to its expansion, and which captures they number.
use semicomplete_googlecode.Common.{
  ℕ, suc, ◌+◌, ◌-◌, ◌≡◌, none, some, List, [], ◌∷◌, ◌++◌, codes, take, drop,
}
use semicomplete_googlecode.Grok.Database.{Database}
use semicomplete_googlecode.Grok.Expand.{Vector, Group, Pcre, capture_id_str}

abbrev pub slice : List ℕ → ℕ → ℕ → List ℕ
slice xs i j = take (j - i) (drop i xs)

abbrev pub group_text : List ℕ → Group → List ℕ
group_text xs none = []
group_text xs (some (i, j)) = slice xs i j

-- A predicate leaves a callout behind the group.
abbrev pub callout : Group → List ℕ
callout none = []
callout (some r) = codes "(?C1)"

-- The named group, with the text behind it.
abbrev pub group : List ℕ → List ℕ → List ℕ → List ℕ
group id regex post = codes "(?<" ++ (id ++ (b'>' ∷ (regex ++ (b')' ∷ post))))

abbrev pub replaced : List ℕ → Vector → ℕ → List ℕ → List ℕ
replaced xs v id regex =
    take v.start xs ++ group (capture_id_str id) regex (callout v.predicate ++ drop v.end xs)

module _ (B : Database (List ℕ)) (P : Pcre) (patterns : Database.Db B) where
  -- `Rewrites xs offset id names ys`: from the offset on, `xs` is rewritten to `ys`, and the groups
  -- that come in are numbered from `id` on and have these names.
  pub data Rewrites : List ℕ → ℕ → ℕ → List (ℕ × List ℕ) → List ℕ → Type 0 where
    finished :
        {xs ys : List ℕ} {offset id : ℕ}
        → Pcre.exec P xs offset ≡ none
        → ys ≡ xs
        → Rewrites xs offset id [] ys
    unknown :
        {xs ys : List ℕ} {offset id : ℕ} {names : List (ℕ × List ℕ)} (v : Vector)
        → Pcre.exec P xs offset ≡ some v
        → Database.get B patterns (group_text xs v.pattern) ≡ none
        → Rewrites xs v.end id names ys
        → Rewrites xs offset id names ys
    known :
        {xs ys : List ℕ} {offset id : ℕ} {names : List (ℕ × List ℕ)} (v : Vector) (regex : List ℕ)
        → Pcre.exec P xs offset ≡ some v
        → Database.get B patterns (group_text xs v.pattern) ≡ some regex
        → Rewrites (replaced xs v id regex) v.start (id + 1) names ys
        → Rewrites xs offset id ((id, group_text xs v.name) ∷ names) ys

  unfoldable pub rounds :
      {xs ys : List ℕ} {offset id : ℕ} {names : List (ℕ × List ℕ)}
      → Rewrites xs offset id names ys
      → ℕ
  rounds (finished none_left same) = 0
  rounds (unknown v found missing rest) = suc (rounds rest)
  rounds (known v regex found there rest) = suc (rounds rest)

  -- The names that get a number, each with its subname.
  unfoldable pub labels :
      {xs ys : List ℕ} {offset id : ℕ} {names : List (ℕ × List ℕ)}
      → Rewrites xs offset id names ys
      → List (List ℕ × List ℕ)
  labels (finished none_left same) = []
  labels (unknown v found missing rest) = labels rest
  labels (known {xs} v regex found there rest) =
      (group_text xs v.name, group_text xs v.subname) ∷ labels rest
