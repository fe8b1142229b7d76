-- ===== src/Grok/Pattern/Examples.antt =====
-- The properties of the pattern table at concrete inputs.
use mathlib.Core.List.{cons-ne-nil}
use semicomplete_googlecode.Common.{ℕ, ◌≡◌, refl, List, [], ◌∷◌, ◌++◌, arith, codes}
use semicomplete_googlecode.Grok.Database.{Database, assoc}
use semicomplete_googlecode.Grok.Pattern.{pattern_find, import_from_string}
use semicomplete_googlecode.Grok.Pattern.Import.{
  Entry, IsEntry, pattern_find-import, render, latest,
}

abbrev word : List ℕ
word = codes "WORD"

abbrev expression : List ℕ
expression = codes "w+ x"

abbrev entry : Entry
entry = record { name = word; regexp = expression }

entry-IsEntry : IsEntry entry
entry-IsEntry = record {
  named = cons-ne-nil _ _;
  name_line = (
    (omega arith, omega arith),
    ((omega arith, omega arith), ((omega arith, omega arith), ((omega arith, omega arith), tt))),
  );
  name_plain = (refl, (refl, (refl, (refl, tt))));
  not_comment = refl;
  regexp_line = (
    (omega arith, omega arith),
    ((omega arith, omega arith), ((omega arith, omega arith), ((omega arith, omega arith), tt))),
  );
  regexp_plain = refl;
}

pattern_find-import_example :
    (pattern_find
      (assoc (List ℕ))
      (import_from_string
        (assoc (List ℕ))
        (Database.empty (assoc (List ℕ)))
        (render (entry ∷ []) ++ 0 ∷ [])).0
      word).0
    ≡ latest
        (entry ∷ [])
        word
        (pattern_find (assoc (List ℕ)) (Database.empty (assoc (List ℕ))) word).0
pattern_find-import_example =
    pattern_find-import (assoc (List ℕ)) (Database.empty (assoc (List ℕ))) (entry ∷ []) word
      (entry-IsEntry, tt)
