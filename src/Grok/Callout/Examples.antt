-- ===== src/Grok/Callout/Examples.antt =====
-- A callout with the predicate for numbers, for the first group of a match.
use semicomplete_googlecode.Common.{
  ℕ, ◌≡◌, refl, Option, none, some, List, [], ◌∷◌, codes, Bool-cases, inl, inr,
}
use semicomplete_googlecode.Common.Int.{pos}
use semicomplete_googlecode.Grok.Database.{same_key, find}
use semicomplete_googlecode.Grok.Capture.{Capture, capture_init, clash}
use semicomplete_googlecode.Grok.Capture.Plain.{plain}
use semicomplete_googlecode.Grok.Capture.Tables.{Table, assoc_table, clashing}
use semicomplete_googlecode.Grok.Callout.{Block, Predicate, pcre_callout}
use semicomplete_googlecode.Grok.Callout.Runs.{Only, pcre_callout_runs}

abbrev number : Capture
number = record capture_init {
  id = some 0;
  pcre_capture_number = pos 1;
  name = some (codes "INT");
  predicate_func_name = some (codes "grok_predicate_numcompare");
}

abbrev one_number : Table.Db (assoc_table Capture)
one_number =
    (Table.put (assoc_table Capture) (clash plain (assoc_table Capture))
      (Table.empty (assoc_table Capture)) (0 ∷ []) number).0

-- It rejects the match.
abbrev rejects : Predicate
rejects gct subject start end = some (pos 1)

abbrev one_function : Option (List ℕ) → List ℕ → Option Predicate
one_function lib func = some rejects

abbrev block : Block
block = record {
  capture_last = 1;
  offset_vector = pos 0 ∷ pos 4 ∷ pos 2 ∷ pos 4 ∷ [];
  subject = codes "n=42";
}

number-Only : Only plain (assoc_table Capture) one_number 1 number
unfolding find clashing
number-Only id bytes there is_one = elim (Bool-cases (same_key (0 ∷ []) id)) [
  | inl same ↦ let e : some number ≡ some bytes = rw same at there in cc
  | inr other ↦ let e : none ≡ some bytes = rw other at there in cc
]

number_there : Table.get (assoc_table Capture) one_number (0 ∷ []) ≡ some number
unfolding find same_key clashing
number_there = refl

pcre_callout_runs_example :
    pcre_callout plain (assoc_table Capture) one_function one_number block ≡ some (pos 1)
pcre_callout_runs_example =
    pcre_callout_runs plain (assoc_table Capture) one_function one_number block number (0 ∷ [])
      number (codes "grok_predicate_numcompare") rejects (pos 2) (pos 4) number_there refl refl
      number-Only refl refl refl refl
