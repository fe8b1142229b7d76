-- ===== src/Grok/Expand/Examples.antt =====
-- Expansions at a concrete pattern table.
use semicomplete_googlecode.Common.{
  ℕ, ◌≡◌, refl, ◌&&◌, Option, none, some, List, [], ◌∷◌, ◌++◌, arith, ◌==◌, if◌then◌else◌, codes,
  All, inl, inr, Bool-cases, ◌<◌, ◌≤◌, length,
}
use semicomplete_googlecode.Grok.Buffer.Texts.{IsText}
use semicomplete_googlecode.Grok.Buffer.{Str}
use semicomplete_googlecode.Grok.Buffer.Blocks.{IsClosed}
use semicomplete_googlecode.Grok.Database.{Database, assoc, same_key, same_key→eq, find}
use semicomplete_googlecode.Grok.Capture.{Capture}
use semicomplete_googlecode.Grok.Capture.Plain.{plain}
use semicomplete_googlecode.Grok.Capture.Tables.{Table, assoc_table}
use semicomplete_googlecode.Grok.Predicate.Choice.{Choice}
use semicomplete_googlecode.Grok.Expand.{Vector, Pcre, IsInside, pattern_expand, capture_id_str}
use semicomplete_googlecode.Grok.Expand.Rewrites.{Rewrites, finished, known, rounds, labels}
use semicomplete_googlecode.Grok.Expand.Percents.{percents}
use semicomplete_googlecode.Grok.Expand.Captures.{Named, Unused, Distinct, Tame}
use semicomplete_googlecode.Grok.Expand.Refines.{pattern_expand_refines}

abbrev pub word : List ℕ
word = codes "%{A}"

abbrev whole : Vector
whole = record {
  start = 0;
  end = 4;
  pattern = some (2, 3);
  name = some (2, 3);
  subname = none;
  predicate = none;
}

-- A search that knows one text.
pub exec_word : List ℕ → ℕ → Option Vector
exec_word text offset = if same_key text word && offset == 0 then some whole else none

exec_word_found :
    (text : List ℕ) (offset : ℕ) (v : Vector)
    → exec_word text offset ≡ some v
    → (text ≡ word) × (offset ≡ 0) × (v ≡ whole)
unfolding exec_word
exec_word_found text offset v h = elim (Bool-cases (same_key text word)) [
  | inl same ↦ elim (Bool-cases (offset == 0)) [
    | inl first ↦
        let e : some whole ≡ some v = rw (same, first) at h in
        (same_key→eq text word same, ground arith, cc)
    | inr later ↦ let e : none ≡ some v = rw (same, later) at h in cc
  ]
  | inr other ↦ let e : none ≡ some v = rw other at h in cc
]

whole-IsInside : IsInside word whole
whole-IsInside = record {
  forward = omega arith;
  within = omega arith;
  pattern_in = omega arith;
  name_in = omega arith;
  subname_in = tt;
  predicate_in = tt;
}

pub exec_word-IsInside :
    (text : List ℕ) (offset : ℕ) (v : Vector) → exec_word text offset ≡ some v → IsInside text v
exec_word-IsInside text offset v h =
    let e = exec_word_found text offset v h in rw (e.0, e.2) whole-IsInside

abbrev pub one_word : Pcre
one_word = record { exec = exec_word; exec-IsInside = exec_word-IsInside }

abbrev pub patterns : Database.Db (assoc (List ℕ))
patterns = Database.put (assoc (List ℕ)) (Database.empty (assoc (List ℕ))) (codes "A") (codes "b")

abbrev pub no_captures : Table.Db (assoc_table Capture)
no_captures = Table.empty (assoc_table Capture)

abbrev buffer : Str
buffer = record { mem = word ++ 0 ∷ []; len = 4; size = 5 }

buffer-IsClosed : IsClosed buffer word
buffer-IsClosed = record { rest = []; content = refl; counted = refl; sized = refl }

abbrev pub nothing_made : Choice → List ℕ → Option (List ℕ)
nothing_made c args = none

only_b :
    (name regex : List ℕ)
    → Database.get (assoc (List ℕ)) patterns name ≡ some regex
    → regex ≡ codes "b"
unfolding find
only_b name regex h = elim (Bool-cases (same_key (codes "A") name)) [
  | inl same ↦ let e : some (codes "b") ≡ some regex = rw same at h in cc
  | inr other ↦ let e : none ≡ some regex = rw other at h in cc
]

b-IsText : IsText (codes "b")
b-IsText = ground arith

pub only_b-IsText :
    (name regex : List ℕ) → Database.get (assoc (List ℕ)) patterns name ≡ some regex → IsText regex
only_b-IsText name regex h = rw (only_b name regex h) b-IsText

pub word-IsText : IsText word
word-IsText = ground arith

abbrev pub expanded : List ℕ
expanded = codes "(?<0000>b)"

pub expansion : Rewrites (assoc (List ℕ)) one_word patterns word 0 0 ((0, codes "A") ∷ []) expanded
unfolding exec_word same_key find capture_id_str
expansion = known whole (codes "b") refl refl (finished refl refl)

pub expansion-rounds : rounds (assoc (List ℕ)) one_word patterns expansion < 5
unfolding rounds expansion
expansion-rounds = omega arith

pub no_pointers :
    (c : Choice) (args extra : List ℕ) → nothing_made c args ≡ some extra → length extra ≤ 8
no_pointers c args extra h = cc

pub no_captures-Tame : Tame plain (assoc_table Capture) no_captures
unfolding find
no_captures-Tame = record {
  unnumbered = λ other u there. cc;
  short = λ other u there. cc;
  apart = λ i j u v at_i at_j differ. cc;
}

pub unused :
    Unused plain
      (assoc_table Capture)
      no_captures
      (labels (assoc (List ℕ)) one_word patterns expansion)
unfolding find
unused other u there = cc

pub distinct :
    Distinct plain (assoc_table Capture) (labels (assoc (List ℕ)) one_word patterns expansion)
unfolding labels expansion
distinct = (omega arith, tt, tt)

pattern_expand_refines_example :
    (t : Str) × (db : Table.Db (assoc_table Capture)) × (pattern_expand 0
        (assoc (List ℕ))
        plain
        (assoc_table Capture)
        one_word
        nothing_made
        5
        patterns
        no_captures
        buffer
      ≡ some (some t, db))
    × IsClosed t (percents expanded)
    × All (Named plain (assoc_table Capture) db) ((0, codes "A") ∷ [])
    × Tame plain (assoc_table Capture) db
pattern_expand_refines_example =
    pattern_expand_refines 0 (assoc (List ℕ)) plain (assoc_table Capture) one_word nothing_made
      no_pointers patterns only_b-IsText expansion 5 no_captures buffer expansion-rounds
      buffer-IsClosed word-IsText no_captures-Tame unused distinct
