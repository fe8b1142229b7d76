-- ===== src/Grok/Compile/Examples.antt =====
-- A pattern with one group, compiled by an expression library that knows one name.
use semicomplete_googlecode.Common.{
  ℕ, zero, suc, ◌+◌, ◌*◌, ◌<◌, ◌≡◌, refl, some, List, [], ◌∷◌, ◌++◌, arith, true, codes, get_elem?,
  length, replicate, length-replicate,
}
use semicomplete_googlecode.Common.Int.{pos, negsuc}
use semicomplete_googlecode.Grok.Database.{assoc}
use semicomplete_googlecode.Grok.Capture.{Capture}
use semicomplete_googlecode.Grok.Capture.Plain.{plain}
use semicomplete_googlecode.Grok.Capture.Tables.{assoc_table}
use semicomplete_googlecode.Grok.Expand.{capture_id_str}
use semicomplete_googlecode.Grok.Expand.Percents.{percents}
use semicomplete_googlecode.Grok.Expand.Examples.{
  one_word, patterns, nothing_made, expanded, word, only_b-IsText, word-IsText, expansion,
  expansion-rounds, no_pointers, no_captures-Tame, unused, distinct,
}
use semicomplete_googlecode.Grok.Compile.{Regexes, init, Grok, compilen, grok_ok, char_sum, sscanf}
use semicomplete_googlecode.Grok.Exec.{Regexp, predicate_regexp}
use semicomplete_googlecode.Grok.Compile.Study.{IsEntry, Numbered}
use semicomplete_googlecode.Grok.Exec.Accepts.{predicate_regexp_accepts}
use semicomplete_googlecode.Grok.Compile.Compiles.{compilen_correct}

-- Group 1 has the name 0000; no text matches.
abbrev name_bytes : List ℕ
name_bytes = 0 ∷ 1 ∷ (codes "0000" ++ 0 ∷ [])

abbrev one_group : Regexes
one_group = record {
  Regex = List ℕ;
  compile = λ text. some text;
  capture_count = λ re. 1;
  name_count = λ re. 1;
  name_entry_size = λ re. 7;
  name_table = λ re. name_bytes;
  match = λ re text n. (negsuc 0, replicate n (pos 0));
  length-match = λ re text n. length-replicate n (pos 0);
}

abbrev fresh : Grok plain (assoc_table Capture) one_group
unfolding init
fresh = init plain (assoc_table Capture) one_group (pos 0)

-- The group 128 is read as -128.
group_128 : char_sum 0 128 ≡ negsuc 127
group_128 = refl

name_run : sscanf 9 (codes "00fe") ≡ 254
unfolding sscanf
name_run = refl

no_name_run : sscanf 9 (codes "word") ≡ 9
unfolding sscanf
no_name_run = refl

name_bytes-IsEntry : IsEntry name_bytes 0 1 0
unfolding capture_id_str
name_bytes-IsEntry = record {
  few = omega arith;
  in_field = omega arith;
  high = refl;
  low = refl;
  rest = 0 ∷ [];
  named = refl;
}

first_IsEntry : (k : ℕ) → k < 1 → IsEntry name_bytes (k * 7) 1 0
first_IsEntry zero h = name_bytes-IsEntry
first_IsEntry (suc k) h = absurd (omega arith)

abbrev listed : List (ℕ × List ℕ)
listed = (0, codes "A") ∷ []

first_named : (k : ℕ) → k < 1 → (j : ℕ) × (get_elem? listed j ≡ some (0, codes "A"))
first_named k h = (0, refl)

compilen_correct_example :
    (after : Grok plain (assoc_table Capture) one_group) × (compilen plain
        (assoc_table Capture)
        one_group
        0
        0
        (assoc (List ℕ))
        one_word
        nothing_made
        5
        patterns
        fresh
        word
      ≡ some (grok_ok, after))
    × (after.re ≡ some (percents expanded))
    × (length after.pcre_capture_vector ≡ 3 * (1 + 1))
    × ((k : ℕ)
        → k < 1
        → Numbered plain (assoc_table Capture) one_group after.captures 0 (codes "A") 1)
unfolding fresh
compilen_correct_example =
    compilen_correct (assoc (List ℕ)) one_word patterns only_b-IsText 0 0 plain
      (assoc_table Capture) one_group nothing_made no_pointers expansion 5 fresh (percents expanded)
      (λ k. 0) (λ k. 1) (λ k. codes "A") expansion-rounds word-IsText refl first_IsEntry
      (λ j k hj hk e. omega arith) (λ j k hj hk e. omega arith) first_named no_captures-Tame unused
      distinct

-- A negated expression that does not match.
abbrev negative : Regexp plain (assoc_table Capture) one_group
negative = record { gre = record fresh { re = some (codes "a") }; negative_match = true }

predicate_regexp_accepts_example :
    (after : Regexp plain (assoc_table Capture) one_group) × (predicate_regexp plain
        (assoc_table Capture)
        one_group
        negative
        (codes "xyz")
        1
        3
      ≡ some (0, after))
predicate_regexp_accepts_example =
    predicate_regexp_accepts plain (assoc_table Capture) one_group negative (codes "xyz") 1 3
      (omega arith) (omega arith)
