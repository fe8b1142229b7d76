-- ===== src/Grok/Compile.antt =====
-- `grok_compilen` and `grok_study_capture_map` of tags/grok/20090928/grokre.c. PCRE is a parameter.
pub mod Study
pub mod Compiles
pub mod Inits
mod Examples
use semicomplete_googlecode.Common.{
  ℕ, zero, suc, ◌+◌, ◌-◌, ◌*◌, ◌≡◌, ◌&&◌, ◌||◌, Option, none, some, List, [], ◌∷◌, ltb, leb, ◌==◌,
  if◌then◌else◌, ◌>>=◌, length, get_elem?, replicate, drop, ◌++◌,
}
use semicomplete_googlecode.Common.Int.{ℤ, pos, minus}
use semicomplete_googlecode.Grok.Buffer.{Str, read, strlen}
use semicomplete_googlecode.Grok.Database.{Database}
use semicomplete_googlecode.Grok.Capture.{Xdr, capture_add, capture_get_by_id}
use semicomplete_googlecode.Grok.Capture.Tables.{Table}
use semicomplete_googlecode.Grok.Predicate.Choice.{Choice}
use semicomplete_googlecode.Grok.Expand.{Pcre, pattern_expand}
use semicomplete_googlecode.Grok.Expand.Examples.{expansion, patterns}

-- `pcre_compile`, `pcre_fullinfo` and `pcre_exec`. The name table is a block of bytes; the search
-- is given the text and the size of the vector, and returns a code and the vector.
pub record Regexes : Type 1 where
  pub Regex : Type 0
  pub compile : List ℕ → Option Regex
  pub capture_count : Regex → ℕ
  pub name_count : Regex → ℕ
  pub name_entry_size : Regex → ℕ
  pub name_table : Regex → List ℕ
  pub match : Regex → List ℕ → ℕ → ℤ × List ℤ
  pub length-match : (re : Regex) (text : List ℕ) (n : ℕ) → length (match re text n).1 ≡ n

-- The codes of grok.h.
abbrev pub grok_ok : ℤ
grok_ok = pos 0

abbrev pub error_compile_failed : ℤ
error_compile_failed = pos 4

abbrev pub error_uninitialized : ℤ
error_uninitialized = pos 5

abbrev pub error_pcre : ℤ
error_pcre = pos 6

abbrev pub error_nomatch : ℤ
error_nomatch = pos 7

-- A `char` is signed.
abbrev pub char_sum : ℕ → ℕ → ℤ
char_sum hi lo =
    minus (256 * hi + lo) ((if ltb hi 128 then 0 else 65536) + (if ltb lo 128 then 0 else 256))

unfoldable pub hex_value : ℕ → Option ℕ
hex_value c =
    if ltb c b'0'
    then none
    else if leb c b'9'
    then some (c - b'0')
    else if ltb c b'A'
    then none
    else if leb c b'F'
    then some (c - 55)
    else if ltb c b'a'
    then none
    else if leb c b'f'
    then some (c - 87)
    else none

abbrev pub or_zero : Option ℕ → ℕ
or_zero none = 0
or_zero (some n) = n

-- Digits in a field of a width; the number so far is given.
unfoldable pub scan_digits : ℕ → Option ℕ → List ℕ → Option ℕ
unfolding hex_value
scan_digits zero sofar cs = sofar
scan_digits (suc width) sofar [] = sofar
scan_digits (suc width) sofar (c ∷ cs) = elim (hex_value c) [
  | none ↦ sofar
  | some d ↦ scan_digits width (some (or_zero sofar * 16 + d)) cs
]

-- "%04x" admits 0x in front, which counts for the width.
unfoldable pub scan_field : List ℕ → Option ℕ
unfolding scan_digits
scan_field (c ∷ d ∷ cs) =
    let plain = scan_digits 4 none (c ∷ d ∷ cs) in
    let prefixed = scan_digits 2 none cs in
    if c == b'0' && (d == b'x' || d == b'X') then prefixed else plain
scan_field cs = scan_digits 4 none cs

-- `sscanf`, which leaves the variable as it is where there is no number.
unfoldable pub sscanf : ℕ → List ℕ → ℕ
unfolding scan_field
sscanf was name = elim (scan_field name) [ none ↦ was | some n ↦ n ]

module _ (X : Xdr) (T : Table (Xdr.Bytes X)) (R : Regexes) where
  open R use {Regex, compile, capture_count, name_count, name_entry_size, name_table, match}

  -- What `grok_t` has of a compiled pattern; the texts of errors are left out.
  pub record Grok : Type 0 where
    pub re : Option Regex
    pub full_pattern : Option Str
    pub pcre_num_captures : ℕ
    pub pcre_capture_vector : List ℤ
    pub pcre_errno : ℤ
    pub captures : Table.Db T

  -- `grok_init`, which leaves `pcre_errno` as it is.
  unfoldable pub init : ℤ → Grok
  init pcre_errno = record {
    re = none;
    full_pattern = none;
    pcre_num_captures = 0;
    pcre_capture_vector = [];
    pcre_errno = pcre_errno;
    captures = Table.empty T;
  }

  -- The table, whether the capture was added or not, and `capture_id`, which keeps its value from
  -- one entry to the next. That the capture is there is asserted.
  unfoldable pub study_entry : List ℕ → ℕ → Table.Db T × ℕ → Option (Table.Db T × ℕ)
  unfolding sscanf
  study_entry nametable offset s = do
    hi ← get_elem? nametable offset
    lo ← get_elem? nametable (offset + 1)
    let capture_id = sscanf s.1 (drop (offset + 2) nametable) in
        (do
          gct ← capture_get_by_id X T s.0 capture_id
          r ← capture_add X T s.0 (record gct { pcre_capture_number = char_sum hi lo })
          some (r.0, capture_id))

  unfoldable pub study_from : ℕ → ℕ → List ℕ → ℕ → Table.Db T × ℕ → Option (Table.Db T × ℕ)
  unfolding study_entry
  study_from zero i nametable entrysize s = some s
  study_from (suc left) i nametable entrysize s = do
    next ← study_entry nametable (i * entrysize) s
    study_from left (i + 1) nametable entrysize next

  -- `stale` is what `capture_id` holds at first.
  unfoldable pub study_capture_map : ℕ → Regex → Table.Db T → Option (Table.Db T)
  unfolding study_from
  study_capture_map stale re db = do
    s ← study_from (name_count re) 0 (name_table re) (name_entry_size re) (db, stale)
    some s.0

  module _ (junk stale : ℕ) (B : Database (List ℕ)) (P : Pcre)
      (made : Choice → List ℕ → Option (List ℕ)) where
    -- A pattern that PCRE accepts.
    abbrev pub compiled : Option Regex → Grok → Option (ℤ × Grok)
    compiled none grok = some (error_compile_failed, record grok { re = none })
    compiled (some re) grok = do
      captures ← study_capture_map stale re grok.captures
      some (
        grok_ok,
        record grok {
          re = some re;
          pcre_num_captures = capture_count re + 1;
          pcre_capture_vector = replicate (3 * (capture_count re + 1)) (pos 0);
          captures = captures;
        },
      )

    -- `pcre_compile` of NULL is a fault.
    unfoldable pub compilen : ℕ → Database.Db B → Grok → List ℕ → Option (ℤ × Grok)
    unfolding study_capture_map
    compilen fuel patterns grok pattern = do
      expansion ←
          pattern_expand junk B X T P made fuel patterns grok.captures
            (record { mem = pattern ++ 0 ∷ []; len = length pattern; size = length pattern + 1 })
      full ← expansion.0
      n ← strlen full.mem
      text ← read full.mem 0 n
      compiled (compile text) (record grok { full_pattern = some full; captures = expansion.1 })
