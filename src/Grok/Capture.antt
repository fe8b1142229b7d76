-- ===== src/Grok/Capture.antt =====
-- The captures of a compiled pattern: tags/grok/20090928/grok_capture.c and grok_match.c. XDR and
-- the tables of Berkeley DB with their secondary indexes are parameters. NULL and an id that is
-- not set are `none`; the number of a group that is not set is -1.
pub mod Tables
pub mod Lookup
pub mod Plain
mod Examples
use semicomplete_googlecode.Common.{
  ℕ, zero, suc, ◌+◌, ◌-◌, ◌*◌, ◌≡◌, Option, none, some, List, [], ◌∷◌, ltb, if◌then◌else◌, ◌>>=◌,
  ◌≢◌, ◌≤◌, length, Bool, false, ◌||◌, get_elem?,
}
use semicomplete_googlecode.Common.Int.{ℤ, pos, negsuc}
use semicomplete_googlecode.Grok.Capture.Tables.{Table}
use semicomplete_googlecode.Grok.Database.{same_key}

-- `grok_capture`; the lengths beside the strings are left out, and a string here has its length.
pub record Capture : Type 0 where
  pub id : Option ℕ
  pub pcre_capture_number : ℤ
  pub name : Option (List ℕ)
  pub subname : Option (List ℕ)
  pub pattern : Option (List ℕ)
  pub predicate_lib : Option (List ℕ)
  pub predicate_func_name : Option (List ℕ)
  pub extra : Option (List ℕ)

abbrev pub capture_init : Capture
capture_init = record {
  id = none;
  pcre_capture_number = negsuc 0;
  name = none;
  subname = none;
  pattern = none;
  predicate_lib = none;
  predicate_func_name = none;
  extra = none;
}

-- NULL is replaced by `EMPTYSTR`.
abbrev pub not_null : Option (List ℕ) → Option (List ℕ)
not_null none = some []
not_null (some s) = some s

abbrev pub with_strings : Capture → Capture
with_strings gct = record gct {
  name = not_null gct.name;
  subname = not_null gct.subname;
  pattern = not_null gct.pattern;
  predicate_lib = not_null gct.predicate_lib;
  predicate_func_name = not_null gct.predicate_func_name;
  extra = not_null gct.extra;
}

-- The bytes in the texts of a capture.
abbrev pub size_of : Option (List ℕ) → ℕ
size_of none = 0
size_of (some s) = length s

abbrev pub text_size : Capture → ℕ
text_size gct =
    size_of gct.name
    + size_of gct.subname
    + size_of gct.pattern
    + size_of gct.predicate_lib
    + size_of gct.predicate_func_name
    + size_of gct.extra

-- `xdr_grok_capture` into a buffer of a size, `none` where it is too small, and back. XDR takes four
-- bytes for each of the seven numbers and of the six lengths, and fills a text up to four.
pub record Xdr : Type 1 where
  pub Bytes : Type 0
  pub encode : Capture → ℕ → Option Bytes
  pub decode : Bytes → Capture
  pub decode-encode :
      (gct : Capture) (size : ℕ) (bytes : Bytes)
      → encode (with_strings gct) size ≡ some bytes
      → decode bytes ≡ with_strings gct
  pub encode_small :
      (gct : Capture) (size : ℕ)
      → 100 + text_size (with_strings gct) ≤ size
      → encode (with_strings gct) size ≢ none

module _ (X : Xdr) where
  open X use {Bytes, encode, decode}

  -- The buffer is doubled from 256 bytes on; over a megabyte the program aborts.
  unfoldable pub encode_from : ℕ → Capture → ℕ → Option Bytes
  encode_from zero gct alloc_size = none
  encode_from (suc fuel) gct alloc_size =
      let larger = encode_from fuel gct (alloc_size * 2) in
      if ltb 1048576 alloc_size
      then none
      else (elim (encode gct alloc_size) [ none ↦ larger | some bytes ↦ some bytes ])

  unfoldable pub capture_encode : Capture → Option Bytes
  unfolding encode_from
  capture_encode gct = encode_from 14 (with_strings gct) 256

  -- What the secondary tables are indexed by.
  abbrev pub not_empty : Option (List ℕ) → Option (List ℕ)
  not_empty (some []) = none
  not_empty o = o

  abbrev pub captures_by_name_key : Bytes → Option (List ℕ)
  captures_by_name_key bytes = (decode bytes).name

  -- An `int` as a key.
  abbrev pub number_key : ℤ → List ℕ
  number_key (pos n) = n ∷ []
  number_key (negsuc n) = n ∷ 0 ∷ []

  abbrev pub set_number_key : ℤ → Option (List ℕ)
  set_number_key (negsuc zero) = none
  set_number_key (negsuc (suc n)) = some (number_key (negsuc (suc n)))
  set_number_key (pos n) = some (number_key (pos n))

  abbrev pub captures_by_capture_number : Bytes → Option (List ℕ)
  captures_by_capture_number bytes = set_number_key (decode bytes).pcre_capture_number

  abbrev pub captures_by_subname : Bytes → Option (List ℕ)
  captures_by_subname bytes = not_empty (decode bytes).subname

  module _ (T : Table Bytes) where
    open T use {Db, put, get, secondary}

    -- An id that is not set is -1, a key of its own.
    abbrev pub id_key : Option ℕ → List ℕ
    id_key none = []
    id_key (some n) = n ∷ []

    -- The secondaries by subname and by number allow no duplicates, that by name does.
    abbrev pub same_set : Option (List ℕ) → Option (List ℕ) → Bool
    same_set none o = false
    same_set (some k) none = false
    same_set (some k) (some j) = same_key k j

    abbrev pub clash : Bytes → Bytes → Bool
    clash a b =
        same_set (captures_by_subname a) (captures_by_subname b)
        || same_set (captures_by_capture_number a) (captures_by_capture_number b)

    -- With the table comes whether the `return` is 0.
    unfoldable pub capture_add : Db → Capture → Option (Db × Bool)
    unfolding capture_encode
    capture_add db gct = do bytes ← capture_encode gct; some (put clash db (id_key gct.id) bytes)

    abbrev pub capture_get_db : Option Bytes → Option Capture
    capture_get_db found = do bytes ← found; some (decode bytes)

    unfoldable pub capture_get_by_id : Db → ℕ → Option Capture
    capture_get_by_id db id = capture_get_db (get db (id ∷ []))

    unfoldable pub capture_get_by_name : Db → List ℕ → Option Capture
    capture_get_by_name db name = capture_get_db (secondary captures_by_name_key db name)

    unfoldable pub capture_get_by_subname : Db → List ℕ → Option Capture
    capture_get_by_subname db subname = capture_get_db (secondary captures_by_subname db subname)

    unfoldable pub capture_get_by_capture_number : Db → ℤ → Option Capture
    capture_get_by_capture_number db number =
        capture_get_db (secondary captures_by_capture_number db (number_key number))

    -- By the name, and if there is none by the part behind the colon.
    unfoldable pub match_get_named_capture : Db → List ℕ → Option Capture
    unfolding capture_get_by_name capture_get_by_subname
    match_get_named_capture db name = elim (capture_get_by_name db name) [
      | some gct ↦ some gct
      | none ↦ capture_get_by_subname db name
    ]

    -- The start and the length of the capture in the subject, for groups that took part in the match. A
    -- number below zero would be read in front of the vector: a fault.
    abbrev pub at_index : ℤ → Option ℕ
    at_index (pos n) = some n
    at_index (negsuc n) = none

    unfoldable pub match_get_named_substring : Db → List ℕ → List ℕ → Option (Option (ℕ × ℕ))
    unfolding match_get_named_capture
    match_get_named_substring db pcre_capture_vector name = elim (match_get_named_capture db name) [
      | none ↦ some none
      | some gct ↦ (do
        number ← at_index gct.pcre_capture_number
        start ← get_elem? pcre_capture_vector (number * 2)
        end ← get_elem? pcre_capture_vector (number * 2 + 1)
        some (some (start, end - start)))
    ]
