-- ===== src/Grok/Pattern.antt =====
-- The pattern table of tags/grok/20090928/grok_pattern.c.
mod Examples
pub mod Parse
pub mod Import
use semicomplete_googlecode.Common.{
  ℕ, Bool, false, ◌||◌, Option, none, some, List, [], ◌∷◌, ◌++◌, ◌==◌, if◌then◌else◌, length,
}
use semicomplete_googlecode.Grok.Database.{Database}

-- The results of grok.h that these functions return.
pub data Code : Type 0 where
  grok_ok file_not_accessible pattern_not_found unexpected_read_size : Code

abbrev pub is_blank : ℕ → Bool
is_blank c = c == 32 || c == 9

-- `strspn(s, " \t")` and `strcspn(s, " \t")`, as the text behind and the text in front.
unfoldable pub skip_blanks : List ℕ → List ℕ
skip_blanks [] = []
skip_blanks (c ∷ cs) = let rest = skip_blanks cs in if is_blank c then rest else c ∷ cs

unfoldable pub to_blank : List ℕ → List ℕ × List ℕ
to_blank [] = ([], [])
to_blank (c ∷ cs) =
    let (word, rest) = to_blank cs in if is_blank c then ([], c ∷ cs) else (c ∷ word, rest)

-- `_pattern_parse_string`: the name and the expression.
unfoldable pub parse_string : List ℕ → List ℕ × List ℕ
unfolding skip_blanks to_blank
parse_string line = let parts = to_blank (skip_blanks line) in (parts.0, skip_blanks parts.1)

-- The tokens of `strtok_r(s, "\n", …)`: lines that are not empty, up to the NUL. `cur` holds the
-- token that is being read.
abbrev pub close_token : List ℕ → List (List ℕ)
close_token [] = []
close_token (c ∷ cs) = (c ∷ cs) ∷ []

unfoldable pub tokens : List ℕ → List ℕ → List (List ℕ)
tokens cur [] = close_token cur
tokens cur (c ∷ cs) =
    let next = close_token cur ++ tokens [] cs in
    let more = tokens (cur ++ c ∷ []) cs in
    if c == 0 then close_token cur else if c == 10 then next else more

-- `*regexp` and the result of `grok_pattern_find`.
abbrev pub answer : Option (List ℕ) → Option (List ℕ) × Code
answer none = (none, pattern_not_found)
answer (some regexp) = (some regexp, grok_ok)

abbrev pub is_comment : List ℕ → Bool
is_comment [] = false
is_comment (c ∷ cs) = c == b'#'

module _ (B : Database (List ℕ)) where
  open B use {Db, put, get}

  unfoldable pub pattern_add : Db → List ℕ → List ℕ → Db × Code
  pattern_add db name regexp = (put db name regexp, grok_ok)

  unfoldable pub pattern_find : Db → List ℕ → Option (List ℕ) × Code
  pattern_find db name = answer (get db name)

  -- One round of the loop of `grok_patterns_import_from_string`.
  unfoldable pub import_line : Db → List ℕ → Db
  unfolding pattern_add
  import_line db tok =
      let line = skip_blanks tok in
      let (name, regexp) = parse_string line in
      if is_comment line then db else (pattern_add db name regexp).0

  unfoldable pub import_lines : Db → List (List ℕ) → Db
  import_lines db [] = db
  import_lines db (tok ∷ toks) = import_lines (import_line db tok) toks

  unfoldable pub import_from_string : Db → List ℕ → Db × Code
  import_from_string db buffer = (import_lines db (tokens [] buffer), grok_ok)

  -- What the file system answers: no access, or the size and the bytes that could be read.
  pub data FileAnswer : Type 0 where
    no_access : FileAnswer
    opened : ℕ → List ℕ → FileAnswer

  -- The buffer has a NUL behind the bytes.
  unfoldable pub import_from_file : Db → FileAnswer → Db × Code
  import_from_file db no_access = (db, file_not_accessible)
  import_from_file db (opened filesize bytes) =
      if length bytes == filesize
      then ((import_from_string db (bytes ++ 0 ∷ [])).0, grok_ok)
      else (db, unexpected_read_size)
