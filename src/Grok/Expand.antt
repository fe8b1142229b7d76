-- ===== src/Grok/Expand.antt =====
-- `grok_pattern_expand` of tags/grok/20090928/grokre.c: each %{NAME} of a pattern is replaced by a
-- named group with the expression of NAME. PCRE is a parameter: what the search for the next
-- %{NAME} finds. What a predicate's init leaves behind `extra` is the parameter `made`.
pub mod Rewrites
pub mod Percents
pub mod Groups
pub mod Captures
pub mod Rounds
pub mod Refines
pub mod Flat
pub mod Examples
use semicomplete_googlecode.Common.{
  ℕ, zero, suc, ◌+◌, ◌-◌, ◌/◌, ◌%◌, ◌≤◌, ◌≡◌, ◌&&◌, Bool, true, false, Option, none, some, List, [],
  ◌∷◌, ltb, ◌==◌, if◌then◌else◌, ◌>>=◌, codes, length, get_elem?,
}
use semicomplete_googlecode.Grok.Buffer.{Str, read, strlen, substr_replace}
use semicomplete_googlecode.Grok.Database.{Database}
use semicomplete_googlecode.Grok.Pattern.{pattern_find}
use semicomplete_googlecode.Grok.Capture.{
  Capture, Xdr, capture_init, capture_add, capture_get_by_id,
}
use semicomplete_googlecode.Grok.Capture.Tables.{Table}
use semicomplete_googlecode.Grok.Predicate.Choice.{
  Choice, regexp, strcompare, numcompare, invalid, choose,
}

-- The start and the end of a group of `capture_vector`; a group that took no part is `none`.
abbrev pub Group : Type 0
Group = Option (ℕ × ℕ)

pub record Vector : Type 0 where
  pub start : ℕ
  pub end : ℕ
  pub pattern : Group
  pub name : Group
  pub subname : Group
  pub predicate : Group

abbrev pub InText : Group → ℕ → Type 0
InText none len = Unit
InText (some (s, e)) len = (s ≤ e) × (e ≤ len)

pub record IsInside (text : List ℕ) (v : Vector) : Type 0 where
  pub forward : v.start ≤ v.end
  pub within : v.end ≤ length text
  pub pattern_in : InText v.pattern (length text)
  pub name_in : InText v.name (length text)
  pub subname_in : InText v.subname (length text)
  pub predicate_in : InText v.predicate (length text)

-- `pcre_exec` for `PATTERN_REGEX` on a text from an offset. The manual says of the vector that its
-- offsets lie in the text.
pub record Pcre : Type 0 where
  pub exec : List ℕ → ℕ → Option Vector
  pub exec-IsInside :
      (text : List ℕ) (offset : ℕ) (v : Vector) → exec text offset ≡ some v → IsInside text v

-- `snprintf` of an unsigned number by "%04x" into five bytes: four digits, the leading ones of a
-- number that has more.
abbrev pub hex_char : ℕ → ℕ
hex_char d = if ltb d 10 then b'0' + d else b'a' + (d - 10)

unfoldable pub leading : ℕ → ℕ → ℕ
leading zero n = n
leading (suc more) n = let fewer = leading more (n / 16) in if ltb n 65536 then n else fewer

unfoldable pub capture_id_str : ℕ → List ℕ
unfolding leading
capture_id_str id =
    let n = leading 4 id in
    hex_char (n / 4096) ∷ hex_char (n / 256 % 16) ∷ hex_char (n / 16 % 16) ∷ hex_char (n % 16) ∷ []

-- `pcre_get_substring`; a group that is not set gives an empty string.
unfoldable pub substring : Str → Group → Option (List ℕ)
substring s none = some []
substring s (some (i, j)) = read s.mem i (j - i)

-- `assert(strlen(full_pattern) == full_len)`.
unfoldable pub asserted : Str → Option Str
asserted s = do n ← strlen s.mem; if n == s.len then some s else none

module _ (junk : ℕ) where
  -- The three replacements that put the group in the place of %{NAME}.
  unfoldable pub put_group : Str → ℕ → ℕ → List ℕ → List ℕ → Option Str
  put_group s start end id regex = do
    group ← substr_replace junk s.mem (some s.len) s.size start (some end) (codes "(?<>)") (some 5)
    named ← substr_replace junk group.mem (some group.len) group.size (start + 3) none id (some 4)
    substr_replace junk named.mem (some named.len) named.size (start + 3 + 4 + 1) none regex
        (some (length regex))

  -- "\%" loses its backslash, from left to right.
  unfoldable pub unescape_at : Str → ℕ → Option Str
  unescape_at s offset = do
    c ← get_elem? s.mem offset
    d ← get_elem? s.mem (offset + 1)
    if c == b'\\' && d == b'%'
        then substr_replace junk s.mem (some s.len) s.size offset (some (offset + 1)) (0 ∷ [])
            (some 0)
        else some s

  unfoldable pub unescape_percent : ℕ → ℕ → Str → Option Str
  unescape_percent zero offset s = none
  unescape_percent (suc fuel) offset s =
      let rest = (do t ← unescape_at s offset; unescape_percent fuel (offset + 1) t) in
      if ltb offset s.len then rest else some s

  module _ (B : Database (List ℕ)) (X : Xdr) (T : Table (Xdr.Bytes X)) (P : Pcre)
      (made : Choice → List ℕ → Option (List ℕ)) where
    open P use {exec}

    pub record Expansion : Type 0 where
      pub full : Str
      pub offset : ℕ
      pub capture_id : ℕ
      pub captures : Table.Db T

    -- A round leads to the next one, or a capture cannot be added and NULL is returned.
    pub data Round : Type 0 where
      goes_on : Expansion → Round
      gives_up : Table.Db T → Round

    abbrev pub or_init : Option Capture → Capture
    or_init none = capture_init
    or_init (some gct) = gct

    -- The last lines of each predicate's init: the function, its data, and the capture again. Whether
    -- it was added is not looked at.
    unfoldable pub add_checked :
        Table.Db T → Capture → List ℕ → Option (List ℕ) → Option (Table.Db T)
    add_checked db gct func none = some db
    add_checked db gct func (some extra) = do
      r ← capture_add X T db (record gct { predicate_func_name = some func; extra = some extra })
      some r.0

    unfoldable pub add_by_choice : Table.Db T → Capture → Choice → List ℕ → Option (Table.Db T)
    unfolding add_checked
    add_by_choice db gct regexp args =
        add_checked db gct (codes "grok_predicate_regexp") (made regexp args)
    add_by_choice db gct strcompare args =
        add_checked db gct (codes "grok_predicate_strcompare") (made strcompare args)
    add_by_choice db gct numcompare args =
        add_checked db gct (codes "grok_predicate_numcompare") (made numcompare args)
    add_by_choice db gct invalid args = some db

    -- `grok_capture_add_predicate`.
    unfoldable pub capture_add_predicate : Table.Db T → ℕ → List ℕ → Option (Table.Db T)
    unfolding add_by_choice
    capture_add_predicate db id args =
        add_by_choice db (or_init (capture_get_by_id X T db id)) (choose args) args

    -- A predicate is added to the capture, and a callout goes behind the %{NAME}.
    unfoldable pub put_predicate : Expansion → Vector → Group → Option Expansion
    put_predicate st v none = some st
    put_predicate st v (some (pstart, pend)) = do
      args ← read st.full.mem pstart (pend - pstart)
      captures ← capture_add_predicate st.captures st.capture_id args
      full ←
          substr_replace junk st.full.mem (some st.full.len) st.full.size v.end none (codes "(?C1)")
            (some 5)
      some (record st { full = full; captures = captures })

    -- A %{NAME} whose NAME has an expression.
    abbrev pub injected : Expansion → Vector → List ℕ → Table.Db T × Bool → Option Round
    injected st v regex (captures, false) = some (gives_up captures)
    injected st v regex (captures, true) = do
      before ← asserted st.full
      marked ← put_predicate (record st { full = before; captures = captures }) v v.predicate
      put ← put_group marked.full v.start v.end (capture_id_str st.capture_id) regex
      after ← asserted put
      some (
          goes_on
            (record marked { full = after; offset = v.start; capture_id = st.capture_id + 1 }))

    unfoldable pub inject : Expansion → Vector → List ℕ → Option Round
    inject st v regex = do
      longname ← substring st.full v.name
      subname ← substring st.full v.subname
      r ← capture_add X T st.captures (record capture_init {
        id = some st.capture_id;
        name = some longname;
        subname = some subname;
      })
      injected st v regex r

    -- A round that found a %{NAME}: a NAME with no expression is passed over.
    abbrev pub by_regex : Expansion → Vector → Option (List ℕ) → Option Round
    by_regex st v none = some (goes_on (record st { offset = v.end }))
    by_regex st v (some regex) = inject st v regex

    unfoldable pub expand_found : Database.Db B → Expansion → Vector → Option Round
    expand_found patterns st v = do
      patname ← substring st.full v.pattern
      by_regex st v (pattern_find B patterns patname).0

    unfoldable pub expand_loop : ℕ → Database.Db B → Expansion → Option Round
    expand_loop zero patterns st = none
    expand_loop (suc fuel) patterns st = do
      text ← read st.full.mem 0 st.full.len
      elim (exec text st.offset) [
        | none ↦ some (goes_on st)
        | some v ↦ (do
          round ← expand_found patterns st v
          elim round [
            | goes_on next ↦ expand_loop fuel patterns next
            | gives_up captures ↦ some (gives_up captures)
          ])
      ]

    abbrev pub expanded : Round → Option (Option Str × Table.Db T)
    unfolding unescape_percent
    expanded (gives_up captures) = some (none, captures)
    expanded (goes_on st) = do
      plain ← unescape_percent (st.full.len + 1) 0 st.full
      some (some plain, st.captures)

    -- The buffer with the text is given. The expansion's fuel is a parameter: patterns that name
    -- themselves are expanded without end.
    unfoldable pub pattern_expand :
        ℕ → Database.Db B → Table.Db T → Str → Option (Option Str × Table.Db T)
    pattern_expand fuel patterns captures full = do
      round ←
          expand_loop fuel patterns
            (record { full = full; offset = 0; capture_id = 0; captures = captures })
      expanded round
