-- ===== src/Grok/Escape.antt =====
-- Escaping and unescaping of tags/grok/20090928/stringhelper.c: `string_escape`, its three
-- replacement functions, and `string_unescape`, as loops over a string buffer.
pub mod Pass
pub mod Replace
pub mod Backslashes
pub mod Checks
pub mod RoundTrip
pub mod Control
use semicomplete_googlecode.Common.{
  ℕ, zero, suc, ◌+◌, ◌-◌, ◌/◌, ◌%◌, Bool, true, false, not, ◌&&◌, ◌||◌, Option, none, some, List,
  [], ◌∷◌, ltb, leb, ◌==◌, if◌then◌else◌, ◌>>=◌, length, get_elem?,
}
use semicomplete_googlecode.Grok.Buffer.{Str, read, len_or_strlen, substr_replace}

-- The bits of `options`.
pub record Options : Type 0 where
  pub like_c : Bool
  pub unicode : Bool
  pub hex : Bool
  pub nonprintable : Bool

-- `ESCAPE_INSERT` and `ESCAPE_REPLACE`.
pub data Op : Type 0 where
  insert replace : Op

-- `isprint` in the C locale.
unfoldable pub isprint : ℕ → Bool
isprint c = leb 32 c && leb c 126

-- `(*strp)[j] != c` compares a signed char with an unsigned one: a byte over 127 equals none.
unfoldable pub same_char : ℕ → ℕ → Bool
same_char x c = x == c && ltb x 128

-- A digit of `%x`.
unfoldable pub hex_digit : ℕ → ℕ
hex_digit d = if ltb d 10 then b'0' + d else b'a' + (d - 10)

unfoldable pub string_escape_like_c : ℕ → Op × List ℕ
unfolding isprint
string_escape_like_c c = if isprint c then (insert, b'\\' ∷ []) else (
  replace,
  if c == 10
      then b'\\' ∷ b'n' ∷ []
      else if c == 13
      then b'\\' ∷ b'r' ∷ []
      else if c == 8
      then b'\\' ∷ b'b' ∷ []
      else if c == 12
      then b'\\' ∷ b'f' ∷ []
      else if c == 9
      then b'\\' ∷ b't' ∷ []
      else if c == 7
      then b'\\' ∷ b'a' ∷ []
      else [],
)

-- `sprintf(replstr, "\\x%x", c)`: no padding.
unfoldable pub string_escape_hex : ℕ → Op × List ℕ
unfolding hex_digit
string_escape_hex c = (
  replace,
  if ltb c 16
      then b'\\' ∷ b'x' ∷ hex_digit c ∷ []
      else b'\\' ∷ b'x' ∷ hex_digit (c / 16) ∷ hex_digit (c % 16) ∷ [],
)

-- A printable character leaves the operation and the replacement as they are.
unfoldable pub string_escape_unicode : ℕ → Op × List ℕ → Op × List ℕ
unfolding isprint hex_digit
string_escape_unicode c was =
    if isprint c
    then was
    else (replace, b'\\' ∷ b'u' ∷ b'0' ∷ b'0' ∷ hex_digit (c / 16) ∷ hex_digit (c % 16) ∷ [])

-- The next function is asked while no replacement has been found.
abbrev pub or_try : Bool → Op × List ℕ → (Op × List ℕ → Op × List ℕ) → Op × List ℕ
or_try false was next = was
or_try true (op, []) next = next (op, [])
or_try true (op, c ∷ cs) next = (op, c ∷ cs)

unfoldable pub replacement : Options → ℕ → Op × List ℕ
unfolding string_escape_like_c string_escape_hex string_escape_unicode
replacement o c =
    or_try o.hex
      (or_try o.unicode (or_try o.like_c (replace, []) (λ _. string_escape_like_c c))
        (string_escape_unicode c))
      (λ _. string_escape_hex c)

-- `hits[c]`.
unfoldable pub hits : List ℕ → ℕ → Bool
hits [] c = false
hits (x ∷ xs) c = x == c || hits xs c

unfoldable pub all_chars : ℕ → ℕ → List ℕ
all_chars zero c = []
all_chars (suc n) c = c ∷ all_chars n (c + 1)

-- The character that `\c` stands for.
unfoldable pub unescape_code : ℕ → Option ℕ
unescape_code c =
    if c == b't'
    then some 9
    else if c == b'n'
    then some 10
    else if c == b'b'
    then some 8
    else if c == b'r'
    then some 13
    else if c == b'a'
    then some 7
    else if c == b'f'
    then some 12
    else if c == b'v'
    then some 11
    else if c == b'"'
    then some b'"'
    else none

module _ (junk : ℕ) where
  unfoldable pub edit : Op → ℕ → List ℕ → Str → Option Str
  edit insert j r s = substr_replace junk s.mem (some s.len) s.size j (some j) r (some (length r))
  edit replace j r s =
      substr_replace junk s.mem (some s.len) s.size j (some (j + length r - 1)) r (some (length r))

  unfoldable pub edit_if : Op × List ℕ → ℕ → Str → Option Str
  unfolding edit
  edit_if (op, []) j s = some s
  edit_if (op, c ∷ cs) j s = edit op j (c ∷ cs) s

  -- The loop over `j`; each round brings `j` nearer to the end of the string.
  unfoldable pub escape_char : ℕ → ℕ → Op × List ℕ → ℕ → Str → Option Str
  unfolding edit_if same_char
  escape_char zero c r j s = none
  escape_char (suc fuel) c r j s =
      let skip = escape_char fuel c r (j + 1) s in
      let step = (do t ← edit_if r j s; escape_char fuel c r (j + length r.1 + 1) t) in
      if ltb j s.len
      then (do x ← get_elem? s.mem j; if same_char x c then step else skip)
      else some s

  -- The loop over `chars`.
  unfoldable pub escape_chars : Options → (ℕ → Bool) → List ℕ → Str → Option Str
  escape_chars o hit [] s = some s
  escape_chars o hit (c ∷ cs) s =
      let skip = escape_chars o hit cs s in
      let pass = (do
        t ← escape_char (s.len + 1) c (replacement o c) 0 s
        escape_chars o hit cs t) in
      if not (hit c) then skip else if o.nonprintable && isprint c then skip else pass

  unfoldable pub string_escape : List ℕ → Option ℕ → Options → Str → Option Str
  string_escape chars chars_len o s = do
    n ← len_or_strlen chars_len chars
    text ← read s.mem 0 s.len
    wanted ← if n == 0 then some (all_chars 256 0) else read chars 0 n
    escape_chars o (hits text) wanted s

  unfoldable pub unescape_edit : Option ℕ → ℕ → Str → Option Str
  unescape_edit none i s = some s
  unescape_edit (some r) i s =
      substr_replace junk s.mem (some s.len) s.size i (some (i + 2)) (r ∷ []) (some 1)

  unfoldable pub unescape_from : ℕ → ℕ → Str → Option Str
  unfolding unescape_code unescape_edit
  unescape_from zero i s = none
  unescape_from (suc fuel) i s =
      let skip = unescape_from fuel (i + 1) s in
      let step = (do
        y ← get_elem? s.mem (i + 1)
        t ← unescape_edit (unescape_code y) i s
        unescape_from fuel (i + 1) t) in
      if ltb i s.len then (do x ← get_elem? s.mem i; if x == b'\\' then step else skip) else some s

  unfoldable pub string_unescape : Str → Option Str
  unfolding unescape_from
  string_unescape s = unescape_from (s.len + 1) 0 s

abbrev pub like_c_only : Options
like_c_only = record { like_c = true; unicode = false; hex = false; nonprintable = false }
