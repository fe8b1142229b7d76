-- ===== src/Grok/Examples.antt =====
-- Concrete runs of the parts of grok, and the properties at concrete inputs.

use mathlib.Core.List.{cons-ne-nil}
use semicomplete_googlecode.Common.{
  ℕ, ◌+◌, ◌≡◌, refl, Option, none, some, List, [], ◌∷◌, ◌++◌, arith, ◌>>=◌, codes, length,
  length-append, take, if◌then◌else◌,
}
use semicomplete_googlecode.Grok.Buffer.{Str, substr_replace, read, write, len_or_strlen}
use semicomplete_googlecode.Grok.Buffer.Splice.{Yields, substr_replace_correct, IsClosed-Holds}
use semicomplete_googlecode.Grok.Buffer.Blocks.{IsClosed, splice}
use semicomplete_googlecode.Grok.Escape.{
  hits, like_c_only, isprint, string_escape_like_c, replacement, all_chars, escape_char,
  escape_chars, string_escape, string_unescape,
}
use semicomplete_googlecode.Grok.Escape.Backslashes.{
  escape_each, insert_passes, string_escape_inserts,
}
use semicomplete_googlecode.Grok.Filters.{
  filter_shelldqescape, filter_shellescape, quote_chars, shell_chars, unicode_flags,
}
use semicomplete_googlecode.Grok.Filters.Shell.{
  filter_shelldqescape_correct, escape_twice, filter_shellescape_behaviour,
}
use semicomplete_googlecode.Grok.Filters.Json.{string_escape-unicode_passes, unicode_passes}
use semicomplete_googlecode.Grok.Escape.RoundTrip.{
  string_unescape-string_escape, string_unescape_correct,
}
use semicomplete_googlecode.Grok.Escape.Control.{string_escape_control}
use semicomplete_googlecode.Grok.Escape.Pass.{unescaped, replace_pass}
use semicomplete_googlecode.Grok.Escape.Replace.{Agrees}
use semicomplete_googlecode.Grok.Filters.Overrun.{string_escape_overrun}

-- A string that fills its block.
abbrev buffer : List ℕ → Str
buffer xs = record { mem = xs ++ 0 ∷ []; len = length xs; size = length xs + 1 }

buffer-IsClosed : (xs : List ℕ) → IsClosed (buffer xs) xs
buffer-IsClosed xs = record {
  rest = [];
  content = refl;
  counted = refl;
  sized = omega (arith, length-append xs (0 ∷ []));
}

abbrev text_of : Option Str → Option (List ℕ)
text_of o = do t ← o; some (take t.len t.mem)

abbrev money : List ℕ
money = codes "a$b`c"

abbrev path : List ℕ
path = codes "a/b"

abbrev two_lines : List ℕ
two_lines = 10 ∷ 10 ∷ []

-- Two newlines in a row: the second is not escaped.
newlines :
    text_of (string_escape 0 [] (some 0) like_c_only (buffer two_lines))
    ≡ some (b'\\' ∷ b'n' ∷ 10 ∷ [])
unfolding string_escape escape_chars escape_char replacement hits all_chars substr_replace read
    write
newlines = refl

substr_replace_correct_example :
    (t : Str) × (substr_replace 0 (money ++ 0 ∷ []) (some 5) 6 1 (some 3) path (some 3) ≡ some t)
    × IsClosed t (splice money 1 3 (take 3 path))
substr_replace_correct_example =
    substr_replace_correct 0 {s = buffer money} {xs = money} 1 (some 3) path (some 3) 3
      (IsClosed-Holds (buffer-IsClosed money)) (omega arith) (omega arith)
      (unfold len_or_strlen in refl) (omega arith)

string_escape_inserts_example :
    Yields
      (string_escape 0 (b'$' ∷ 0 ∷ []) (some 1) like_c_only (buffer money))
      (insert_passes money (b'$' ∷ []) money)
string_escape_inserts_example =
    string_escape_inserts 0 (b'$' ∷ []) (0 ∷ []) (some 1) like_c_only (buffer money) money
      (buffer-IsClosed money) (record { c_style = refl; printable_too = refl })
      (unfold isprint in (refl, tt)) (unfold len_or_strlen in refl) (cons-ne-nil _ _)

string_unescape_correct_example :
    Yields (string_unescape 0 (buffer (b'\\' ∷ b'n' ∷ money))) (unescaped (b'\\' ∷ b'n' ∷ money))
string_unescape_correct_example =
    string_unescape_correct 0 (buffer (b'\\' ∷ b'n' ∷ money)) (b'\\' ∷ b'n' ∷ money)
      (buffer-IsClosed (b'\\' ∷ b'n' ∷ money))

abbrev quoted : List ℕ
quoted = codes "a\"b"

string_unescape-string_escape_example :
    Yields
      (do
        t ← string_escape 0 (b'"' ∷ 0 ∷ []) (some 1) like_c_only (buffer quoted)
        string_unescape 0 t)
      quoted
string_unescape-string_escape_example =
    string_unescape-string_escape 0 (buffer quoted) quoted (buffer-IsClosed quoted)
      (unfold hits in refl)

string_escape_control_example :
    Agrees
      (string_escape 0 (10 ∷ 0 ∷ []) (some 1) like_c_only (buffer two_lines))
      []
      (replace_pass 10 (b'\\' ∷ b'n' ∷ []) 0 0 two_lines)
string_escape_control_example =
    string_escape_control 0 (buffer two_lines) 10 b'n' two_lines (buffer-IsClosed two_lines)
      (unfold string_escape_like_c in refl) (unfold hits in refl)

filter_shelldqescape_correct_example :
    Yields (filter_shelldqescape 0 (buffer money)) (escape_each (b'\\' ∷ quote_chars) money)
filter_shelldqescape_correct_example =
    filter_shelldqescape_correct 0 (buffer money) money (buffer-IsClosed money)

filter_shellescape_behaviour_example :
    Yields
      (filter_shellescape 0 (buffer money))
      (if hits money b'\\' then escape_twice shell_chars money else escape_each shell_chars money)
filter_shellescape_behaviour_example =
    filter_shellescape_behaviour 0 (buffer money) money (buffer-IsClosed money)

string_escape-unicode_passes_example :
    Agrees
      (string_escape 0 (0 ∷ []) (some 0) unicode_flags (buffer two_lines))
      []
      (unicode_passes two_lines (all_chars 256 0) two_lines)
string_escape-unicode_passes_example =
    string_escape-unicode_passes 0 (buffer two_lines) two_lines (buffer-IsClosed two_lines)

string_escape_overrun_example :
    string_escape 0 (0 ∷ []) (some 0) unicode_flags (buffer (path ++ 10 ∷ path)) ≡ none
string_escape_overrun_example =
    string_escape_overrun 0 (buffer (path ++ 10 ∷ path)) 10 path path
      (buffer-IsClosed (path ++ 10 ∷ path)) (omega arith) (unfold isprint in refl)
      (unfold isprint in (refl, (refl, (refl, tt)))) (unfold isprint in (refl, (refl, (refl, tt))))
      (omega arith)
