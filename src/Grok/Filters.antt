-- ===== src/Grok/Filters.antt =====
-- The reaction filters of tags/grok/20090928/filters.gperf, over `string_escape`.
pub mod Shell
pub mod Json
pub mod Overrun
use semicomplete_googlecode.Common.{
  ℕ, ◌/◌, true, false, Option, none, some, List, [], ◌∷◌, ◌++◌, ◌>>=◌, codes,
}
use semicomplete_googlecode.Grok.Buffer.{Str}
use semicomplete_googlecode.Grok.Escape.{Options, string_escape}

-- `ESCAPE_LIKE_C`, and `ESCAPE_NONPRINTABLE | ESCAPE_UNICODE`.
abbrev pub like_c_flag : Options
like_c_flag = record { like_c = true; unicode = false; hex = false; nonprintable = false }

abbrev pub unicode_flags : Options
unicode_flags = record { like_c = false; unicode = true; hex = false; nonprintable = true }

-- The characters of each call, in the order of the source.
abbrev pub json_chars : List ℕ
json_chars = codes "\\\"/"

abbrev pub shell_chars : List ℕ
shell_chars = codes "`^()&{}[]$*?!|;'\""

abbrev pub quote_chars : List ℕ
quote_chars = codes "`$\""

module _ (junk : ℕ) where
  unfoldable pub filter_jsonencode : Str → Option Str
  filter_jsonencode s = do
    t ← string_escape junk (json_chars ++ 0 ∷ []) (some 3) like_c_flag s
    string_escape junk (0 ∷ []) (some 0) unicode_flags t

  -- The backslash stands last.
  unfoldable pub filter_shellescape : Str → Option Str
  filter_shellescape s =
      string_escape junk ((shell_chars ++ b'\\' ∷ []) ++ 0 ∷ []) none like_c_flag s

  -- The backslash stands first.
  unfoldable pub filter_shelldqescape : Str → Option Str
  filter_shelldqescape s = string_escape junk ((b'\\' ∷ quote_chars) ++ 0 ∷ []) none like_c_flag s
