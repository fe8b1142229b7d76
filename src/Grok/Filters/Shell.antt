-- ===== src/Grok/Filters/Shell.antt =====
-- The filters for the shell.
use mathlib.Core.List.{cons-ne-nil}
use semicomplete_googlecode.Common.{
  ℕ, ◌≡◌, refl, none, some, List, [], ◌∷◌, ◌++◌, arith, All, true, false, ◌==◌, if◌then◌else◌,
  length,
}
use semicomplete_googlecode.Grok.Buffer.{Str, strlen, len_or_strlen}
use semicomplete_googlecode.Grok.Buffer.Splice.{Yields}
use semicomplete_googlecode.Grok.Buffer.Blocks.{IsClosed}
use semicomplete_googlecode.Grok.Escape.{hits, same_char}
use semicomplete_googlecode.Grok.Escape.Backslashes.{
  escape_each, IsPrintable, string_escape_inserts, AreNew, insert_passes-backslash, insert_passes,
  StyleOfC, hits_other, insert_passes-distinct,
}
use semicomplete_googlecode.Grok.Escape.Checks.{
  all_new, all_printable, all_printable-All, all_new-AreNew,
}
use semicomplete_googlecode.Grok.Filters.{
  quote_chars, like_c_flag, filter_shelldqescape, shell_chars, filter_shellescape,
}
use semicomplete_googlecode.Grok.Escape.Pass.{insert_pass}

quote_print : All IsPrintable (b'\\' ∷ quote_chars)
unfolding all_printable
quote_print = all_printable-All (b'\\' ∷ quote_chars) refl

quote_new : AreNew (b'\\' ∷ []) quote_chars
unfolding all_new
quote_new = all_new-AreNew (b'\\' ∷ []) quote_chars refl

quote_counted : len_or_strlen none ((b'\\' ∷ quote_chars) ++ 0 ∷ []) ≡ some 4
unfolding len_or_strlen strlen
quote_counted = refl

c_style : StyleOfC like_c_flag
c_style = record { c_style = refl; printable_too = refl }

-- For a text in double quotes: exactly one backslash in front of each backslash, backquote, dollar
-- and double quote, and nothing else changes.
pub filter_shelldqescape_correct :
    (junk : ℕ) (s : Str) (xs : List ℕ)
    → IsClosed s xs
    → Yields (filter_shelldqescape junk s) (escape_each (b'\\' ∷ quote_chars) xs)
unfolding filter_shelldqescape
filter_shelldqescape_correct junk s xs h =
    rw (← insert_passes-backslash xs quote_chars quote_print.1 quote_new) (
      string_escape_inserts junk (b'\\' ∷ quote_chars) (0 ∷ []) none like_c_flag s xs h c_style
        quote_print quote_counted (cons-ne-nil _ _))

abbrev shell_set : List ℕ
shell_set = shell_chars ++ b'\\' ∷ []

shell_print : All IsPrintable shell_set
unfolding all_printable
shell_print = all_printable-All shell_set refl

shell_new : AreNew [] shell_chars
unfolding all_new
shell_new = all_new-AreNew [] shell_chars refl

shell_counted : len_or_strlen none (shell_set ++ 0 ∷ []) ≡ some (length shell_set)
unfolding len_or_strlen strlen
shell_counted = refl

filter_shellescape-passes :
    (junk : ℕ) (s : Str) (xs : List ℕ)
    → IsClosed s xs
    → Yields (filter_shellescape junk s) (insert_passes xs shell_set xs)
unfolding filter_shellescape
filter_shellescape-passes junk s xs h =
    string_escape_inserts junk shell_set (0 ∷ []) none like_c_flag s xs h c_style shell_print
      shell_counted (cons-ne-nil _ _)

-- The passes of a set with the backslash behind it.
insert_passes-last :
    (text cs acc : List ℕ)
    → insert_passes text (cs ++ b'\\' ∷ []) acc ≡ (
        if hits text b'\\'
        then insert_pass b'\\' (insert_passes text cs acc)
        else insert_passes text cs acc)
unfolding insert_passes
insert_passes-last text [] acc = ground arith
insert_passes-last text (c ∷ cs) acc =
    insert_passes-last text cs (if hits text c then insert_pass c acc else acc)

-- What the pass for the backslash makes of a text that is escaped: each backslash in front of a
-- special character is doubled, and so is each backslash of the text.
unfoldable pub escape_twice : List ℕ → List ℕ → List ℕ
escape_twice cs [] = []
escape_twice cs (x ∷ xs) =
    let rest = escape_twice cs xs in
    if hits cs x
    then b'\\' ∷ b'\\' ∷ x ∷ rest
    else if x == b'\\'
    then b'\\' ∷ b'\\' ∷ rest
    else x ∷ rest

insert_pass-escape_twice :
    (cs xs : List ℕ)
    → hits cs b'\\' ≡ false
    → insert_pass b'\\' (escape_each cs xs) ≡ escape_twice cs xs
unfolding insert_pass escape_each escape_twice same_char
insert_pass-escape_twice cs [] h = refl
insert_pass-escape_twice cs (x ∷ xs) h =
    ground (arith, insert_pass-escape_twice cs xs h, hits_other cs x b'\\' h)

shell_no_backslash : hits shell_chars b'\\' ≡ false
unfolding hits
shell_no_backslash = refl

-- `filter_shellescape` on a text with no backslash puts exactly one backslash in front of each special
-- character. On a text with a backslash it doubles each backslash of the text and puts two
-- backslashes in front of every other special character, which leaves that character unescaped.
pub filter_shellescape_behaviour :
    (junk : ℕ) (s : Str) (xs : List ℕ)
    → IsClosed s xs
    → Yields
        (filter_shellescape junk s)
        (if hits xs b'\\' then escape_twice shell_chars xs else escape_each shell_chars xs)
filter_shellescape_behaviour junk s xs h =
    rw
      (
        ← insert_pass-escape_twice shell_chars xs shell_no_backslash,
        ← insert_passes-distinct xs shell_chars (all_printable-All shell_chars printed) shell_new,
        ← insert_passes-last xs shell_chars xs,
      )
      (filter_shellescape-passes junk s xs h)
  where
    printed : all_printable shell_chars ≡ true
    printed = unfold all_printable in refl
