-- ===== src/Grok/Filters/Json.antt =====
-- The filter for JSON, and the escape of unprintable characters that it ends with.
use mathlib.Core.List.{cons-ne-nil}
use semicomplete_googlecode.Common.{
  ℕ, ◌+◌, ◌≡◌, refl, inl, inr, false, not, Option, some, List, [], ◌∷◌, arith, if◌then◌else◌,
  Bool-cases, ◌>>=◌, ◌/◌, ◌%◌, true, ◌==◌, All,
}
use semicomplete_googlecode.Grok.Buffer.{Str, len_or_strlen}
use semicomplete_googlecode.Grok.Escape.{
  replace, isprint, replacement, hits, all_chars, escape_char, escape_chars, string_escape,
  hex_digit,
}
use semicomplete_googlecode.Grok.Escape.Pass.{replace_pass}
use semicomplete_googlecode.Grok.Buffer.Splice.{Yields}
use semicomplete_googlecode.Grok.Buffer.Blocks.{IsClosed}
use semicomplete_googlecode.Grok.Escape.Backslashes.{
  read_text, IsPrintable, string_escape_inserts, escape_each, AreNew, insert_passes-backslash,
}
use semicomplete_googlecode.Grok.Escape.Replace.{Agrees, escape_char_replace, Agrees-bind}
use semicomplete_googlecode.Grok.Filters.{unicode_flags, like_c_flag, json_chars, filter_jsonencode}
use semicomplete_googlecode.Grok.Escape.Checks.{
  all_printable-All, all_printable, all_new, all_new-AreNew,
}

-- `\u00XX`.
abbrev pub unicode_of : ℕ → List ℕ
unicode_of c = b'\\' ∷ b'u' ∷ b'0' ∷ b'0' ∷ hex_digit (c / 16) ∷ hex_digit (c % 16) ∷ []

-- One pass for each unprintable character that the first text has.
unfoldable pub unicode_passes : List ℕ → List ℕ → List ℕ → Option (List ℕ)
unicode_passes text [] acc = some acc
unicode_passes text (c ∷ cs) acc =
    let pass = (do ys ← replace_pass c (unicode_of c) 0 0 acc; unicode_passes text cs ys) in
    let skip = unicode_passes text cs acc in
    if not (hits text c) then skip else if isprint c then skip else pass

pub replacement-unicode :
    (c : ℕ) → isprint c ≡ false → replacement unicode_flags c ≡ (replace, unicode_of c)
unfolding replacement
replacement-unicode c h = rw h

-- One pass of the loop over the characters, as a run on the buffer.
escape_char_unicode :
    (junk c : ℕ) (xs : List ℕ) (s : Str)
    → IsClosed s xs
    → isprint c ≡ false
    → Agrees
        (escape_char junk (s.len + 1) c (replacement unicode_flags c) 0 s)
        []
        (replace_pass c (unicode_of c) 0 0 xs)
escape_char_unicode junk c xs s h unprintable = rw (replacement-unicode c unprintable) (
    escape_char_replace junk c b'\\' b'u'
      (b'0' ∷ b'0' ∷ hex_digit (c / 16) ∷ hex_digit (c % 16) ∷ []) (s.len + 1) 0 [] xs s
      (record { closed = h; place = refl }) (omega (arith, h.counted)))

escape_chars_unicode :
    (junk : ℕ) (text cs xs : List ℕ) (s : Str)
    → IsClosed s xs
    → Agrees (escape_chars junk unicode_flags (hits text) cs s) [] (unicode_passes text cs xs)
unfolding escape_chars unicode_passes
escape_chars_unicode junk text [] xs s h = (s, refl, h)
escape_chars_unicode junk text (c ∷ cs) xs s h = elim (Bool-cases (hits text c)) [
  | inr absent ↦ rw absent (escape_chars_unicode junk text cs xs s h)
  | inl there ↦ elim (Bool-cases (isprint c)) [
    | inl print ↦ rw (there, print) (escape_chars_unicode junk text cs xs s h)
    | inr unprintable ↦
        rw (there, unprintable)
          (Agrees-bind _ _ _ _ (escape_char_unicode junk c xs s h unprintable)
            (λ t ys closed. escape_chars_unicode junk text cs ys t closed))
  ]
]

-- `string_escape` with no characters and the flags of `filter_jsonencode`: for each unprintable
-- character of the text in turn the pass that replaces it, a fault where that pass has one.
pub string_escape-unicode_passes :
    (junk : ℕ) (s : Str) (xs : List ℕ)
    → IsClosed s xs
    → Agrees
        (string_escape junk (0 ∷ []) (some 0) unicode_flags s)
        []
        (unicode_passes xs (all_chars 256 0) xs)
unfolding string_escape len_or_strlen
string_escape-unicode_passes junk s xs h =
    rw (read_text h) (escape_chars_unicode junk xs (all_chars 256 0) xs s h)

pub hits-printable :
    (xs : List ℕ) (c : ℕ) → All IsPrintable xs → hits xs c ≡ true → isprint c ≡ true
unfolding hits
hits-printable [] c h there = cc
hits-printable (x ∷ xs) c (p, h) there = elim (Bool-cases (x == c)) [
  | inl same ↦ let e : x ≡ c = ground arith in rw e at p
  | inr other ↦ hits-printable xs c h (rw other at there)
]

unicode_passes-printable : (xs cs : List ℕ) → All IsPrintable xs → unicode_passes xs cs xs ≡ some xs
unfolding unicode_passes
unicode_passes-printable xs [] h = refl
unicode_passes-printable xs (c ∷ cs) h = elim (Bool-cases (hits xs c)) [
  | inr absent ↦ rw absent (unicode_passes-printable xs cs h)
  | inl there ↦ rw (there, hits-printable xs c h there) (unicode_passes-printable xs cs h)
]

escape_each-IsPrintable :
    (cs xs : List ℕ) → All IsPrintable xs → All IsPrintable (escape_each cs xs)
unfolding escape_each
escape_each-IsPrintable cs [] h = tt
escape_each-IsPrintable cs (x ∷ xs) (p, h) = elim (Bool-cases (hits cs x)) [
  | inl special ↦ rw special (unfold isprint in refl, (p, escape_each-IsPrintable cs xs h))
  | inr plain ↦ rw plain (p, escape_each-IsPrintable cs xs h)
]

json_print : All IsPrintable json_chars
unfolding all_printable
json_print = all_printable-All json_chars refl

json_new : AreNew (b'\\' ∷ []) (b'"' ∷ b'/' ∷ [])
unfolding all_new
json_new = all_new-AreNew (b'\\' ∷ []) (b'"' ∷ b'/' ∷ []) refl

-- `filter_jsonencode` on a text of printable characters puts exactly one backslash in front of each
-- backslash, double quote and slash, and changes nothing else.
pub filter_jsonencode_printable :
    (junk : ℕ) (s : Str) (xs : List ℕ)
    → IsClosed s xs
    → All IsPrintable xs
    → Yields (filter_jsonencode junk s) (escape_each json_chars xs)
unfolding filter_jsonencode
filter_jsonencode_printable junk s xs h print =
    let (t, made, closed) =
      string_escape_inserts junk json_chars (0 ∷ []) (some 3) like_c_flag s xs h
        (record { c_style = refl; printable_too = refl }) json_print (unfold len_or_strlen in refl)
        (cons-ne-nil _ _) in
    let once = insert_passes-backslash xs (b'"' ∷ b'/' ∷ []) json_print.1 json_new in
    let clean =
      unicode_passes-printable (escape_each json_chars xs) (all_chars 256 0)
        (escape_each-IsPrintable json_chars xs print) in
    rw made (
      rw clean at
        (string_escape-unicode_passes junk t (escape_each json_chars xs) (rw once at closed)))
