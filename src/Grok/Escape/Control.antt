-- ===== src/Grok/Escape/Control.antt =====
-- `string_escape` in the style of C for one control character.
use semicomplete_googlecode.Common.{ℕ, ◌≡◌, true, some, List, [], ◌∷◌, arith, ◌+◌, refl}
use semicomplete_googlecode.Grok.Buffer.{Str, len_or_strlen}
use semicomplete_googlecode.Grok.Escape.{
  hits, replace, string_escape_like_c, string_escape, like_c_only, replacement, escape_chars,
}
use semicomplete_googlecode.Grok.Buffer.Blocks.{read_lem, IsClosed}
use semicomplete_googlecode.Grok.Escape.Replace.{Agrees, escape_char_replace, Agrees-pure}
use semicomplete_googlecode.Grok.Escape.Backslashes.{read_text}
use semicomplete_googlecode.Grok.Escape.Pass.{replace_pass}

-- The two bytes that stand for a control character.
abbrev pub LetterOf : ℕ → ℕ → Type 0
LetterOf c l = string_escape_like_c c ≡ (replace, b'\\' ∷ l ∷ [])

replacement-letter :
    (c l : ℕ) → LetterOf c l → replacement like_c_only c ≡ (replace, b'\\' ∷ l ∷ [])
unfolding replacement
replacement-letter c l letter = letter

-- For a control character with a letter the run leaves the backslash and the letter in its place,
-- and keeps the byte behind it unread: of two in a row the second is not escaped.
pub string_escape_control :
    (junk : ℕ) (s : Str) (c l : ℕ) (xs : List ℕ)
    → IsClosed s xs
    → LetterOf c l
    → hits xs c ≡ true
    → Agrees
        (string_escape junk (c ∷ 0 ∷ []) (some 1) like_c_only s)
        []
        (replace_pass c (b'\\' ∷ l ∷ []) 0 0 xs)
unfolding string_escape len_or_strlen
string_escape_control junk s c l xs h letter there =
    rw (read_text h, read_lem (c ∷ 0 ∷ []) 0 1 (omega arith))
      (unfold escape_chars in
        rw (there, replacement-letter c l letter)
          (Agrees-pure _ _ (
            escape_char_replace junk c b'\\' l [] (s.len + 1) 0 [] xs s
              (record { closed = h; place = refl }) (omega (arith, h.counted)))))
