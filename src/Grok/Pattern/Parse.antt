-- ===== src/Grok/Pattern/Parse.antt =====
-- `_pattern_parse_string`: what it cuts a line into, and that it reads a written line back.
use semicomplete_googlecode.Common.{
  ℕ, ◌≡◌, refl, ap, ◌∙◌, ◌≢◌, inl, inr, true, false, List, [], ◌∷◌, ◌++◌, Bool-cases, All,
}
use semicomplete_googlecode.Grok.Pattern.{is_blank, skip_blanks, to_blank, parse_string}

abbrev pub IsBlank : ℕ → Type 0
IsBlank c = is_blank c ≡ true

abbrev pub IsNotBlank : ℕ → Type 0
IsNotBlank c = is_blank c ≡ false

-- Where a text does not begin with a blank.
abbrev pub StartsPlain : List ℕ → Type 0
StartsPlain [] = Unit
StartsPlain (c ∷ cs) = IsNotBlank c

skip_blanks-cut :
    (cs : List ℕ)
    → (ws : List ℕ) × (cs ≡ ws ++ skip_blanks cs) × All IsBlank ws × StartsPlain (skip_blanks cs)
unfolding skip_blanks
skip_blanks-cut [] = ([], refl, tt, tt)
skip_blanks-cut (c ∷ cs) = elim (Bool-cases (is_blank c)) [
  | inl blank ↦
      let (ws, e, h, p) = skip_blanks-cut cs in rw blank (c ∷ ws, ap (λ l. c ∷ l) e, (blank, h), p)
  | inr plain ↦ rw plain ([], refl, tt, plain)
]

to_blank-cut :
    (cs : List ℕ) → (cs ≡ (to_blank cs).0 ++ (to_blank cs).1) × All IsNotBlank (to_blank cs).0
unfolding to_blank
to_blank-cut [] = (refl, tt)
to_blank-cut (c ∷ cs) = elim (Bool-cases (is_blank c)) [
  | inl blank ↦ rw blank (refl, tt)
  | inr plain ↦ let (e, h) = to_blank-cut cs in rw plain (ap (λ l. c ∷ l) e, (plain, h))
]

-- Every line is blanks, the name, blanks and the expression in a row; the name has no blank, and the
-- expression does not begin with one.
pub parse_string_sound :
    (line : List ℕ)
    → (ws gap : List ℕ) × (line ≡ ws ++ ((parse_string line).0 ++ (gap ++ (parse_string line).1)))
      × All IsBlank ws
      × All IsBlank gap
      × All IsNotBlank (parse_string line).0
      × StartsPlain (parse_string line).1
unfolding parse_string
parse_string_sound line =
    let (ws, e, h, _) = skip_blanks-cut line in
    let (split, plain) = to_blank-cut (skip_blanks line) in
    let (gap, e', h', p) = skip_blanks-cut (to_blank (skip_blanks line)).1 in
    (
      ws,
      gap,
      e ∙ ap (λ l. ws ++ l) (split ∙ ap (λ l. (to_blank (skip_blanks line)).0 ++ l) e'),
      h,
      h',
      plain,
      p,
    )

pub skip_blanks-append :
    (ws cs : List ℕ) → All IsBlank ws → StartsPlain cs → skip_blanks (ws ++ cs) ≡ cs
unfolding skip_blanks
skip_blanks-append [] [] h p = refl
skip_blanks-append [] (c ∷ cs) h p = rw p
skip_blanks-append (w ∷ ws) cs (hw, h) p = rw hw (skip_blanks-append ws cs h p)

to_blank-append :
    (name : List ℕ) (b : ℕ) (rest : List ℕ)
    → All IsNotBlank name
    → IsBlank b
    → to_blank (name ++ b ∷ rest) ≡ (name, b ∷ rest)
unfolding to_blank
to_blank-append [] b rest h hb = rw hb
to_blank-append (c ∷ name) b rest (hc, h) hb = rw (hc, to_blank-append name b rest h hb)

-- A line that is written with blanks around a name and behind it is read back.
pub parse_string_complete :
    (ws name gap regexp : List ℕ) (b : ℕ)
    → All IsBlank ws
    → name ≢ []
    → All IsNotBlank name
    → IsBlank b
    → All IsBlank gap
    → StartsPlain regexp
    → parse_string (ws ++ (name ++ b ∷ (gap ++ regexp))) ≡ (name, regexp)
unfolding parse_string
parse_string_complete ws [] gap regexp b hw some_name hn hb hg hr = absurd (some_name refl)
parse_string_complete ws (c ∷ name) gap regexp b hw some_name hn hb hg hr =
    rw
      (
        skip_blanks-append ws (c ∷ name ++ b ∷ (gap ++ regexp)) hw hn.0,
        to_blank-append (c ∷ name) b (gap ++ regexp) hn hb,
        skip_blanks-append (b ∷ gap) regexp (hb, hg) hr,
      )
      refl
