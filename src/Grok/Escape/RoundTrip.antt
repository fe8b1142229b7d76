-- ===== src/Grok/Escape/RoundTrip.antt =====
-- `string_unescape`, and that it undoes the escape of double quotes.
use mathlib.Core.List.{cons-ne-nil}
use semicomplete_googlecode.Common.{
  ℕ, ◌+◌, ◌≡◌, refl, ap, ◌≢◌, inl, inr, false, some, List, [], ◌∷◌, arith, ◌==◌, Bool-cases, ◌>>=◌,
}
use semicomplete_googlecode.Grok.Buffer.{Str, len_or_strlen}
use semicomplete_googlecode.Grok.Escape.{
  hits, isprint, unescape_code, string_escape, string_unescape, like_c_only,
}
use semicomplete_googlecode.Grok.Escape.Backslashes.{
  insert_passes-distinct, escape_each, string_escape_inserts, insert_passes,
}
use semicomplete_googlecode.Grok.Buffer.Splice.{Yields}
use semicomplete_googlecode.Grok.Buffer.Blocks.{IsClosed}
use semicomplete_googlecode.Grok.Escape.Pass.{unescape_from-unescaped, unescaped}

-- `string_unescape` meets no fault on any text, and replaces each backslash with the known
-- character behind it, from left to right, by the one byte that the two stand for.
pub string_unescape_correct :
    (junk : ℕ) (s : Str) (xs : List ℕ)
    → IsClosed s xs
    → Yields (string_unescape junk s) (unescaped xs)
unfolding string_unescape
string_unescape_correct junk s xs h =
    unescape_from-unescaped junk (s.len + 1) 0 [] xs (record { closed = h; place = refl })
      (omega (arith, h.counted))

unescaped-plain : (x : ℕ) (xs : List ℕ) → x ≢ b'\\' → unescaped (x ∷ xs) ≡ x ∷ unescaped xs
unfolding unescaped
unescaped-plain x [] other = refl
unescaped-plain x (y ∷ ys) other = let plain : (x == b'\\') ≡ false = ground arith in rw plain

unescaped_quote : (xs : List ℕ) → unescaped (b'\\' ∷ b'"' ∷ xs) ≡ b'"' ∷ unescaped xs
unfolding unescaped unescape_code
unescaped_quote xs = refl

unescaped-escape_each :
    (xs : List ℕ) → hits xs b'\\' ≡ false → unescaped (escape_each (b'"' ∷ []) xs) ≡ xs
unfolding escape_each hits
unescaped-escape_each [] h = unfold unescaped in refl
unescaped-escape_each (x ∷ xs) h = elim (Bool-cases (b'"' == x)) [
  | inl quote ↦
      let e : x ≡ b'"' = ground arith in
      rw (quote, e, unescaped_quote (escape_each (b'"' ∷ []) xs))
        (ap (λ l. b'"' ∷ l) (unescaped-escape_each xs (ground arith)))
  | inr plain ↦
      rw (plain, unescaped-plain x (escape_each (b'"' ∷ []) xs) (ground arith))
        (ap (λ l. x ∷ l) (unescaped-escape_each xs (ground arith)))
]

-- On a text with no backslash `string_unescape` undoes a `string_escape` of the double quotes.
pub string_unescape-string_escape :
    (junk : ℕ) (s : Str) (xs : List ℕ)
    → IsClosed s xs
    → hits xs b'\\' ≡ false
    → Yields
        (do t ← string_escape junk (b'"' ∷ 0 ∷ []) (some 1) like_c_only s; string_unescape junk t)
        xs
string_unescape-string_escape junk s xs h clean =
    let (t, made, closed) =
      string_escape_inserts junk (b'"' ∷ []) (0 ∷ []) (some 1) like_c_only s xs h
        (record { c_style = refl; printable_too = refl }) (unfold isprint in (refl, tt))
        (unfold len_or_strlen in refl) (cons-ne-nil _ _) in
    let once : insert_passes xs (b'"' ∷ []) xs ≡ escape_each (b'"' ∷ []) xs =
      insert_passes-distinct xs (b'"' ∷ []) (unfold isprint in (refl, tt))
        (unfold hits in (omega arith, refl, tt)) in
    rw made (
      rw (unescaped-escape_each xs clean) at
        (string_unescape_correct junk t (escape_each (b'"' ∷ []) xs) (rw once at closed)))
