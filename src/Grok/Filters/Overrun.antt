-- ===== src/Grok/Filters/Overrun.antt =====
-- Unprintable characters near the end of a text: `string_escape` replaces as many bytes as it puts
-- in, less one, where the character is a single byte.
use semicomplete_googlecode.Grok.Escape.Replace.{replace_pass-none}
use semicomplete_googlecode.Common.{
  ℕ, zero, suc, ◌+◌, ◌-◌, ◌≤◌, ◌<◌, ◌≡◌, refl, inl, inr, true, false, ◌||◌, none, List, [], ◌∷◌,
  ◌++◌, arith, Bool-cases, length, ap, ◌≢◌, some, All,
}
use semicomplete_googlecode.Grok.Escape.{all_chars, same_char, isprint, hits, string_escape}
use semicomplete_googlecode.Grok.Filters.Json.{
  unicode_passes, unicode_of, string_escape-unicode_passes, hits-printable,
}
use semicomplete_googlecode.Grok.Escape.Pass.{replace_pass}
use semicomplete_googlecode.Grok.Escape.Backslashes.{IsPrintable}
use semicomplete_googlecode.Grok.Buffer.Blocks.{IsClosed}
use semicomplete_googlecode.Grok.Filters.{unicode_flags}
use semicomplete_googlecode.Grok.Buffer.{Str}

replace_pass_overrun :
    (c : ℕ) (r pre post : List ℕ)
    → hits pre c ≡ false
    → c < 128
    → length post < length r - 2
    → replace_pass c r 0 0 (pre ++ c ∷ post) ≡ none
unfolding replace_pass hits same_char
replace_pass_overrun c r [] post new small short =
    ground (arith, replace_pass-none c r (length r - 2) 1 post short)
replace_pass_overrun c r (x ∷ pre) post new small short =
    ground (arith, replace_pass_overrun c r pre post)

hits-all_chars : (n k c : ℕ) → k ≤ c → c < k + n → hits (all_chars n k) c ≡ true
unfolding hits all_chars
hits-all_chars zero k c low high = absurd (omega arith)
hits-all_chars (suc n) k c low high = ground (arith, hits-all_chars n (k + 1) c)

hits-append : (xs ys : List ℕ) (c : ℕ) → hits (xs ++ ys) c ≡ (hits xs c || hits ys c)
unfolding hits
hits-append [] ys c = refl
hits-append (x ∷ xs) ys c = ground (arith, hits-append xs ys c)

-- One unprintable character whose pass fails makes the run fail.
unicode_passes-none :
    (text cs : List ℕ) (c : ℕ)
    → ((d : ℕ) → hits text d ≡ true → isprint d ≡ false → d ≡ c)
    → hits text c ≡ true
    → isprint c ≡ false
    → replace_pass c (unicode_of c) 0 0 text ≡ none
    → hits cs c ≡ true
    → unicode_passes text cs text ≡ none
unfolding unicode_passes hits
unicode_passes-none text [] c only there unprintable fails h = cc
unicode_passes-none text (d ∷ cs) c only there unprintable fails h =
    let later = λ (differ : d ≢ c).
      unicode_passes-none text cs c only there unprintable fails (ground arith) in
    elim (Bool-cases (hits text d)) [
      | inr absent ↦ rw absent (later (λ e. cc (ap (hits text) e)))
      | inl hit ↦ elim (Bool-cases (isprint d)) [
        | inl print ↦ rw (hit, print) (later (λ e. cc (ap isprint e)))
        | inr other ↦
            let e : d ≡ c = only d hit other in
            let fails_too : replace_pass d (unicode_of d) 0 0 text ≡ none = rw e fails in
            rw (hit, other, fails_too) refl
      ]
    ]

module _ (c : ℕ) (pre post : List ℕ) (unprintable : isprint c ≡ false)
    (before : All IsPrintable pre) (behind : All IsPrintable post) where
  hits_only : (d : ℕ) → hits (pre ++ c ∷ post) d ≡ true → isprint d ≡ false → d ≡ c
  hits_only d hit other = elim (Bool-cases (hits pre d)) [
    | inl early ↦ cc (hits-printable pre d before early)
    | inr late ↦ elim (Bool-cases (hits post d)) [
      | inl last ↦ cc (hits-printable post d behind last)
      | inr none_last ↦ unfold hits in ground (arith, hits-append pre (c ∷ post) d)
    ]
  ]

  hits_there : hits (pre ++ c ∷ post) c ≡ true
  hits_there = unfold hits in ground (arith, hits-append pre (c ∷ post) c)

  hits_new : hits pre c ≡ false
  hits_new = elim (Bool-cases (hits pre c)) [
    | inl early ↦ cc (hits-printable pre c before early)
    | inr new ↦ new
  ]

-- `string_escape` with the flags of `filter_jsonencode` reaches a negative count for `memmove`,
-- a fault, on each text of printable characters with one unprintable character of ASCII that has
-- fewer than four characters behind it.
pub string_escape_overrun :
    (junk : ℕ) (s : Str) (c : ℕ) (pre post : List ℕ)
    → IsClosed s (pre ++ c ∷ post)
    → c < 128
    → isprint c ≡ false
    → All IsPrintable pre
    → All IsPrintable post
    → length post < 4
    → string_escape junk (0 ∷ []) (some 0) unicode_flags s ≡ none
string_escape_overrun junk s c pre post h small unprintable before behind short =
    rw fails at (string_escape-unicode_passes junk s (pre ++ c ∷ post) h)
  where
    fails : unicode_passes (pre ++ c ∷ post) (all_chars 256 0) (pre ++ c ∷ post) ≡ none
    fails =
        unicode_passes-none (pre ++ c ∷ post) (all_chars 256 0) c
          (hits_only c pre post unprintable before behind)
          (hits_there c pre post unprintable before behind) unprintable
          (replace_pass_overrun c (unicode_of c) pre post
            (hits_new c pre post unprintable before behind) small (omega arith))
          (hits-all_chars 256 0 c (omega arith) (omega arith))
