-- ===== src/Grok/Expand/Groups.antt =====
-- One round of `grok_pattern_expand` on the buffer, tags/grok/20090928/grokre.c.

use semicomplete_googlecode.Common.{
  ℕ, zero, suc, ◌+◌, ◌-◌, ◌≤◌, ◌≡◌, refl, true, List, [], ◌∷◌, ◌++◌, append_assoc, arith, length,
  length-append, ◌∙◌, some, take, drop, none, codes, All-append, sym, length-take_le,
  take-append-drop, drop-drop, length-drop, drop-append_le, take-append_le, ◌==◌, take_all,
}
use semicomplete_googlecode.Grok.Buffer.Texts.{IsText, NotNul, strlen-append}
use semicomplete_googlecode.Grok.Buffer.{Str, read}
use semicomplete_googlecode.Grok.Buffer.Splice.{Yields}
use semicomplete_googlecode.Grok.Buffer.Blocks.{IsClosed, read_lem}
use semicomplete_googlecode.Grok.Escape.Pass.{At, At-move, replace_here}
use semicomplete_googlecode.Grok.Expand.{
  Vector, Group, InText, put_group, substring, asserted, capture_id_str, hex_char,
}
use semicomplete_googlecode.Grok.Expand.Rewrites.{slice, group_text, callout, group, replaced}
use semicomplete_googlecode.Grok.Expand.Percents.{insert_here}

pub asserted_lem : {s : Str} {xs : List ℕ} → IsClosed s xs → IsText xs → asserted s ≡ some s
unfolding asserted
asserted_lem {s} {xs} h text =
    let same : (length xs == s.len) ≡ true = ground (arith, h.counted) in
    rw (h.content, strlen-append xs h.rest text, same) refl

pub read-IsClosed :
    {s : Str} {xs : List ℕ} (i j : ℕ)
    → IsClosed s xs
    → i ≤ j
    → j ≤ length xs
    → read s.mem i (j - i) ≡ some (slice xs i j)
read-IsClosed {s} {xs} i j h order inside =
    rw
      (
        h.content,
        read_lem (xs ++ 0 ∷ h.rest) i (j - i) (omega (arith, length-append xs (0 ∷ h.rest))),
        drop-append_le i xs (0 ∷ h.rest) (omega arith),
        take-append_le (j - i) (drop i xs) (0 ∷ h.rest) (omega (arith, length-drop i xs)),
      )
      refl

pub read_text : {s : Str} {xs : List ℕ} → IsClosed s xs → read s.mem 0 s.len ≡ some xs
read_text {s} {xs} h =
    rw
      (
        h.content,
        h.counted,
        read_lem (xs ++ 0 ∷ h.rest) 0 (length xs) (omega (arith, length-append xs (0 ∷ h.rest))),
        take-append_le (length xs) xs (0 ∷ h.rest) (omega arith),
        take_all (length xs) xs (omega arith),
      )
      refl

pub substring_lem :
    {s : Str} {xs : List ℕ} (g : Group)
    → IsClosed s xs
    → InText g (length xs)
    → substring s g ≡ some (group_text xs g)
unfolding substring
substring_lem none h inside = refl
substring_lem (some (i, j)) h inside = read-IsClosed i j h inside.0 inside.1

All-take : (n : ℕ) (xs : List ℕ) → IsText xs → IsText (take n xs)
All-take zero xs h = tt
All-take (suc n) [] h = tt
All-take (suc n) (x ∷ xs) (hx, h) = (hx, All-take n xs h)

All-drop : (n : ℕ) (xs : List ℕ) → IsText xs → IsText (drop n xs)
All-drop zero xs h = h
All-drop (suc n) [] h = tt
All-drop (suc n) (x ∷ xs) (hx, h) = All-drop n xs h

hex_char-NotNul : (d : ℕ) → NotNul (hex_char d)
hex_char-NotNul d h = ground arith

capture_id_str-IsText : (id : ℕ) → IsText (capture_id_str id)
unfolding capture_id_str
capture_id_str-IsText id =
    (hex_char-NotNul _, (hex_char-NotNul _, (hex_char-NotNul _, (hex_char-NotNul _, tt))))

callout-IsText : (g : Group) → IsText (callout g)
callout-IsText none = tt
callout-IsText (some r) = ground arith

pub replaced-IsText :
    (xs : List ℕ) (v : Vector) (id : ℕ) (regex : List ℕ)
    → IsText xs
    → IsText regex
    → IsText (replaced xs v id regex)
replaced-IsText xs v id regex text expression =
    let post = callout v.predicate ++ drop v.end xs in
    let closing : IsText (b')' ∷ post) =
      (ground arith, All-append NotNul _ _ (callout-IsText v.predicate) (All-drop v.end xs text)) in
    All-append NotNul _ _ (All-take v.start xs text) (
      All-append NotNul (codes "(?<") _ (ground arith) (
        All-append NotNul _ _ (capture_id_str-IsText id)
          (ground arith, All-append NotNul regex _ expression closing)))

-- The text in front of the range, the range, and the text behind it.
pub three_parts : (xs : List ℕ) (i j : ℕ) → i ≤ j → xs ≡ take i xs ++ (slice xs i j ++ drop j xs)
three_parts xs i j order =
    let behind : slice xs i j ++ drop j xs ≡ drop i xs =
      rw (← drop-drop (j - i) i j xs (omega arith)) (take-append-drop (j - i) (drop i xs)) in
    rw behind (sym (take-append-drop i xs))

pub length-slice : (xs : List ℕ) (i j : ℕ) → j ≤ length xs → length (slice xs i j) ≡ j - i
length-slice xs i j inside = length-take_le (j - i) (drop i xs) (omega (arith, length-drop i xs))

module _ (junk : ℕ) where
  pub put_group_lem :
      (pre old post regex : List ℕ) (id start end : ℕ) {s : Str}
      → At s pre (old ++ post) start
      → end ≡ start + length old
      → Yields
          (put_group junk s start end (capture_id_str id) regex)
          (pre ++ group (capture_id_str id) regex post)
  unfolding put_group capture_id_str
  put_group_lem pre old post regex id start end {s} h e =
      let digits = capture_id_str id in
      let (s1, ran1, closed1) = replace_here junk pre old post (codes "(?<>)") start end h e in
      let at1 : At s1 pre (codes "(?<" ++ (codes ">)" ++ post)) start = record {
        closed = closed1;
        place = h.place;
      } in
      let inner1 = At-move (start + 3) pre (codes "(?<") (codes ">)" ++ post) at1 (omega arith) in
      let (s2, ran2, closed2) =
        insert_here junk (pre ++ codes "(?<") (codes ">)" ++ post) digits (start + 3) 4 inner1
          refl in
      let at2 : At s2 (pre ++ codes "(?<") ((digits ++ b'>' ∷ []) ++ b')' ∷ post) (start + 3) =
        record { closed = closed2; place = inner1.place } in
      let inner2 =
        At-move (start + 3 + 4 + 1) (pre ++ codes "(?<") (digits ++ b'>' ∷ []) (b')' ∷ post) at2
          (omega arith) in
      let (s3, ran3, closed3) =
        insert_here junk ((pre ++ codes "(?<") ++ (digits ++ b'>' ∷ [])) (b')' ∷ post) regex
          (start + 3 + 4 + 1) (length regex) inner2 refl in
      let text : ((pre ++ codes "(?<") ++ (digits ++ b'>' ∷ [])) ++ (regex ++ b')' ∷ post)
          ≡ pre ++ group digits regex post =
        append_assoc (pre ++ codes "(?<") (digits ++ b'>' ∷ []) (regex ++ b')' ∷ post)
        ∙ append_assoc pre (codes "(?<") ((digits ++ b'>' ∷ []) ++ (regex ++ b')' ∷ post)) in
      (s3, rw (ran1, ran2) ran3, rw text at closed3)
