-- ===== src/Grok/Expand/Percents.antt =====
-- The last loop of `grok_pattern_expand` of tags/grok/20090928/grokre.c, as a function of the text,
-- and the edits at a position.
use semicomplete_googlecode.Common.{
  ℕ, ◌<◌, ◌≡◌, refl, ◌&&◌, List, [], ◌∷◌, ◌++◌, arith, if◌then◌else◌, length, length-append, ◌∙◌,
  some, take, take_all, none, ◌==◌, zero, suc, ◌+◌, inl, inr, false, ltb-false, lt→ltb, Bool-cases,
  get_elem?,
}
use semicomplete_googlecode.Grok.Buffer.{Str, substr_replace, len_or_strlen}
use semicomplete_googlecode.Grok.Buffer.Splice.{
  Yields, substr_replace_correct, splice-append, IsClosed-Holds, get_elem?-IsClosed,
}
use semicomplete_googlecode.Grok.Buffer.Blocks.{splice}
use semicomplete_googlecode.Grok.Escape.Pass.{At, At-len, get_elem?_end, At-move, Yields-move}
use semicomplete_googlecode.Grok.Expand.{unescape_at, unescape_percent}

-- Each "\%" becomes "%".
unfoldable pub percents : List ℕ → List ℕ
percents [] = []
percents (c ∷ []) = c ∷ []
percents (c ∷ d ∷ cs) =
    let kept = c ∷ percents (d ∷ cs) in
    let short = d ∷ percents cs in if c == b'\\' && d == b'%' then short else kept

-- New text at the position, and nothing is removed.
pub insert_here :
    (junk : ℕ) (pre xs new : List ℕ) (i n : ℕ) {s : Str}
    → At s pre xs i
    → n ≡ length new
    → Yields
        (substr_replace junk s.mem (some s.len) s.size i none new (some n))
        (pre ++ (new ++ xs))
unfolding len_or_strlen
insert_here junk pre xs new i n {s} h e =
    let all : take n new ≡ new = take_all n new (omega arith) in
    let text : splice (pre ++ xs) i i (take n new) ≡ pre ++ (new ++ xs) =
      splice-append pre xs (take n new) i i 0 h.place (omega arith) ∙ rw all refl in
    let (t, ran, closed) =
      substr_replace_correct junk i none new (some n) n (IsClosed-Holds h.closed) (omega arith)
        (omega (arith, h.place, length-append pre xs)) refl (omega arith) in
    (t, ran, rw text at closed)

-- One byte at the position is removed, by an empty string.
cut_here :
    (junk : ℕ) (pre : List ℕ) (c : ℕ) (xs : List ℕ) (i : ℕ) {s : Str}
    → At s pre (c ∷ xs) i
    → Yields
        (substr_replace junk s.mem (some s.len) s.size i (some (i + 1)) (0 ∷ []) (some 0))
        (pre ++ xs)
unfolding len_or_strlen
cut_here junk pre c xs i {s} h =
    let text : splice (pre ++ c ∷ xs) i (i + 1) [] ≡ pre ++ xs =
      splice-append pre (c ∷ xs) [] i (i + 1) 1 h.place refl in
    let (t, ran, closed) =
      substr_replace_correct junk i (some (i + 1)) (0 ∷ []) (some 0) 0 (IsClosed-Holds h.closed)
        (omega arith) (omega (arith, h.place, length-append pre (c ∷ xs))) refl (omega arith) in
    (t, ran, rw text at closed)

module _ (junk : ℕ) where
  byte_at :
      (c : ℕ) (pre xs : List ℕ) (i : ℕ) {s : Str} → At s pre (c ∷ xs) i → get_elem? s.mem i ≡ some c
  byte_at c pre xs i h = get_elem?-IsClosed pre c xs i h.closed h.place

  next_byte :
      (c d : ℕ) (pre xs : List ℕ) (i : ℕ) {s : Str}
      → At s pre (c ∷ d ∷ xs) i
      → get_elem? s.mem (i + 1) ≡ some d
  next_byte c d pre xs i h =
      byte_at d (pre ++ c ∷ []) xs (i + 1) (At-move (i + 1) pre (c ∷ []) (d ∷ xs) h (omega arith))

  last_byte :
      (c : ℕ) (pre : List ℕ) (i : ℕ) {s : Str}
      → At s pre (c ∷ []) i
      → get_elem? s.mem (i + 1) ≡ some 0
  last_byte c pre i h = get_elem?_end (At-move (i + 1) pre (c ∷ []) [] h (omega arith))

  pub unescape_percent_from :
      (fuel : ℕ) (pre xs : List ℕ) (i : ℕ) {s : Str}
      → At s pre xs i
      → length xs < fuel
      → Yields (unescape_percent junk fuel i s) (pre ++ percents xs)
  unfolding unescape_percent unescape_at percents
  unescape_percent_from zero pre xs i h lt = absurd (omega arith)
  unescape_percent_from (suc fuel) pre [] i {s} h lt =
      let stop = ltb-false i s.len (omega (arith, At-len h)) in rw stop (s, refl, h.closed)
  unescape_percent_from (suc fuel) pre (c ∷ []) i {s} h lt =
      let go = lt→ltb i s.len (omega (arith, At-len h)) in
      let kept : (c == b'\\' && 0 == b'%') ≡ false = ground arith in
      rw (go, byte_at c pre [] i h, last_byte c pre i h, kept)
        (Yields-move pre (c ∷ []) [] (
          unescape_percent_from fuel (pre ++ c ∷ []) [] (i + 1)
            (At-move (i + 1) pre (c ∷ []) [] h (omega arith)) (omega arith)))
  unescape_percent_from (suc fuel) pre (c ∷ d ∷ cs) i {s} h lt =
      let go = lt→ltb i s.len (omega (arith, At-len h)) in
      elim (Bool-cases (c == b'\\' && d == b'%')) [
        | inl pair ↦
            let (t, ran, closed) = cut_here junk pre c (d ∷ cs) i h in
            let at : At t pre (d ∷ cs) i = record { closed = closed; place = h.place } in
            rw (go, byte_at c pre (d ∷ cs) i h, next_byte c d pre cs i h, pair, ran)
              (Yields-move pre (d ∷ []) (percents cs) (
                unescape_percent_from fuel (pre ++ d ∷ []) cs (i + 1)
                  (At-move (i + 1) pre (d ∷ []) cs at (omega arith)) (omega arith)))
        | inr kept ↦
            rw (go, byte_at c pre (d ∷ cs) i h, next_byte c d pre cs i h, kept)
              (Yields-move pre (c ∷ []) (percents (d ∷ cs)) (
                unescape_percent_from fuel (pre ++ c ∷ []) (d ∷ cs) (i + 1)
                  (At-move (i + 1) pre (c ∷ []) (d ∷ cs) h (omega arith)) (omega arith)))
      ]
