-- ===== src/Grok/Compile/Compiles.antt =====
-- A pattern is expanded, compiled and studied by `grok_compilen` of tags/grok/20090928/grokre.c.
use mathlib.Core.Path.{subst}
use semicomplete_googlecode.Common.{
  ℕ, zero, suc, ◌+◌, ◌*◌, ◌<◌, ◌≡◌, Option, some, List, [], ◌∷◌, Bool-cases, ◌==◌, ◌&&◌, inl, inr,
  get_elem?, All, sym, replicate, length-replicate, length, refl, ap, ◌∙◌, ◌++◌, arith,
  length-append, ◌≤◌,
}
use semicomplete_googlecode.Common.Int.{pos}
use semicomplete_googlecode.Grok.Buffer.Texts.{IsText, strlen-append}
use semicomplete_googlecode.Grok.Database.{Database}
use semicomplete_googlecode.Grok.Capture.{Xdr}
use semicomplete_googlecode.Grok.Capture.Tables.{Table}
use semicomplete_googlecode.Grok.Predicate.Choice.{Choice}
use semicomplete_googlecode.Grok.Expand.{Pcre}
use semicomplete_googlecode.Grok.Expand.Groups.{replaced-IsText, read_text}
use semicomplete_googlecode.Grok.Expand.Percents.{percents}
use semicomplete_googlecode.Grok.Expand.Rewrites.{
  Rewrites, finished, unknown, known, rounds, labels,
}
use semicomplete_googlecode.Grok.Compile.{Regexes, Grok, compilen, grok_ok}
use semicomplete_googlecode.Grok.Compile.Study.{IsEntry, Numbered, study_capture_map_numbers}
use semicomplete_googlecode.Grok.Expand.Captures.{Named, Unused, Distinct, Tame}
use semicomplete_googlecode.Grok.Expand.Refines.{pattern_expand_refines}
use semicomplete_googlecode.Grok.Buffer.Blocks.{IsClosed}
use semicomplete_googlecode.Grok.Buffer.{Str, strlen}
use semicomplete_googlecode.Grok.Expand.Examples.{expansion}

percents-IsText : (xs : List ℕ) → IsText xs → IsText (percents xs)
unfolding percents
percents-IsText [] h = tt
percents-IsText (c ∷ []) h = h
percents-IsText (c ∷ d ∷ cs) (hc, (hd, h)) = elim (Bool-cases (c == b'\\' && d == b'%')) [
  | inl pair ↦ rw pair (hd, percents-IsText cs h)
  | inr other ↦ rw other (hc, percents-IsText (d ∷ cs) (hd, h))
]

module _ {ℓ κ} {A : Type ℓ} (P : A → Type κ) where
  All-get_elem? : (xs : List A) (j : ℕ) (x : A) → All P xs → get_elem? xs j ≡ some x → P x
  All-get_elem? [] j x all h = cc
  All-get_elem? (y ∷ ys) zero x all h = let same : y ≡ x = cc in subst P same all.0
  All-get_elem? (y ∷ ys) (suc j) x all h = All-get_elem? ys j x all.1 h

-- The buffer that `grok_pattern_expand` makes of a pattern.
pattern-IsClosed :
    (xs : List ℕ)
    → IsClosed (record { mem = xs ++ 0 ∷ []; len = length xs; size = length xs + 1 }) xs
pattern-IsClosed xs = record {
  rest = [];
  content = refl;
  counted = refl;
  sized = omega (arith, length-append xs (0 ∷ []));
}

strlen-IsClosed : {s : Str} {xs : List ℕ} → IsClosed s xs → IsText xs → strlen s.mem ≡ some s.len
strlen-IsClosed {s} {xs} h text =
    ap strlen h.content ∙ strlen-append xs h.rest text ∙ ap (λ n. some n) (sym h.counted)

module _ (B : Database (List ℕ)) (P : Pcre) (patterns : Database.Db B)
    (texts : (name regex : List ℕ) → Database.get B patterns name ≡ some regex → IsText regex) where
  Rewrites-IsText :
      {xs ys : List ℕ} {offset id : ℕ} {names : List (ℕ × List ℕ)}
      → Rewrites B P patterns xs offset id names ys
      → IsText xs
      → IsText ys
  Rewrites-IsText (finished none_left same) h = rw same h
  Rewrites-IsText (unknown v found missing rest) h = Rewrites-IsText rest h
  Rewrites-IsText {xs = xs} {id = id} (known v regex found there rest) h =
      Rewrites-IsText rest (replaced-IsText xs v id regex h (texts _ regex there))

  module _ (junk stale : ℕ) (X : Xdr) (T : Table (Xdr.Bytes X)) (R : Regexes)
      (made : Choice → List ℕ → Option (List ℕ))
      (pointers : (c : Choice) (args extra : List ℕ)
        → made c args ≡ some extra
        → length extra ≤ 8) where
    -- Let a pattern rewrite to `ys` in fewer rounds than there is fuel, with expressions without a
    -- NUL. Let the names that get a number be at most 200000 bytes long with their subnames, and
    -- their subnames, where not empty, differ from each other and from those in the table, which
    -- has no numbered groups, no long texts and no subname twice. Let PCRE compile `ys` with each
    -- "\%" as "%", and let each entry of its name table have the id, below 65536, of a capture that
    -- the rewriting numbered and the number, below 32768, of a group, no two with one id or one
    -- group. Then `grok_compilen` meets no fault and returns `GROK_OK`. The expression is kept with a
    -- vector of three numbers for each group and for the match, and the capture of each entry is
    -- found by its id, has the name that the pattern gave it, and has the number of its group if the
    -- low byte of that is under 128, and else 256 less.
    pub compilen_correct :
        {xs ys : List ℕ} {names : List (ℕ × List ℕ)} (r : Rewrites B P patterns xs 0 0 names ys)
        (fuel : ℕ) (grok : Grok X T R) (re : Regexes.Regex R) (ids numbers : ℕ → ℕ)
        (named : ℕ → List ℕ)
        → rounds B P patterns r < fuel
        → IsText xs
        → Regexes.compile R (percents ys) ≡ some re
        → ((k : ℕ)
            → k < Regexes.name_count R re
            → IsEntry
                (Regexes.name_table R re)
                (k * Regexes.name_entry_size R re)
                (numbers k)
                (ids k))
        → ((j k : ℕ)
            → j < Regexes.name_count R re
            → k < Regexes.name_count R re
            → ids j ≡ ids k
            → j ≡ k)
        → ((j k : ℕ)
            → j < Regexes.name_count R re
            → k < Regexes.name_count R re
            → numbers j ≡ numbers k
            → j ≡ k)
        → ((k : ℕ)
            → k < Regexes.name_count R re
            → (j : ℕ) × (get_elem? names j ≡ some (ids k, named k)))
        → Tame X T grok.captures
        → Unused X T grok.captures (labels B P patterns r)
        → Distinct X T (labels B P patterns r)
        → (after : Grok X T R) × (compilen X T R junk stale B P made fuel patterns grok xs
            ≡ some (grok_ok, after))
          × (after.re ≡ some re)
          × (length after.pcre_capture_vector ≡ 3 * (Regexes.capture_count R re + 1))
          × ((k : ℕ)
              → k < Regexes.name_count R re
              → Numbered X T R after.captures (ids k) (named k) (numbers k))
    unfolding compilen
    compilen_correct {xs} {ys} {names} r fuel grok re ids numbers named enough text accepted entries
          distinct one_each there tame free apart =
        let (t, db, expansion, closed, all, still) =
          pattern_expand_refines junk B X T P made pointers patterns texts r fuel grok.captures _
            enough (pattern-IsClosed xs) text tame free apart in
        let clean = percents-IsText ys (Rewrites-IsText r text) in
        let (captures, studied, numbered, others) =
          study_capture_map_numbers X T R stale re db ids numbers named entries distinct one_each
            (λ k h. All-get_elem? (Named X T db) names _ _ all (there k h).1) still in
        (
          record {
            re = some re;
            full_pattern = some t;
            pcre_num_captures = Regexes.capture_count R re + 1;
            pcre_capture_vector = replicate (3 * (Regexes.capture_count R re + 1)) (pos 0);
            pcre_errno = grok.pcre_errno;
            captures = captures;
          },
          rw (expansion, strlen-IsClosed closed clean, read_text closed, accepted, studied) refl,
          refl,
          length-replicate _ _,
          numbered,
        )
