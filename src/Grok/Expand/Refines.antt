-- ===== src/Grok/Expand/Refines.antt =====
-- `grok_pattern_expand` of tags/grok/20090928/grokre.c follows the rewriting: its buffer holds the
-- text at each round, and its captures are numbered as the groups are.
use semicomplete_googlecode.Common.{
  ℕ, ◌+◌, ◌<◌, ◌≡◌, refl, List, arith, ◌∙◌, Option, some, none, All, zero, suc, ap, [], ◌∷◌, ◌≤◌,
  inl, inr, length,
}
use semicomplete_googlecode.Grok.Buffer.Texts.{IsText}
use semicomplete_googlecode.Grok.Buffer.{Str}
use semicomplete_googlecode.Grok.Buffer.Blocks.{IsClosed}
use semicomplete_googlecode.Grok.Database.{Database}
use semicomplete_googlecode.Grok.Capture.{Xdr}
use semicomplete_googlecode.Grok.Capture.Tables.{Table}
use semicomplete_googlecode.Grok.Predicate.Choice.{Choice}
use semicomplete_googlecode.Grok.Expand.{
  Vector, Pcre, Expansion, inject, expand_loop, expand_found, substring, by_regex, pattern_expand,
  goes_on, expanded,
}
use semicomplete_googlecode.Grok.Expand.Captures.{Named, Keeps, Unused, Distinct, Tame, Added}
use semicomplete_googlecode.Grok.Expand.Rewrites.{
  Rewrites, rounds, group_text, replaced, finished, unknown, known, labels,
}
use semicomplete_googlecode.Grok.Expand.Percents.{percents, unescape_percent_from}
use semicomplete_googlecode.Grok.Expand.Groups.{substring_lem, read_text, replaced-IsText}
use semicomplete_googlecode.Grok.Pattern.{pattern_find, answer}
use semicomplete_googlecode.Grok.Expand.Rounds.{inject_lem, Injected}

module _ (junk : ℕ) (B : Database (List ℕ)) (X : Xdr) (T : Table (Xdr.Bytes X)) (P : Pcre)
    (made : Choice → List ℕ → Option (List ℕ))
    (pointers : (c : Choice) (args extra : List ℕ)
      → made c args ≡ some extra
      → length extra ≤ 8) where
  -- What the rounds of a rewriting lead to.
  record Expanded (before : Table.Db T) (id : ℕ) (names : List (ℕ × List ℕ)) (ys : List ℕ)
      (st : Expansion junk B X T P made) : Type 0 where
    text : IsClosed st.full ys
    listed : All (Named X T st.captures) names
    kept : Keeps X T before st.captures id
    tame : Tame X T st.captures

  module _ (patterns : Database.Db B)
      (texts : (name regex : List ℕ)
        → Database.get B patterns name ≡ some regex
        → IsText regex) where
    -- A round, by what the table has for the name.
    found_unknown :
        (st : Expansion junk B X T P made) (v : Vector) (name : List ℕ)
        → substring st.full v.pattern ≡ some name
        → Database.get B patterns name ≡ none
        → expand_found junk B X T P made patterns st v
          ≡ some (goes_on (record st { offset = v.end }))
    unfolding expand_found pattern_find
    found_unknown st v name named missing =
        let absent : (pattern_find B patterns name).0 ≡ none = ap (λ o. (answer o).0) missing in
        rw named (ap (by_regex junk B X T P made st v) absent)

    found_known :
        (st : Expansion junk B X T P made) (v : Vector) (name regex : List ℕ)
        → substring st.full v.pattern ≡ some name
        → Database.get B patterns name ≡ some regex
        → expand_found junk B X T P made patterns st v ≡ inject junk B X T P made st v regex
    unfolding expand_found pattern_find
    found_known st v name regex named there =
        let present : (pattern_find B patterns name).0 ≡ some regex =
          ap (λ o. (answer o).0) there in
        rw named (ap (by_regex junk B X T P made st v) present)

    -- The rounds behind a known name, with the round of that name.
    Injected-Expanded :
        {xs ys : List ℕ} {names : List (ℕ × List ℕ)} (st next st' : Expansion junk B X T P made)
        (id : ℕ) (v : Vector) (regex : List ℕ)
        → Injected junk B X T P made pointers st next xs v regex
        → st.capture_id ≡ id
        → Expanded next.captures (id + 1) names ys st'
        → Expanded st.captures id ((id, group_text xs v.name) ∷ names) ys st'
    Injected-Expanded st next st' id v regex p at_id e =
        let (gct, named, has_id, has_name) = p.added.named in
        record {
          text = e.text;
          listed = (
            (gct, e.kept id (omega arith) ∙ rw (← at_id) named, rw (← at_id) has_id, has_name),
            e.listed,
          );
          kept = λ k less. e.kept k (omega arith) ∙ p.added.kept k (omega (arith, at_id));
          tame = e.tame;
        }

    Added-Unused :
        (before after : Table.Db T) (id : ℕ) (name sub : List ℕ) (others : List (List ℕ × List ℕ))
        → Added X T before after id name sub
        → Unused X T before ((name, sub) ∷ others)
        → Distinct X T ((name, sub) ∷ others)
        → Unused X T after others
    Added-Unused before after id name sub others a unused distinct other u there =
        elim (a.records other u there) [
          | inl (_, e) ↦ rw e distinct.1
          | inr old ↦ (unused other u old).1
        ]

    expand_loop_lem :
        {xs ys : List ℕ} {offset id : ℕ} {names : List (ℕ × List ℕ)}
        (r : Rewrites B P patterns xs offset id names ys) (fuel : ℕ)
        (st : Expansion junk B X T P made)
        → rounds B P patterns r < fuel
        → IsClosed st.full xs
        → IsText xs
        → st.offset ≡ offset
        → st.capture_id ≡ id
        → Tame X T st.captures
        → Unused X T st.captures (labels B P patterns r)
        → Distinct X T (labels B P patterns r)
        → (st' : Expansion junk B X T P made) × (expand_loop junk B X T P made fuel patterns st
            ≡ some (goes_on st'))
          × Expanded st.captures id names ys st'
    unfolding expand_loop rounds labels
    expand_loop_lem r zero st lt h text at_offset at_id tame unused distinct = absurd (omega arith)
    expand_loop_lem (finished none_left same) (suc fuel) st lt h text at_offset at_id tame unused
          distinct =
        let nothing : Pcre.exec P _ st.offset ≡ none = ap (Pcre.exec P _) at_offset ∙ none_left in
        (
          st,
          rw (read_text h, nothing) refl,
          record { text = rw same h; listed = tt; kept = λ k lt. refl; tame = tame },
        )
    expand_loop_lem {xs} {ys} {offset} {id} {names} (unknown v found missing rest) (suc fuel) st lt
          h text at_offset at_id tame unused distinct =
        let inside = Pcre.exec-IsInside P xs _ v found in
        let here : Pcre.exec P xs st.offset ≡ some v = ap (Pcre.exec P xs) at_offset ∙ found in
        let (st', ran, e) =
          expand_loop_lem {xs = xs} {offset = v.end} {id = id} rest fuel
            (record st { offset = v.end }) (omega arith) h text refl at_id tame unused distinct in
        (
          st',
          rw
              (
                read_text h,
                here,
                found_unknown st v _ (substring_lem v.pattern h inside.pattern_in) missing,
              )
              ran,
          record { text = e.text; listed = e.listed; kept = e.kept; tame = e.tame },
        )
    expand_loop_lem {xs} {ys} {offset} {id} {names} (known v regex found there rest) (suc fuel) st
          lt h text at_offset at_id tame unused distinct =
        let inside = Pcre.exec-IsInside P xs _ v found in
        let here : Pcre.exec P xs st.offset ≡ some v = ap (Pcre.exec P xs) at_offset ∙ found in
        let expression = texts (group_text xs v.pattern) regex there in
        let (next, put, p) =
          inject_lem junk B X T P made pointers st xs v regex h text inside expression distinct.0
            tame (λ other u at_other differs. (unused other u at_other).0) in
        let closed : IsClosed next.full (replaced xs v id regex) = rw (← at_id) p.text in
        let (st', ran, e) =
          expand_loop_lem {xs = replaced xs v id regex} {offset = v.start} {id = id + 1} rest fuel
            next (omega arith) closed (replaced-IsText xs v id regex text expression) p.offset
            (p.next_id ∙ ap (λ n. n + 1) at_id) p.added.tame
            (Added-Unused st.captures next.captures st.capture_id _ _ _ p.added unused distinct)
            distinct.2 in
        (
          st',
          rw
              (
                read_text h,
                here,
                found_known st v _ regex (substring_lem v.pattern h inside.pattern_in) there,
                put,
              )
              ran,
          Injected-Expanded st next st' id v regex p at_id e,
        )

    -- Let a pattern rewrite to `ys` in fewer rounds than there is fuel, with expressions without a
    -- NUL. Let the names that get a number be at most 200000 bytes long with their subnames, and
    -- their subnames, where not empty, differ from each other and from those in the table, which
    -- has no numbered groups, no long texts and no subname twice. Then `grok_pattern_expand` meets no
    -- fault and no failing assertion and returns a buffer that holds `ys` with each "\%" as "%".
    -- The table has each capture that the rewriting numbered, under its number and with its name,
    -- and still no numbered groups, no long texts and no subname twice.
    pub pattern_expand_refines :
        {xs ys : List ℕ} {names : List (ℕ × List ℕ)} (r : Rewrites B P patterns xs 0 0 names ys)
        (fuel : ℕ) (captures : Table.Db T) (full : Str)
        → rounds B P patterns r < fuel
        → IsClosed full xs
        → IsText xs
        → Tame X T captures
        → Unused X T captures (labels B P patterns r)
        → Distinct X T (labels B P patterns r)
        → (t : Str) × (db : Table.Db T) × (pattern_expand junk B X T P made fuel patterns captures
              full
            ≡ some (some t, db))
          × IsClosed t (percents ys)
          × All (Named X T db) names
          × Tame X T db
    unfolding pattern_expand expanded
    pattern_expand_refines {ys = ys} r fuel captures full lt h text tame unused distinct =
        let (st, ran, e) =
          expand_loop_lem r fuel
            (record { full = full; offset = 0; capture_id = 0; captures = captures }) lt h text refl
            refl tame unused distinct in
        let (t, plain, closed) =
          unescape_percent_from junk (st.full.len + 1) [] ys 0
            (record { closed = e.text; place = refl }) (omega (arith, e.text.counted)) in
        (t, st.captures, rw (ran, plain) refl, closed, e.listed, e.tame)
