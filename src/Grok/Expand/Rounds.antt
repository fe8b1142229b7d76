-- ===== src/Grok/Expand/Rounds.antt =====
-- A round of `grok_pattern_expand` with a known name, tags/grok/20090928/grokre.c: what it does to the
-- buffer and to the captures.
use semicomplete_googlecode.Common.{
  ℕ, ◌+◌, ◌≡◌, refl, List, ◌++◌, arith, length, Option, some, none, codes, sym, take, drop,
  append_assoc, length-take_le, ◌≤◌, inr,
}
use semicomplete_googlecode.Grok.Buffer.Texts.{IsText}
use semicomplete_googlecode.Grok.Buffer.{Str}
use semicomplete_googlecode.Grok.Buffer.Blocks.{IsClosed}
use semicomplete_googlecode.Grok.Database.{Database}
use semicomplete_googlecode.Grok.Capture.{Xdr, with_strings, capture_get_by_id}
use semicomplete_googlecode.Grok.Capture.Tables.{Table}
use semicomplete_googlecode.Grok.Predicate.Choice.{Choice}
use semicomplete_googlecode.Grok.Escape.Pass.{At, At-move}
use semicomplete_googlecode.Grok.Expand.{
  Vector, Group, InText, IsInside, Pcre, Expansion, put_predicate, inject, goes_on,
}
use semicomplete_googlecode.Grok.Expand.Captures.{
  add_named, predicate_named, Free, Tame, Added, Added-trans, Added-Free, new_capture,
}
use semicomplete_googlecode.Grok.Expand.Rewrites.{slice, group_text, callout, replaced}
use semicomplete_googlecode.Grok.Expand.Percents.{insert_here}
use semicomplete_googlecode.Grok.Expand.Groups.{
  asserted_lem, read-IsClosed, substring_lem, length-slice, put_group_lem, replaced-IsText,
  three_parts,
}

module _ (junk : ℕ) (B : Database (List ℕ)) (X : Xdr) (T : Table (Xdr.Bytes X)) (P : Pcre)
    (made : Choice → List ℕ → Option (List ℕ))
    (pointers : (c : Choice) (args extra : List ℕ)
      → made c args ≡ some extra
      → length extra ≤ 8) where
  -- The range of the vector, in its place in the buffer.
  found_at :
      {s : Str} (xs : List ℕ) (v : Vector)
      → IsClosed s xs
      → IsInside xs v
      → At s (take v.start xs) (slice xs v.start v.end ++ drop v.end xs) v.start
  found_at xs v h inside = record {
    closed = rw (← three_parts xs v.start v.end inside.forward) h;
    place = sym (length-take_le v.start xs (omega (arith, inside.forward, inside.within)));
  }

  module _ (xs name sub : List ℕ) (v : Vector) (inside : IsInside xs v) where
    abbrev old : List ℕ
    old = slice xs v.start v.end

    abbrev pre : List ℕ
    pre = take v.start xs

    old_end : v.end ≡ v.start + length old
    old_end = omega (arith, length-slice xs v.start v.end inside.within, inside.forward)

    -- The buffer and the captures after `put_predicate`.
    record Marked (st st' : Expansion junk B X T P made) (g : Group) : Type 0 where
      text : At st'.full pre (old ++ (callout g ++ drop v.end xs)) v.start
      added : Added X T st.captures st'.captures st.capture_id name sub

    put_predicate_lem :
        (st : Expansion junk B X T P made) (g : Group)
        → IsClosed st.full xs
        → InText g (length xs)
        → length name + length sub ≤ 200000
        → Tame X T st.captures
        → Free X T st.captures st.capture_id sub
        → capture_get_by_id X T st.captures st.capture_id
          ≡ some (with_strings (new_capture X T st.capture_id name sub))
        → (st' : Expansion junk B X T P made) × (put_predicate junk B X T P made st v g ≡ some st')
          × Marked st st' g
    unfolding put_predicate
    put_predicate_lem st none h g_in short tame free there = (
      st,
      refl,
      record {
        text = found_at xs v h inside;
        added = record {
          tame = tame;
          named = (_, there, refl, refl);
          kept = λ k lt. refl;
          records = λ other u found. inr found;
        };
      },
    )
    put_predicate_lem st (some (i, j)) h g_in short tame free there =
        let here = found_at xs v h inside in
        let behind = At-move v.end pre old (drop v.end xs) here old_end in
        let (db, ran_add, added) =
          predicate_named X T junk B P made pointers st.captures st.capture_id name sub short tame
            free there (slice xs i j) in
        let (t, ran, closed) =
          insert_here junk (pre ++ old) (drop v.end xs) (codes "(?C1)") v.end 5 behind refl in
        (
          record st { full = t; captures = db },
          rw (read-IsClosed i j h g_in.0 g_in.1, ran_add, ran) refl,
          record {
            text = record {
              closed = rw (append_assoc pre old (codes "(?C1)" ++ drop v.end xs)) at closed;
              place = here.place;
            };
            added = added;
          },
        )

  -- The buffer and the captures after a round with a known name.
  pub record Injected (st st' : Expansion junk B X T P made) (xs : List ℕ) (v : Vector)
      (regex : List ℕ) : Type 0 where
    pub text : IsClosed st'.full (replaced xs v st.capture_id regex)
    pub offset : st'.offset ≡ v.start
    pub next_id : st'.capture_id ≡ st.capture_id + 1
    pub added :
        Added X T st.captures st'.captures st.capture_id
          (group_text xs v.name)
          (group_text xs v.subname)

  pub inject_lem :
      (st : Expansion junk B X T P made) (xs : List ℕ) (v : Vector) (regex : List ℕ)
      → IsClosed st.full xs
      → IsText xs
      → IsInside xs v
      → IsText regex
      → length (group_text xs v.name) + length (group_text xs v.subname) ≤ 200000
      → Tame X T st.captures
      → Free X T st.captures st.capture_id (group_text xs v.subname)
      → (st' : Expansion junk B X T P made) × (inject junk B X T P made st v regex
          ≡ some (goes_on st'))
        × Injected st st' xs v regex
  unfolding inject
  inject_lem st xs v regex h text inside expression short tame free =
      let name = group_text xs v.name in
      let sub = group_text xs v.subname in
      let id = st.capture_id in
      let (db, ran_add, first, there) =
        add_named X T st.captures (new_capture X T id name sub) id name sub refl refl refl refl
          (omega (arith, short)) tame free in
      let (marked, ran, m) =
        put_predicate_lem xs name sub v inside (record st { captures = db }) v.predicate h
          inside.predicate_in short first.tame
          (Added-Free X T st.captures db id name sub first free) there in
      let (t, put, closed) =
        put_group_lem junk (take v.start xs) (slice xs v.start v.end)
          (callout v.predicate ++ drop v.end xs) regex st.capture_id v.start v.end m.text
          (old_end xs name sub v inside) in
      (
        record marked { full = t; offset = v.start; capture_id = st.capture_id + 1 },
        rw
            (
              substring_lem v.name h inside.name_in,
              substring_lem v.subname h inside.subname_in,
              ran_add,
              asserted_lem h text,
              ran,
              put,
              asserted_lem closed (replaced-IsText xs v st.capture_id regex text expression),
            )
            refl,
        record {
          text = closed;
          offset = refl;
          next_id = refl;
          added = Added-trans X T st.captures db marked.captures id name sub first m.added;
        },
      )
