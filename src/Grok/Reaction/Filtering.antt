-- ===== src/Grok/Reaction/Filtering.antt =====
-- A list of filters runs from left to right, `grok_match_reaction_apply_filter` of
-- tags/grok/20090928/grok_matchconf.c.
use semicomplete_googlecode.Common.{
  ℕ, ◌≡◌, ◌≢◌, refl, Option, some, List, [], ◌∷◌, ◌++◌, arith, ◌>>=◌, length, length-append, All,
  drop-append_at, take-append_at, ◌+◌, ◌<◌, sym, append_assoc, get_elem?, get_elem?-append_at, zero,
  suc, false, none, append-nil, ◌==◌, ltb-false, lt→ltb, ap, ◌∙◌,
}
use mathlib.Core.Path.{fun_ext}
use semicomplete_googlecode.Grok.Buffer.Texts.{IsText, string_ndup_lem}
use semicomplete_googlecode.Grok.Buffer.{Str}
use semicomplete_googlecode.Grok.Buffer.Blocks.{read_lem}
use semicomplete_googlecode.Grok.Reaction.{
  Filter, run_filter, run_named, filter_loop, Value, Filtered, given, copied, reaction_apply_filter,
}

-- "|name|name…", as the pattern of a reaction's filter allows it.
unfoldable pub filter_text : List (List ℕ) → List ℕ
filter_text [] = []
filter_text (name ∷ names) = b'|' ∷ (name ++ filter_text names)

abbrev pub NoBar : ℕ → Type 0
NoBar c = c ≢ b'|'

-- A name is not empty and has no '|'.
abbrev pub IsName : List ℕ → Type 0
IsName [] = ⊥
IsName (c ∷ cs) = NoBar c × All NoBar cs

pub bind_some {ℓ} : {A : Type ℓ} (o : Option A) → (o >>= some) ≡ o
bind_some none = refl
bind_some (some a) = refl

module _ (string_filter_lookup : List ℕ → Option Filter) where
  -- The filters in turn.
  unfoldable pub run_all : List (List ℕ) → Str → Option Str
  run_all [] value = some value
  run_all (name ∷ names) value = do
    filtered ← run_filter string_filter_lookup (string_filter_lookup name) value
    run_all names filtered

  module _ (filter : List ℕ) where
    -- The name in the filter's text is read as a whole.
    run_named_lem :
        (pre name post : List ℕ) (value : Str)
        → filter ≡ pre ++ (name ++ post)
        → run_named string_filter_lookup filter (length pre) (length name) value
          ≡ run_filter string_filter_lookup (string_filter_lookup name) value
    unfolding run_named
    run_named_lem pre name post value e =
        rw
          (
            e,
            read_lem (pre ++ (name ++ post)) (length pre) (length name)
                (omega (arith, length-append pre (name ++ post), length-append name post)),
            drop-append_at (length pre) pre (name ++ post) refl,
            take-append_at (length name) name post refl,
          )
          refl

    -- The byte behind what has been seen of a name.
    byte_behind :
        (pre seen : List ℕ) (c : ℕ) (post : List ℕ)
        → filter ≡ pre ++ (seen ++ (c ∷ post))
        → get_elem? filter (length pre + length seen) ≡ some c
    byte_behind pre seen c post e =
        rw (e, ← append_assoc pre seen (c ∷ post))
          (get_elem?-append_at (length pre + length seen) (pre ++ seen) c post
            (sym (length-append pre seen)))

    module _ (filter_len : ℕ) (rest : List ℕ) where
      -- At a round: what is before the name, what was seen of it, what comes, and the other names.
      record Round (pre seen todo : List ℕ) (names : List (List ℕ)) : Type 0 where
        text : filter ≡ pre ++ (seen ++ (todo ++ (filter_text names ++ rest)))
        measured : filter_len ≡ length pre + length seen + length todo + length (filter_text names)
        clean : All NoBar todo
        named : All IsName names

      filter_loop_lem :
          (fuel offset len : ℕ) (pre seen todo : List ℕ) (names : List (List ℕ)) (value : Str)
          → offset ≡ length pre
          → len ≡ length seen
          → Round pre seen todo names
          → length todo + length (filter_text names) < fuel
          → filter_loop string_filter_lookup fuel filter filter_len offset len value
            ≡ run_all ((seen ++ todo) ∷ names) value
      unfolding filter_loop run_all filter_text
      filter_loop_lem zero offset len pre seen todo names value ho hl r lt = absurd (omega arith)
      filter_loop_lem (suc fuel) offset len pre seen [] [] value ho hl r lt =
          let stop = ltb-false (offset + len) filter_len (omega (arith, r.measured)) in
          rw (stop, ho, hl, append-nil, bind_some) (run_named_lem pre seen rest value r.text)
      filter_loop_lem (suc fuel) offset len pre seen [] ([] ∷ names) value ho hl r lt =
          absurd r.named.0
      filter_loop_lem (suc fuel) offset len pre seen [] ((d ∷ ds) ∷ names) value ho hl r lt =
          let tail = d ∷ (ds ++ filter_text names) in
          let go = lt→ltb (offset + len) filter_len (omega (arith, r.measured)) in
          let byte : get_elem? filter (offset + len) ≡ some b'|' =
            rw (ho, hl) (byte_behind pre seen b'|' (tail ++ rest) r.text) in
          let reads = run_named_lem pre seen (b'|' ∷ (tail ++ rest)) value r.text in
          let r' : Round (pre ++ (seen ++ b'|' ∷ [])) (d ∷ []) ds names = record {
            text = r.text ∙ simp append_assoc;
            measured = omega (
              arith,
              r.measured,
              length-append pre (seen ++ b'|' ∷ []),
              length-append seen (b'|' ∷ []),
              length-append ds (filter_text names),
            );
            clean = r.named.0.1;
            named = r.named.1;
          } in
          let rest_runs = λ (filtered : Str).
            filter_loop_lem fuel (length pre + (length seen + 1)) 1 (pre ++ (seen ++ b'|' ∷ []))
              (d ∷ []) ds names filtered
              (omega (arith, length-append pre (seen ++ b'|' ∷ []), length-append seen (b'|' ∷ [])))
              refl r' (omega (arith, length-append ds (filter_text names))) in
          rw (go, byte, ho, hl, reads, append-nil)
            (ap
              (λ (k : Str → Option Str).
                run_filter string_filter_lookup (string_filter_lookup seen) value >>= k)
              (fun_ext rest_runs))
      filter_loop_lem (suc fuel) offset len pre seen (c ∷ cs) names value ho hl r lt =
          let go = lt→ltb (offset + len) filter_len (omega (arith, r.measured)) in
          let byte : get_elem? filter (offset + len) ≡ some c =
            rw (ho, hl) (byte_behind pre seen c (cs ++ (filter_text names ++ rest)) r.text) in
          let other : (c == b'|') ≡ false = ground (arith, r.clean.0) in
          let r' : Round pre (seen ++ c ∷ []) cs names = record {
            text = rw (append_assoc seen (c ∷ []) (cs ++ (filter_text names ++ rest))) r.text;
            measured = omega (arith, r.measured, length-append seen (c ∷ []));
            clean = r.clean.1;
            named = r.named;
          } in
          rw (go, byte, other, ← append_assoc seen (c ∷ []) cs)
            (filter_loop_lem fuel offset (len + 1) pre (seen ++ c ∷ []) cs names value ho
              (omega (arith, length-append seen (c ∷ []))) r' (omega arith))

module _ (string_filter_lookup : List ℕ → Option Filter) where
  -- What the filters are to give for a text.
  unfoldable pub filtered : List (List ℕ) → Value → List ℕ → Option Filtered
  filtered [] value text = some (given value)
  filtered (name ∷ names) value text = do
    s ←
        run_all string_filter_lookup (name ∷ names)
          (record { mem = text ++ 0 ∷ []; len = length text; size = length text + 1 })
    some (copied s)

  -- For the filter text "|name|name…" with names that are not empty, `grok_match_reaction_apply_filter`
  -- runs the filters of these names from left to right on a fresh copy of the value, which has its NUL;
  -- a name that is not known changes nothing, and a fault of a filter is a fault. With no name the
  -- value is returned as it was given. The value is a text without a NUL in front of some byte.
  pub reaction_apply_filter_correct :
      (names : List (List ℕ)) (rest text : List ℕ) (c : ℕ) (more : List ℕ)
      → All IsName names
      → IsText text
      → reaction_apply_filter string_filter_lookup
          (filter_text names ++ rest)
          (length (filter_text names))
          (record { bytes = text ++ c ∷ more; len = length text })
        ≡ filtered names (record { bytes = text ++ c ∷ more; len = length text }) text
  unfolding reaction_apply_filter filter_text filtered
  reaction_apply_filter_correct [] rest text c more named clean = refl
  reaction_apply_filter_correct ([] ∷ names) rest text c more named clean = absurd named.0
  reaction_apply_filter_correct ((d ∷ ds) ∷ names) rest text c more named clean =
      let whole = filter_text ((d ∷ ds) ∷ names) in
      let start : Str = record {
        mem = text ++ 0 ∷ [];
        len = length text;
        size = length text + 1;
      } in
      let r : Round string_filter_lookup (whole ++ rest) (length whole) rest (b'|' ∷ []) [] (d ∷ ds)
          names =
        record {
          text = simp append_assoc;
          measured = omega (arith, length-append (d ∷ ds) (filter_text names));
          clean = named.0;
          named = named.1;
        } in
      let some_names : (length whole == 0) ≡ false = ground arith in
      rw
        (
          some_names,
          string_ndup_lem text c more clean,
          filter_loop_lem string_filter_lookup (whole ++ rest) (length whole) rest
              (length whole + 1) 1 0 (b'|' ∷ []) [] (d ∷ ds) names start refl refl r
              (omega (arith, length-append (d ∷ ds) (filter_text names))),
        )
        refl
