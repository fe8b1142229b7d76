-- ===== src/Grok/Compile/Study.antt =====
-- The numbers that `grok_study_capture_map` of tags/grok/20090928/grokre.c gives to the captures.
pub mod Names
pub mod Marks
use semicomplete_googlecode.Grok.Compile.Study.Marks.{
  signed_number, signed_number_inj, text_size-with_strings, number_apart, record_of, same_set-none,
}
use semicomplete_googlecode.Common.{
  ℕ, ◌+◌, ◌*◌, ◌/◌, ◌%◌, ◌<◌, ◌≡◌, ◌≢◌, refl, some, List, arith, ltb, lt→ltb, if◌then◌else◌,
  get_elem?, drop, ◌++◌, true, zero, suc, sym, ◌∙◌, inl, inr, eq_or_ne, ◌≤◌, ap, ◌⊎◌, false, [],
  ◌∷◌,
}
use semicomplete_googlecode.Common.Int.{negsuc}
use semicomplete_googlecode.Grok.Capture.{
  Capture, Xdr, with_strings, capture_get_by_id, text_size, not_empty, set_number_key,
  captures_by_subname, same_set,
}
use semicomplete_googlecode.Grok.Capture.Lookup.{capture_add_found, not_empty-not_null, Alone, Kept}
use semicomplete_googlecode.Grok.Capture.Tables.{Table}
use semicomplete_googlecode.Grok.Expand.{capture_id_str}
use semicomplete_googlecode.Grok.Expand.Captures.{Named, Tame, same_set_sym}
use semicomplete_googlecode.Grok.Compile.{
  Regexes, char_sum, study_entry, study_from, study_capture_map,
}
use semicomplete_googlecode.Grok.Compile.Study.Names.{sscanf-capture_id_str}
use semicomplete_googlecode.Grok.Database.{same_key, same_key_refl}

char_sum-signed_number : (n : ℕ) → n < 32768 → char_sum (n / 256) (n % 256) ≡ signed_number n
char_sum-signed_number n small =
    let high : ltb (n / 256) 128 ≡ true = lt→ltb _ _ (omega arith) in
    let whole : 256 * (n / 256) + n % 256 ≡ n = omega arith in
    let part = (if ltb (n % 256) 128 then 0 else 256) in
    let same : 0 + part ≡ part = omega arith in rw (high, whole, same) refl

-- The entry at an offset of a name table: the number of the group in two bytes, the higher first,
-- and the name, which is that of a capture's id.
pub record IsEntry (nametable : List ℕ) (offset number id : ℕ) : Type 0 where
  pub few : number < 32768
  pub in_field : id < 65536
  pub high : get_elem? nametable offset ≡ some (number / 256)
  pub low : get_elem? nametable (offset + 1) ≡ some (number % 256)
  pub rest : List ℕ
  pub named : drop (offset + 2) nametable ≡ capture_id_str id ++ rest

module _ (X : Xdr) (T : Table (Xdr.Bytes X)) (R : Regexes) where
  open X use {Bytes, decode}
  open T use {get}

  -- The capture with an id has its name, and the number.
  abbrev pub Numbered : Table.Db T → ℕ → List ℕ → ℕ → Type 0
  Numbered db id name number =
      (gct : Capture) × (capture_get_by_id X T db id ≡ some gct)
      × (gct.id ≡ some id)
      × (gct.name ≡ some name)
      × (gct.pcre_capture_number ≡ signed_number number)

  abbrev Others : Table.Db T → Table.Db T → ℕ → Type 0
  Others before after id =
      (other : ℕ)
      → other ≢ id
      → capture_get_by_id X T after other ≡ capture_get_by_id X T before other

  module _ (count entrysize : ℕ) (nametable : List ℕ) (ids numbers : ℕ → ℕ) (names : ℕ → List ℕ)
      (entries : (k : ℕ) → k < count → IsEntry nametable (k * entrysize) (numbers k) (ids k))
      (distinct : (j k : ℕ) → j < count → k < count → ids j ≡ ids k → j ≡ k)
      (one_each : (j k : ℕ) → j < count → k < count → numbers j ≡ numbers k → j ≡ k) where
    -- Of the records only the entries in front of `i` have numbers.
    record Partly (db : Table.Db T) (i : ℕ) : Type 0 where
      short : (other : List ℕ) (u : Bytes) → get db other ≡ some u → text_size (decode u) ≤ 300000
      apart :
          (a b : List ℕ) (u v : Bytes)
          → get db a ≡ some u
          → get db b ≡ some v
          → same_key a b ≡ false
          → same_set X T (captures_by_subname X u) (captures_by_subname X v) ≡ false
      numbered :
          (other : List ℕ) (u : Bytes)
          → get db other ≡ some u
          → ((decode u).pcre_capture_number ≡ negsuc 0)
            ⊎ ((k : ℕ) × (k < i) × ((decode u).pcre_capture_number ≡ signed_number (numbers k)))

    Partly-Alone :
        (db : Table.Db T) (i : ℕ) (gct : Capture) (u : Bytes)
        → i < count
        → Partly db i
        → get db (ids i ∷ []) ≡ some u
        → decode u ≡ gct
        → Alone X T db (ids i) (record gct { pcre_capture_number = signed_number (numbers i) })
    Partly-Alone db i gct u lt p there back other v at_other differs = (
      ap (λ (c : Capture). same_set X T (not_empty X c.subname) (captures_by_subname X v))
            (sym back)
          ∙ p.apart (ids i ∷ []) other u v there at_other differs,
      elim (p.numbered other v at_other) [
        | inl unset ↦ rw unset (same_set-none X T (set_number_key X (signed_number (numbers i))))
        | inr (k, before, number) ↦ rw number (
            number_apart X T (signed_number (numbers i)) (signed_number (numbers k)) (λ e. absurd (
              omega (
                arith,
                before,
                one_each i k lt (omega arith) (signed_number_inj (numbers i) (numbers k) e),
              ))))
      ],
    )

    -- A record of the table as it was, under its own key, has the subname of the new one.
    Partly-next :
        (db after : Table.Db T) (i : ℕ) (gct : Capture) (name : List ℕ) (u : Bytes)
        → Partly db i
        → get db (ids i ∷ []) ≡ some u
        → decode u ≡ gct
        → Kept X T db after
            (record gct { pcre_capture_number = signed_number (numbers i) })
            (ids i)
            name
        → Partly after (i + 1)
    Partly-next db after i gct name u p there back kept =
        let sub_of : (w : Bytes)
            → decode w
              ≡ with_strings (record gct { pcre_capture_number = signed_number (numbers i) })
            → captures_by_subname X w ≡ captures_by_subname X u =
          λ w new.
            ap (λ (c : Capture). not_empty X c.subname) new
            ∙ not_empty-not_null X gct.subname
            ∙ ap (λ (c : Capture). not_empty X c.subname) (sym back) in
        record {
          short = λ other w at_w. elim (kept.records other w at_w) [
            | inl (e, new) ↦ omega (
              arith,
              ap text_size new,
              text_size-with_strings gct,
              ap text_size back,
              p.short (ids i ∷ []) u there,
            )
            | inr (differs, old) ↦ p.short other w old
          ];
          apart = λ a b w v at_a at_b differ. elim (kept.records a w at_a) [
            | inl (e, new) ↦ elim (kept.records b v at_b) [
              | inl (f, _) ↦
                  let no : true ≡ false =
                    sym (same_key_refl (ids i ∷ [])) ∙ rw (← e, ← f) at differ in
                  cc
              | inr (other, old) ↦ rw (sub_of w new) (p.apart (ids i ∷ []) b u v there old other)
            ]
            | inr (other, old) ↦ elim (kept.records b v at_b) [
              | inl (f, new) ↦
                  same_set_sym X T _ _
                    (rw (sub_of v new) (p.apart (ids i ∷ []) a u w there old other))
              | inr (_, old') ↦ p.apart a b w v old old' differ
            ]
          ];
          numbered = λ other w at_w. elim (kept.records other w at_w) [
            | inl (e, new) ↦ inr (i, omega arith, ap (λ (c : Capture). c.pcre_capture_number) new)
            | inr (differs, old) ↦ elim (p.numbered other w old) [
              | inl unset ↦ inl unset
              | inr (k, before, number) ↦ inr (k, omega arith, number)
            ]
          ];
        }

    study_entry-Numbered :
        (i was : ℕ) (name : List ℕ) (db : Table.Db T)
        → i < count
        → Partly db i
        → Named X T db (ids i, name)
        → (after : Table.Db T) × (study_entry X T R nametable (i * entrysize) (db, was)
            ≡ some (after, ids i))
          × Numbered after (ids i) name (numbers i)
          × Others db after (ids i)
          × Partly after (i + 1)
    unfolding study_entry
    study_entry-Numbered i was name db lt p (gct, there, has_id, has_name) =
        let entry = entries i lt in
        let numbered = record gct { pcre_capture_number = signed_number (numbers i) } in
        let (u, at_u, back) = record_of X T db (ids i) gct there in
        let (after, added, kept) =
          capture_add_found X T db numbered (ids i) name has_id has_name
            (omega
              (arith, text_size-with_strings gct, ap text_size back, p.short (ids i ∷ []) u at_u))
            (Partly-Alone db i gct u lt p at_u back) in
        (
          after,
          rw
              (
                entry.high,
                entry.low,
                entry.named,
                sscanf-capture_id_str was (ids i) entry.rest entry.in_field,
                there,
                char_sum-signed_number (numbers i) entry.few,
                added,
              )
              refl,
          (with_strings numbered, kept.by_id, has_id, rw has_name refl, refl),
          kept.others,
          Partly-next db after i gct name u p at_u back kept,
        )

    -- The entries in front of `i` are studied; all of the captures are there.
    pub record Studied (before after : Table.Db T) (i : ℕ) : Type 0 where
      pub done : (k : ℕ) → k < i → Numbered after (ids k) (names k) (numbers k)
      pub there : (k : ℕ) → k < count → Named X T after (ids k, names k)
      pub others :
          (id : ℕ)
          → ((k : ℕ) → k < count → ids k ≢ id)
          → capture_get_by_id X T after id ≡ capture_get_by_id X T before id

    ids_apart : (j k : ℕ) → j < count → k < count → j ≢ k → ids j ≢ ids k
    ids_apart j k hj hk other e = other (distinct j k hj hk e)

    step-Studied :
        (before db after : Table.Db T) (i : ℕ)
        → i < count
        → Studied before db i
        → Numbered after (ids i) (names i) (numbers i)
        → Others db after (ids i)
        → Studied before after (i + 1)
    step-Studied before db after i lt s (g, found, has_id, has_name, number) kept = record {
      done = λ k h. elim (eq_or_ne k i) [
        | inl same ↦ rw same (g, found, has_id, has_name, number)
        | inr other ↦
            let (gct, at, has_id, has_name, number) = s.done k (omega arith) in
            (
              gct,
              kept (ids k) (ids_apart k i (omega arith) lt other) ∙ at,
              has_id,
              has_name,
              number,
            )
      ];
      there = λ k h. elim (eq_or_ne k i) [
        | inl same ↦ rw same (g, found, has_id, has_name)
        | inr other ↦
            let (gct, at, has_id, has_name) = s.there k h in
            (gct, kept (ids k) (ids_apart k i h lt other) ∙ at, has_id, has_name)
      ];
      others = λ id none_is. kept id (λ e. none_is i lt (sym e)) ∙ s.others id none_is;
    }

    study_from-Studied :
        (left i was : ℕ) (before db : Table.Db T)
        → i + left ≡ count
        → Studied before db i
        → Partly db i
        → (s : Table.Db T × ℕ) × (study_from X T R left i nametable entrysize (db, was) ≡ some s)
          × Studied before s.0 count
    unfolding study_from
    study_from-Studied zero i was before db total s p =
        let all : i ≡ count = omega arith in ((db, was), refl, rw all at s)
    study_from-Studied (suc left) i was before db total s p =
        let lt : i < count = omega arith in
        let (after, ran, numbered, kept, partly) =
          study_entry-Numbered i was (names i) db lt p (s.there i lt) in
        let (r, ran_on, studied) =
          study_from-Studied left (i + 1) (ids i) before after (omega arith)
            (step-Studied before db after i lt s numbered kept) partly in
        (r, rw ran ran_on, studied)

  -- Where each entry of the name table is for the id of a capture that is there, with a group
  -- under 32768, no two are for one id or one group, and the table has no numbered groups, no long
  -- texts and no subname twice, the study meets no fault. Afterwards the capture of each entry has
  -- its group's number if the low byte is under 128, and else the number less 256; its id and its
  -- name are the same, and captures with other ids are as they were.
  pub study_capture_map_numbers :
      (stale : ℕ) (re : Regexes.Regex R) (db : Table.Db T) (ids numbers : ℕ → ℕ)
      (names : ℕ → List ℕ)
      → ((k : ℕ)
          → k < R.name_count re
          → IsEntry (R.name_table re) (k * R.name_entry_size re) (numbers k) (ids k))
      → ((j k : ℕ) → j < R.name_count re → k < R.name_count re → ids j ≡ ids k → j ≡ k)
      → ((j k : ℕ) → j < R.name_count re → k < R.name_count re → numbers j ≡ numbers k → j ≡ k)
      → ((k : ℕ) → k < R.name_count re → Named X T db (ids k, names k))
      → Tame X T db
      → (after : Table.Db T) × (study_capture_map X T R stale re db ≡ some after)
        × ((k : ℕ) → k < R.name_count re → Numbered after (ids k) (names k) (numbers k))
        × ((id : ℕ)
            → ((k : ℕ) → k < R.name_count re → ids k ≢ id)
            → capture_get_by_id X T after id ≡ capture_get_by_id X T db id)
  unfolding study_capture_map
  study_capture_map_numbers stale re db ids numbers names entries distinct one_each there tame =
      let (s, ran, studied) =
        study_from-Studied (R.name_count re) (R.name_entry_size re) (R.name_table re) ids numbers
          names entries distinct one_each (R.name_count re) 0 stale db db (omega arith)
          (record { done = λ k h. absurd (omega arith); there = there; others = λ id h. refl })
          (record {
            short = tame.short;
            apart = tame.apart;
            numbered = λ other u at_u. inl (tame.unnumbered other u at_u);
          }) in
      (s.0, rw ran refl, studied.done, studied.others)
