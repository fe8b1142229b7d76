-- ===== src/Grok/Expand/Captures.antt =====
-- The captures that an expansion numbers, tags/grok/20090928/grokre.c: each stays in the table with
-- its name, also when a predicate is added to it.
use semicomplete_googlecode.Grok.Capture.{capture_init}
use semicomplete_googlecode.Common.Int.{negsuc}
use semicomplete_googlecode.Common.{
  ◌+◌, ◌≤◌, ap, ◌∙◌, sym, Bool, true, false, [], ◌∷◌, ◌⊎◌, inl, inr, Bool-cases, length, All, ℕ,
  ◌<◌, ◌≡◌, refl, List, arith, Option, some, none,
}
use semicomplete_googlecode.Grok.Database.{same_key, same_key→eq, same_key_refl, Database}
use semicomplete_googlecode.Grok.Capture.{
  same_set, not_empty, captures_by_subname, text_size, Capture, Xdr, with_strings, capture_add,
  capture_get_by_id, capture_init,
}
use semicomplete_googlecode.Grok.Capture.Lookup.{Alone, not_empty-not_null, capture_add_found}
use semicomplete_googlecode.Grok.Capture.Tables.{Table}
use semicomplete_googlecode.Grok.Predicate.Choice.{
  Choice, regexp, strcompare, numcompare, invalid, choose,
}
use semicomplete_googlecode.Grok.Expand.{Pcre, add_checked, add_by_choice, capture_add_predicate}

module _ (X : Xdr) (T : Table (Xdr.Bytes X)) where
  -- The capture with an id is there, and has the name.
  abbrev pub Named : Table.Db T → ℕ × List ℕ → Type 0
  Named db (id, name) =
      (gct : Capture) × (capture_get_by_id X T db id ≡ some gct)
      × (gct.id ≡ some id)
      × (gct.name ≡ some name)

  abbrev pub Keeps : Table.Db T → Table.Db T → ℕ → Type 0
  Keeps before after id =
      (k : ℕ) → k < id → capture_get_by_id X T after k ≡ capture_get_by_id X T before k

  open X use {Bytes, decode}
  open T use {Db, get}

  -- Subnames that are set and the same.
  abbrev pub shared : List ℕ → Option (List ℕ) → Bool
  shared sub o = same_set X T (not_empty X (some sub)) o

  -- No other capture has the subname.
  abbrev pub Free : Db → ℕ → List ℕ → Type 0
  Free db id sub =
      (other : List ℕ) (u : Bytes)
      → get db other ≡ some u
      → same_key (id ∷ []) other ≡ false
      → shared sub (captures_by_subname X u) ≡ false

  -- No capture has the subname of one of the names.
  abbrev pub Unused : Db → List (List ℕ × List ℕ) → Type 0
  Unused db labels =
      (other : List ℕ) (u : Bytes)
      → get db other ≡ some u
      → All (λ label. shared label.1 (captures_by_subname X u) ≡ false) labels

  -- The names with their subnames are short, and no two share a subname.
  abbrev pub Distinct : List (List ℕ × List ℕ) → Type 0
  Distinct [] = Unit
  Distinct ((name, sub) ∷ labels) =
      (length name + length sub ≤ 200000)
      × All (λ label. shared label.1 (not_empty X (some sub)) ≡ false) labels
      × Distinct labels

  -- No group has a number yet, all the texts are short, and no two captures share a subname.
  pub record Tame (db : Db) : Type 0 where
    pub unnumbered :
        (other : List ℕ) (u : Bytes)
        → get db other ≡ some u
        → (decode u).pcre_capture_number ≡ negsuc 0
    pub short : (other : List ℕ) (u : Bytes) → get db other ≡ some u → text_size (decode u) ≤ 300000
    pub apart :
        (i j : List ℕ) (u v : Bytes)
        → get db i ≡ some u
        → get db j ≡ some v
        → same_key i j ≡ false
        → same_set X T (captures_by_subname X u) (captures_by_subname X v) ≡ false

  -- A capture was added, once or again.
  pub record Added (before after : Db) (id : ℕ) (name sub : List ℕ) : Type 0 where
    pub tame : Tame after
    pub named : Named after (id, name)
    pub kept : Keeps before after id
    pub records :
        (other : List ℕ) (u : Bytes)
        → get after other ≡ some u
        → ((id ∷ [] ≡ other) × (captures_by_subname X u ≡ not_empty X (some sub)))
          ⊎ (get before other ≡ some u)

  pub Added-trans :
      (before between after : Db) (id : ℕ) (name sub : List ℕ)
      → Added before between id name sub
      → Added between after id name sub
      → Added before after id name sub
  Added-trans before between after id name sub a b = record {
    tame = b.tame;
    named = b.named;
    kept = λ k lt. b.kept k lt ∙ a.kept k lt;
    records = λ other u there. elim (b.records other u there) [
      | inl same ↦ inl same
      | inr old ↦ a.records other u old
    ];
  }

  pub Added-Free :
      (before after : Db) (id : ℕ) (name sub : List ℕ)
      → Added before after id name sub
      → Free before id sub
      → Free after id sub
  Added-Free before after id name sub a free other u there differs =
      elim (a.records other u there) [
        | inl (e, _) ↦
            let no : true ≡ false = sym (same_key_refl (id ∷ [])) ∙ rw (← e) at differs in cc
        | inr old ↦ free other u old differs
      ]

  pub empty-Tame : Tame (Table.empty T)
  empty-Tame = record {
    unnumbered = λ other u there. (let missing = Table.get-empty T other in cc);
    short = λ other u there. (let missing = Table.get-empty T other in cc);
    apart = λ i j u v at_i at_j differ. (let missing = Table.get-empty T i in cc);
  }

  pub same_set_sym : (a b : Option (List ℕ)) → same_set X T a b ≡ false → same_set X T b a ≡ false
  same_set_sym none none h = refl
  same_set_sym none (some k) h = refl
  same_set_sym (some k) none h = refl
  same_set_sym (some k) (some j) h = elim (Bool-cases (same_key j k)) [
    | inr other ↦ other
    | inl same ↦
        let e = same_key→eq j k same in
        let no : true ≡ false = sym (rw e (same_key_refl k)) ∙ h in cc
  ]

  subname_of :
      (u : Bytes) (gct : Capture) (sub : List ℕ)
      → decode u ≡ with_strings gct
      → gct.subname ≡ some sub
      → captures_by_subname X u ≡ not_empty X (some sub)
  subname_of u gct sub back has_sub =
      ap (λ (c : Capture). not_empty X c.subname) back
      ∙ not_empty-not_null X gct.subname
      ∙ ap (not_empty X) has_sub

  -- A capture with an id, a name and a subname, and no number, is added.
  pub add_named :
      (db : Db) (gct : Capture) (id : ℕ) (name sub : List ℕ)
      → gct.id ≡ some id
      → gct.name ≡ some name
      → gct.subname ≡ some sub
      → gct.pcre_capture_number ≡ negsuc 0
      → text_size (with_strings gct) ≤ 300000
      → Tame db
      → Free db id sub
      → (after : Db) × (capture_add X T db gct ≡ some (after, true))
        × Added db after id name sub
        × (capture_get_by_id X T after id ≡ some (with_strings gct))
  add_named db gct id name sub has_id has_name has_sub unnumbered short tame free =
      let alone : Alone X T db id gct =
        λ other u there differs. (rw has_sub (free other u there differs), rw unnumbered refl) in
      let (after, ran, kept) =
        capture_add_found X T db gct id name has_id has_name (omega (arith, short)) alone in
      let sub_of =
        λ (u : Bytes) (back : decode u ≡ with_strings gct). subname_of u gct sub back has_sub in
      (
        after,
        ran,
        record {
          tame = record {
            unnumbered = λ other u there. elim (kept.records other u there) [
              | inl (e, back) ↦ ap (λ (c : Capture). c.pcre_capture_number) back ∙ unnumbered
              | inr (differs, old) ↦ tame.unnumbered other u old
            ];
            short = λ other u there. elim (kept.records other u there) [
              | inl (e, back) ↦ omega (arith, ap text_size back, short)
              | inr (differs, old) ↦ tame.short other u old
            ];
            apart = λ i j u v at_i at_j differ. elim (kept.records i u at_i) [
              | inl (e, back) ↦ elim (kept.records j v at_j) [
                | inl (f, _) ↦
                    let no : true ≡ false =
                      sym (same_key_refl (id ∷ [])) ∙ rw (← e, ← f) at differ in
                    cc
                | inr (other, old) ↦ rw (sub_of u back) (free j v old other)
              ]
              | inr (other, old) ↦ elim (kept.records j v at_j) [
                | inl (f, back) ↦ same_set_sym _ _ (rw (sub_of v back) (free i u old other))
                | inr (_, old') ↦ tame.apart i j u v old old' differ
              ]
            ];
          };
          named = (with_strings gct, kept.by_id, has_id, rw has_name refl);
          kept = λ k lt. kept.others k (λ e. absurd (omega arith));
          records = λ other u there. elim (kept.records other u there) [
            | inl (e, back) ↦ inl (e, sub_of u back)
            | inr (differs, old) ↦ inr old
          ];
        },
        kept.by_id,
      )

  -- The capture of a %{NAME}.
  abbrev pub new_capture : ℕ → List ℕ → List ℕ → Capture
  new_capture id name sub = record capture_init {
    id = some id;
    name = some name;
    subname = some sub;
  }

  module _ (junk : ℕ) (B : Database (List ℕ)) (P : Pcre) (made : Choice → List ℕ → Option (List ℕ))
      (pointers : (c : Choice) (args extra : List ℕ)
        → made c args ≡ some extra
        → length extra ≤ 8) where
    module _ (db : Db) (id : ℕ) (name sub : List ℕ) (short : length name + length sub ≤ 200000)
        (tame : Tame db) (free : Free db id sub)
        (there : capture_get_by_id X T db id ≡ some (with_strings (new_capture id name sub))) where
      unchanged : Added db db id name sub
      unchanged = record {
        tame = tame;
        named = (with_strings (new_capture id name sub), there, refl, refl);
        kept = λ k lt. refl;
        records = λ other u found. inr found;
      }

      checked_named :
          (func : List ℕ) (extra : Option (List ℕ))
          → length func ≤ 100
          → ((e : List ℕ) → extra ≡ some e → length e ≤ 8)
          → (after : Db) × (add_checked junk B X T P made db
                (with_strings (new_capture id name sub))
                func
                extra
              ≡ some after)
            × Added db after id name sub
      unfolding add_checked
      checked_named func none few small = (db, refl, unchanged)
      checked_named func (some extra) few small =
          let gct = record (with_strings (new_capture id name sub)) {
            predicate_func_name = some func;
            extra = some extra;
          } in
          let (after, ran, added, _) =
            add_named db gct id name sub refl refl refl refl
              (omega (arith, short, few, small extra refl)) tame free in
          (after, rw ran refl, added)

      choice_named :
          (c : Choice) (args : List ℕ)
          → (after : Db) × (add_by_choice junk B X T P made db
                (with_strings (new_capture id name sub))
                c
                args
              ≡ some after)
            × Added db after id name sub
      unfolding add_by_choice
      choice_named regexp args =
          checked_named _ (made regexp args) (omega arith) (pointers regexp args)
      choice_named strcompare args =
          checked_named _ (made strcompare args) (omega arith) (pointers strcompare args)
      choice_named numcompare args =
          checked_named _ (made numcompare args) (omega arith) (pointers numcompare args)
      choice_named invalid args = (db, refl, unchanged)

      pub predicate_named :
          (args : List ℕ)
          → (after : Db) × (capture_add_predicate junk B X T P made db id args ≡ some after)
            × Added db after id name sub
      unfolding capture_add_predicate
      predicate_named args = rw there (choice_named (choose args) args)
