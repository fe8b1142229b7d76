-- ===== src/Grok/Capture/Lookup.antt =====
-- A capture that is added is found again, tags/grok/20090928/grok_capture.c and grok_match.c.
use Prim.Native.Nat.{◌^◌}
use semicomplete_googlecode.Common.{
  ℕ, zero, suc, ◌*◌, ◌≤◌, ◌<◌, ◌≡◌, ◌≢◌, refl, false, true, none, some, if◌then◌else◌, sym, ◌⊎◌,
  Bool-cases, Option, arith, inl, inr, Option-cases, ltb, ltb-false, ◌+◌, ap, ◌∙◌, List, [], ◌∷◌,
}
use semicomplete_googlecode.Grok.Capture.{
  Capture, Xdr, encode_from, with_strings, not_null, not_empty, text_size, same_set, clash,
  set_number_key, captures_by_subname, captures_by_capture_number, capture_encode,
  captures_by_name_key, capture_add, capture_get_by_id, match_get_named_capture, capture_get_db,
  id_key,
}
use semicomplete_googlecode.Grok.Database.{same_key_refl, same_key, same_key→eq}
use semicomplete_googlecode.Grok.Capture.Tables.{Table}

le_times : (a p : ℕ) → 1 ≤ p → a ≤ a * p
le_times a zero h = absurd (omega arith)
le_times a (suc q) h = let product : a * suc q ≡ a * q + a = omega arith in omega arith

twice : (a p q : ℕ) → q ≡ p * 2 → a * 2 * p ≡ a * q
twice a p q h = rw h (omega arith)

pub not_empty-not_null : (X : Xdr) (o : Option (List ℕ)) → not_empty X (not_null o) ≡ not_empty X o
not_empty-not_null X none = refl
not_empty-not_null X (some []) = refl
not_empty-not_null X (some (x ∷ xs)) = refl

module _ (X : Xdr) where
  open X use {Bytes, encode, decode, decode-encode, encode_small}

  pow_positive : (n : ℕ) → 1 ≤ 2 ^ n
  pow_positive zero = omega arith
  pow_positive (suc n) = omega (arith, pow_positive n)

  -- The doubling reaches a megabyte, and stops where the capture fits.
  encode_from_fits :
      (fuel k : ℕ) (gct : Capture) (alloc_size : ℕ)
      → alloc_size * 2 ^ k ≡ 1048576
      → k < fuel
      → encode gct 1048576 ≢ none
      → (bytes : Bytes) × (size : ℕ) × (encode_from X fuel gct alloc_size ≡ some bytes)
        × (encode gct size ≡ some bytes)
  unfolding encode_from
  encode_from_fits zero k gct alloc_size e lt fits = absurd (omega arith)
  encode_from_fits (suc fuel) zero gct alloc_size e lt fits =
      let last : alloc_size ≡ 1048576 = omega arith in
      let in_range : ltb 1048576 alloc_size ≡ false = ltb-false _ _ (omega arith) in
      rw (in_range, last)
        (elim (Option-cases (encode gct 1048576)) [
          | inr (bytes, made) ↦ rw made (bytes, 1048576, refl, made)
          | inl too_small ↦ absurd (fits too_small)
        ])
  encode_from_fits (suc fuel) (suc k) gct alloc_size e lt fits =
      let power : 2 ^ suc k ≡ 2 ^ k * 2 = omega arith in
      let small : alloc_size ≤ alloc_size * 2 ^ suc k =
        le_times alloc_size (2 ^ suc k) (pow_positive (suc k)) in
      let in_range : ltb 1048576 alloc_size ≡ false = ltb-false _ _ (omega arith) in
      let next : alloc_size * 2 * 2 ^ k ≡ 1048576 =
        twice alloc_size (2 ^ k) (2 ^ suc k) power ∙ e in
      rw in_range (elim (Option-cases (encode gct alloc_size)) [
        | inr (bytes, made) ↦ rw made (bytes, alloc_size, refl, made)
        | inl too_small ↦
            rw too_small (encode_from_fits fuel k gct (alloc_size * 2) next (omega arith) fits)
      ])

  capture_encode_small :
      (gct : Capture)
      → 100 + text_size (with_strings gct) ≤ 1048576
      → (bytes : Bytes) × (capture_encode X gct ≡ some bytes) × (decode bytes ≡ with_strings gct)
  unfolding capture_encode
  capture_encode_small gct small =
      let (bytes, size, made, in_size) =
        encode_from_fits 14 12 (with_strings gct) 256 (omega arith) (omega arith)
          (encode_small gct 1048576 small) in
      (bytes, made, decode-encode gct size bytes in_size)

  module _ (T : Table Bytes) where
    open T use {Db, put, get, secondary, get-put, secondary_sound, secondary_complete, put_alone}

    -- No other record has the subname or the number of the group, where they are set.
    abbrev pub Alone : Db → ℕ → Capture → Type 0
    Alone db id gct =
        (other : List ℕ) (u : Bytes)
        → get db other ≡ some u
        → same_key (id ∷ []) other ≡ false
        → (same_set X T (not_empty X gct.subname) (captures_by_subname X u) ≡ false)
          × (same_set X T (set_number_key X gct.pcre_capture_number)
                (captures_by_capture_number X u)
              ≡ false)

    -- What is known of the tables after `capture_add`.
    pub record Kept (db after : Db) (gct : Capture) (id : ℕ) (name : List ℕ) : Type 0 where
      pub by_id : capture_get_by_id X T after id ≡ some (with_strings gct)
      pub others :
          (other : ℕ)
          → other ≢ id
          → capture_get_by_id X T after other ≡ capture_get_by_id X T db other
      pub named :
          (found : Capture) × (match_get_named_capture X T after name ≡ some found)
          × (found.name ≡ some name)
      pub records :
          (other : List ℕ) (u : Bytes)
          → get after other ≡ some u
          → ((id ∷ [] ≡ other) × (decode u ≡ with_strings gct))
            ⊎ ((same_key (id ∷ []) other ≡ false) × (get db other ≡ some u))

    named_found :
        (db : Db) (id name : List ℕ) (bytes : Bytes)
        → get db id ≡ some bytes
        → (decode bytes).name ≡ some name
        → (found : Capture) × (match_get_named_capture X T db name ≡ some found)
          × (found.name ≡ some name)
    unfolding match_get_named_capture
    named_found db id name bytes there named =
        elim (Option-cases (secondary (captures_by_name_key X) db name)) [
          | inl missing ↦
              absurd
                (secondary_complete (captures_by_name_key X) db id name bytes there named missing)
          | inr (other, found) ↦
              rw (match_get_named_capture, found)
                (
                  decode other,
                  refl,
                  (secondary_sound (captures_by_name_key X) db name other found).1,
                )
        ]

    not_clashing :
        (gct : Capture) (bytes u : Bytes)
        → decode bytes ≡ with_strings gct
        → (same_set X T (not_empty X gct.subname) (captures_by_subname X u) ≡ false)
          × (same_set X T
                (set_number_key X gct.pcre_capture_number)
                (captures_by_capture_number X u)
              ≡ false)
        → clash X T bytes u ≡ false
    not_clashing gct bytes u back (by_sub, by_number) =
        let sub : captures_by_subname X bytes ≡ not_empty X gct.subname =
          ap (λ (c : Capture). not_empty X c.subname) back ∙ not_empty-not_null X gct.subname in
        let number : captures_by_capture_number X bytes ≡ set_number_key X gct.pcre_capture_number =
          ap (λ (c : Capture). set_number_key X c.pcre_capture_number) back in
        rw (sub, number, by_sub, by_number) refl

    -- A capture with an id and a name, whose texts are short enough for a megabyte, is added where no
    -- other capture has its subname or its number. It is found by its id, with empty strings for
    -- those that it lacks; what was found by other ids stays; its name finds a capture of that name;
    -- and there is no record but it and those from before.
    pub capture_add_found :
        (db : Db) (gct : Capture) (id : ℕ) (name : List ℕ)
        → gct.id ≡ some id
        → gct.name ≡ some name
        → 100 + text_size (with_strings gct) ≤ 1048576
        → Alone db id gct
        → (after : Db) × (capture_add X T db gct ≡ some (after, true)) × Kept db after gct id name
    unfolding capture_add capture_get_by_id
    capture_add_found db gct id name has_id has_name small alone =
        let (bytes, made, back) = capture_encode_small gct small in
        let r = put (clash X T) db (id ∷ []) bytes in
        let done : r.1 ≡ true =
          put_alone (clash X T) db (id ∷ []) bytes
            (λ j u there other. not_clashing gct bytes u back (alone j u there other)) in
        let after = r.0 in
        let finds : (j : List ℕ)
            → get after j ≡ (if same_key (id ∷ []) j then some bytes else get db j) =
          λ j. get-put (clash X T) db (id ∷ []) j bytes done in
        let there : get after (id ∷ []) ≡ some bytes =
          finds (id ∷ []) ∙ rw (same_key_refl (id ∷ [])) refl in
        let named : (decode bytes).name ≡ some name = ap (λ c. c.name) back ∙ rw has_name refl in
        let key : id_key X T gct.id ≡ id ∷ [] = ap (id_key X T) has_id in
        let added : capture_add X T db gct ≡ some (after, true) =
          rw (made, key) (ap (λ b. some (after, b)) done) in
        (
          after,
          added,
          record {
            by_id = rw there (ap (λ c. some c) back);
            others = λ other ne.
                (let apart : same_key (id ∷ []) (other ∷ []) ≡ false =
                    unfold same_key in ground arith in
                  ap (capture_get_db X T) (finds (other ∷ []) ∙ rw apart refl));
            named = named_found after (id ∷ []) name bytes there named;
            records = λ other u found. elim (Bool-cases (same_key (id ∷ []) other)) [
              | inl same ↦
                  let hit : some bytes ≡ some u = sym (finds other ∙ rw same refl) ∙ found in
                  let e : u ≡ bytes = cc in
                  inl (same_key→eq (id ∷ []) other same, ap decode e ∙ back)
              | inr apart ↦ inr (apart, sym (finds other ∙ rw apart refl) ∙ found)
            ];
          },
        )

    -- A capture with the subname of another is not added.
    pub capture_add-clash :
        (db : Db) (gct : Capture) (id : ℕ) (other : List ℕ) (u : Bytes)
        → gct.id ≡ some id
        → 100 + text_size (with_strings gct) ≤ 1048576
        → get db other ≡ some u
        → same_key (id ∷ []) other ≡ false
        → same_set X T (not_empty X gct.subname) (captures_by_subname X u) ≡ true
        → (after : Db) × (capture_add X T db gct ≡ some (after, false))
    unfolding capture_add
    capture_add-clash db gct id other u has_id small there differs shares =
        let (bytes, made, back) = capture_encode_small gct small in
        let sub : captures_by_subname X bytes ≡ not_empty X gct.subname =
          ap (λ (c : Capture). not_empty X c.subname) back ∙ not_empty-not_null X gct.subname in
        let meets : clash X T bytes u ≡ true = rw (sub, shares) refl in
        let fails : (put (clash X T) db (id ∷ []) bytes).1 ≡ false =
          T.put_clash (clash X T) db (id ∷ []) other bytes u there differs meets in
        let key : id_key X T gct.id ≡ id ∷ [] = ap (id_key X T) has_id in
        let after = (put (clash X T) db (id ∷ []) bytes).0 in
        (after, rw (made, key) (ap (λ b. some (after, b)) fails))
