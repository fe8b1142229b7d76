-- ===== src/Grok/Capture/Tables.antt =====
-- What grok_capture.c of tags/grok/20090928 uses of Berkeley DB: a table with secondary indexes, as
-- its manual describes them. A secondary finds a record whose index is the key, if there is one. A
-- secondary that allows no duplicates makes a `put` fail that would give it a second record with one
-- key: `clash` tells of two records whether they have such a key in common, and `put` whether it
-- succeeded.
use semicomplete_googlecode.Common.{
  ℕ, ◌≡◌, ◌≢◌, Option, none, some, List, if◌then◌else◌, refl, ap, ◌∙◌, inl, inr, Bool, true, false,
  [], ◌∷◌, Bool-cases, Option-cases, not, ◌&&◌, ◌||◌,
}
use semicomplete_googlecode.Grok.Database.{same_key, same_key_refl, same_key→eq, find}

pub record Table (V : Type 0) : Type 1 where
  pub Db : Type 0
  pub empty : Db
  pub put : (V → V → Bool) → Db → List ℕ → V → Db × Bool
  pub get : Db → List ℕ → Option V
  pub secondary : (V → Option (List ℕ)) → Db → List ℕ → Option V
  pub get-put :
      (clash : V → V → Bool) (db : Db) (k j : List ℕ) (v : V)
      → (put clash db k v).1 ≡ true
      → get (put clash db k v).0 j ≡ (if same_key k j then some v else get db j)
  pub put_alone :
      (clash : V → V → Bool) (db : Db) (k : List ℕ) (v : V)
      → ((j : List ℕ) (u : V) → get db j ≡ some u → same_key k j ≡ false → clash v u ≡ false)
      → (put clash db k v).1 ≡ true
  pub put_clash :
      (clash : V → V → Bool) (db : Db) (k j : List ℕ) (v u : V)
      → get db j ≡ some u
      → same_key k j ≡ false
      → clash v u ≡ true
      → (put clash db k v).1 ≡ false
  pub get-empty : (k : List ℕ) → get empty k ≡ none
  pub secondary_sound :
      (index : V → Option (List ℕ)) (db : Db) (k : List ℕ) (v : V)
      → secondary index db k ≡ some v
      → ((id : List ℕ) × (get db id ≡ some v)) × (index v ≡ some k)
  pub secondary_complete :
      (index : V → Option (List ℕ)) (db : Db) (id k : List ℕ) (v : V)
      → get db id ≡ some v
      → index v ≡ some k
      → secondary index db k ≢ none

-- An association list has these laws; a secondary looks through its keys.
abbrev pub matches : Option (List ℕ) → List ℕ → Bool
matches none k = false
matches (some j) k = same_key j k

matches_sound : (o : Option (List ℕ)) (k : List ℕ) → matches o k ≡ true → o ≡ some k
matches_sound none k h = cc
matches_sound (some j) k h = ap (λ i. some i) (same_key→eq j k h)

or_true : (b : Bool) → (b || true) ≡ true
or_true true = refl
or_true false = refl

module _ {V : Type 0} (index : V → Option (List ℕ)) (k : List ℕ) where
  abbrev pub pick : Option V → Option V → Option V
  pick none next = next
  pick (some v) next = if matches (index v) k then some v else next

  unfoldable pub search : List (List ℕ × V) → List (List ℕ × V) → Option V
  search full [] = none
  search full ((id, v) ∷ db) = pick (find full id) (search full db)

  pub search_sound :
      (full db : List (List ℕ × V)) (v : V)
      → search full db ≡ some v
      → ((id : List ℕ) × (find full id ≡ some v)) × (index v ≡ some k)
  unfolding search
  search_sound full [] v h = cc
  search_sound full ((id, w) ∷ db) v h = elim (Option-cases (find full id)) [
    | inl missing ↦ search_sound full db v (rw missing at h)
    | inr (u, there) ↦ elim (Bool-cases (matches (index u) k)) [
      | inl hit ↦
          let same : some u ≡ some v = rw (there, hit) at h in
          ((id, there ∙ same), ap index (let e : v ≡ u = cc in e) ∙ matches_sound (index u) k hit)
      | inr miss ↦ search_sound full db v (rw (there, miss) at h)
    ]
  ]

  pub search_complete :
      (full db : List (List ℕ × V)) (id : List ℕ) (v u : V)
      → find db id ≡ some u
      → find full id ≡ some v
      → index v ≡ some k
      → search full db ≢ none
  unfolding search find
  search_complete full [] id v u there live indexed h = cc
  search_complete full ((j, w) ∷ db) id v u there live indexed h =
      elim (Bool-cases (same_key j id)) [
        | inl same ↦
            let e : j ≡ id = same_key→eq j id same in
            let there_k : find full j ≡ some v = ap (find full) e ∙ live in
            let clash : some v ≡ none = rw (there_k, indexed, same_key_refl k) at h in cc
        | inr other ↦ elim (Option-cases (find full j)) [
          | inl missing ↦
              search_complete full db id v u (rw other at there) live indexed (rw missing at h)
          | inr (x, found) ↦ elim (Bool-cases (matches (index x) k)) [
            | inl hit ↦ let clash : some x ≡ none = rw (found, hit) at h in cc
            | inr miss ↦
                search_complete full db id v u (rw other at there) live indexed
                  (rw (found, miss) at h)
          ]
        ]
      ]

-- A record under another key that clashes.
module _ {V : Type 0} (clash : V → V → Bool) (k : List ℕ) (v : V) where
  abbrev pub clash_at : List ℕ → Option V → Bool
  clash_at j none = false
  clash_at j (some u) = not (same_key k j) && clash v u

  unfoldable pub clashing : List (List ℕ × V) → List (List ℕ × V) → Bool
  clashing full [] = false
  clashing full ((j, w) ∷ db) = clash_at j (find full j) || clashing full db

  pub clashing_none :
      (full db : List (List ℕ × V))
      → ((j : List ℕ) (u : V) → find full j ≡ some u → same_key k j ≡ false → clash v u ≡ false)
      → clashing full db ≡ false
  unfolding clashing
  clashing_none full [] h = refl
  clashing_none full ((j, w) ∷ db) h =
      let rest = clashing_none full db h in
      elim (Option-cases (find full j)) [
        | inl missing ↦ rw (missing, rest) refl
        | inr (u, there) ↦ elim (Bool-cases (same_key k j)) [
          | inl same ↦ rw (there, same, rest) refl
          | inr other ↦ rw (there, other, h j u there other, rest) refl
        ]
      ]

  pub clashing_there :
      (full db : List (List ℕ × V)) (j : List ℕ) (u w : V)
      → find db j ≡ some w
      → find full j ≡ some u
      → same_key k j ≡ false
      → clash v u ≡ true
      → clashing full db ≡ true
  unfolding clashing find
  clashing_there full [] j u w in_db there other meets = cc
  clashing_there full ((i, x) ∷ db) j u w in_db there other meets =
      elim (Bool-cases (same_key i j)) [
        | inl same ↦ let e : i ≡ j = same_key→eq i j same in rw (e, there, other, meets) refl
        | inr apart ↦
            let rest = clashing_there full db j u w (rw apart at in_db) there other meets in
            rw rest (or_true (clash_at i (find full i)))
      ]

-- The data behind an operation, if it failed, is what it was.
abbrev pub put_unless :
    {V : Type 0} → Bool → List (List ℕ × V) → List (List ℕ × V) → List (List ℕ × V) × Bool
put_unless true old new = (old, false)
put_unless false old new = (new, true)

pub put_unless_lem :
    {V : Type 0} (b : Bool) (old new : List (List ℕ × V))
    → (put_unless b old new).1 ≡ true
    → (put_unless b old new).0 ≡ new
put_unless_lem true old new h = cc
put_unless_lem false old new h = refl

abbrev pub assoc_table : (V : Type 0) → Table V
unfolding find
assoc_table V = record {
  Db = List (List ℕ × V);
  empty = [];
  put = λ clash db k v. put_unless (clashing clash k v db db) db ((k, v) ∷ db);
  get = find;
  secondary = λ index db k. search index k db db;
  get-put = λ clash db k j v done.
      ap (λ l. find l j) (put_unless_lem (clashing clash k v db db) db ((k, v) ∷ db) done);
  put_alone = λ clash db k v alone. rw (clashing_none clash k v db db alone) refl;
  put_clash = λ clash db k j v u there other meets.
      rw (clashing_there clash k v db db j u u there there other meets) refl;
  get-empty = λ k. refl;
  secondary_sound = λ index db k v h. search_sound index k db db v h;
  secondary_complete =
      λ index db id k v there indexed. search_complete index k db db id v v there there indexed;
}
