-- ===== src/Grok/Database.antt =====
-- What grok uses of Berkeley DB: an in-memory table with `put` and `get`. The library is not part of
-- the repository, so it is a parameter; `get-put` is what its manual says of an overwriting `put`.
use semicomplete_googlecode.Common.{
  ℕ, ◌≡◌, refl, Bool, true, false, ◌&&◌, Option, none, some, List, [], ◌∷◌, arith, ◌==◌,
  if◌then◌else◌,
}

-- Equal keys are keys of the same bytes.
unfoldable pub same_key : List ℕ → List ℕ → Bool
same_key [] [] = true
same_key [] (y ∷ ys) = false
same_key (x ∷ xs) [] = false
same_key (x ∷ xs) (y ∷ ys) = x == y && same_key xs ys

pub record Database (V : Type 0) : Type 1 where
  pub Db : Type 0
  pub empty : Db
  pub put : Db → List ℕ → V → Db
  pub get : Db → List ℕ → Option V
  pub get-empty : (k : List ℕ) → get empty k ≡ none
  pub get-put :
      (db : Db) (k j : List ℕ) (v : V)
      → get (put db k v) j ≡ (if same_key k j then some v else get db j)

pub same_key_refl : (k : List ℕ) → same_key k k ≡ true
unfolding same_key
same_key_refl [] = refl
same_key_refl (x ∷ k) = ground (arith, same_key_refl k)

pub same_key→eq : (k j : List ℕ) → same_key k j ≡ true → k ≡ j
unfolding same_key
same_key→eq [] [] h = refl
same_key→eq [] (y ∷ j) h = cc
same_key→eq (x ∷ k) [] h = cc
same_key→eq (x ∷ k) (y ∷ j) h = ground (arith, same_key→eq k j)

-- An association list has these laws.
module _ {V : Type 0} where
  unfoldable pub find : List (List ℕ × V) → List ℕ → Option V
  find [] j = none
  find ((k, v) ∷ db) j = if same_key k j then some v else find db j

abbrev pub assoc : (V : Type 0) → Database V
unfolding find
assoc V = record {
  Db = List (List ℕ × V);
  empty = [];
  put = λ db k v. (k, v) ∷ db;
  get = find;
  get-empty = λ k. refl;
  get-put = λ db k j v. refl;
}
