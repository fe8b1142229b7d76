-- ===== src/Cuecat/Groups.antt =====
-- Fields that are written in groups of three bytes, four letters each, and how a group is read.
use mathlib.Core.Bool.{and-false}
use semicomplete_googlecode.Common.{
  ℕ, zero, suc, ◌+◌, ◌<◌, ◌≤◌, ◌≡◌, refl, Bool, true, false, not, ◌&&◌, Option, none, some, arith,
  ltb, ◌==◌, get_or, ◌*◌, ◌/◌, ◌%◌, List, ◌∷◌, ◌>>=◌, if◌then◌else◌, codes,
}
use semicomplete_googlecode.Cuecat.{
  alphabet, xor_c, index_of, Cat, get_cat, get_64, get_digit, get_byte, push, print_code,
  process_loop,
}

-- The values from `first` on, so many of them, pass the test.
check_range : (ℕ → Bool) → ℕ → ℕ → Bool
check_range test zero first = true
check_range test (suc count) first =
    let more = check_range test count (first + 1) in test first && more

check_range-true :
    (test : ℕ → Bool) (count first v : ℕ)
    → check_range test count first ≡ true
    → first ≤ v
    → v < first + count
    → test v ≡ true
unfolding check_range
check_range-true test zero first v e lo hi = absurd (omega (arith, lo, hi))
check_range-true test (suc count) first v e lo hi =
    ground (arith, check_range-true test count (first + 1) v)

-- The letters that a reader writes for six bits.
abbrev pub reader_alphabet : List ℕ
reader_alphabet = codes "abcdefghijklmnopqrstuvwxyzABCDEFGHIJKLMNOPQRSTUVWXYZ0123456789+/"

unfoldable pub letter : ℕ → ℕ
letter v = get_or reader_alphabet v 0

-- What `get_cat` makes of a character.
abbrev pub read_as : ℕ → ℕ
read_as x = if x == b'+' then b',' else if x == b'/' then b'-' else x

-- What the decoder asks of a letter.
pub record Stands (l v : ℕ) : Type 0 where
  pub found : index_of (read_as l) alphabet ≡ some v
  pub no_dot : (read_as l == b'.') ≡ false
  pub no_newline : (read_as l == 10) ≡ false
  pub no_eof : (read_as l == 255) ≡ false

abbrev is_letter_of : ℕ → Bool
is_letter_of v =
    elim (index_of (read_as (letter v)) alphabet) [ none ↦ false | some w ↦ w == v ]
    && (not (read_as (letter v) == b'.')
        && (not (read_as (letter v) == 10) && not (read_as (letter v) == 255)))

letters_table : check_range is_letter_of 64 0 ≡ true
unfolding check_range index_of letter
letters_table = refl

found_by :
    (o : Option ℕ) (v : ℕ) (more : Bool)
    → (elim o [ none ↦ false | some w ↦ w == v ] && more) ≡ true
    → (o ≡ some v) × (more ≡ true)
found_by none v more e = cc
found_by (some w) v more e = (ground arith, ground arith)

pub letter-Stands : (v : ℕ) → v < 64 → Stands (letter v) v
letter-Stands v h =
    let (found, rest) =
      found_by (index_of (read_as (letter v)) alphabet) v _
        (check_range-true is_letter_of 64 0 v letters_table (omega arith) h) in
    record {
      found = found;
      no_dot = ground arith;
      no_newline = ground arith;
      no_eof = ground arith;
    }

xor_table : check_range (λ x. xor_c (xor_c x) == x && ltb (xor_c x) 256) 256 0 ≡ true
unfolding check_range
xor_table = refl

pub xor_c_twice : (x : ℕ) → x < 256 → (xor_c (xor_c x) ≡ x) × (xor_c x < 256)
xor_c_twice x h =
    let t =
      check_range-true (λ y. xor_c (xor_c y) == y && ltb (xor_c y) 256) 256 0 x xor_table
        (omega arith) h in
    ground arith

-- The decoder at a character that was read.
abbrev pub cat_at : ℕ → List ℕ → ℕ → List ℕ → Cat
cat_at c rest hold string = record { c = read_as c; rest = rest; hold = hold; string = string }

get_64-Stands :
    (l v r : ℕ) (rs : List ℕ) (hold : ℕ) (string : List ℕ)
    → Stands l v
    → get_64 (cat_at l (r ∷ rs) hold string) ≡ some (v, cat_at r rs hold string)
unfolding get_64 get_cat
get_64-Stands l v r rs hold string s = rw s.found refl

-- A byte goes in front of what the rest of the loop yields.
abbrev in_front : ℕ → Option (List ℕ × ℕ × Cat) → Option (List ℕ × ℕ × Cat)
in_front x o = do q ← o; some (x ∷ q.0, q.1, q.2)

abbrev pub three_more : ℕ → ℕ → ℕ → Option (List ℕ × ℕ × Cat) → Option (List ℕ × ℕ × Cat)
three_more x y z o = do q ← o; some (x ∷ y ∷ z ∷ q.0, q.1, q.2)

in_front_thrice :
    (o : Option (List ℕ × ℕ × Cat)) (x y z : ℕ)
    → in_front x (in_front y (in_front z o)) ≡ three_more x y z o
in_front_thrice none x y z = refl
in_front_thrice (some q) x y z = refl

-- One group in front of `r`: three rounds of the loop.
module _ (k l m n a b c d r : ℕ) (rs : List ℕ) (sk : Stands k a) (sl : Stands l b) (sm : Stands m c)
    (sn : Stands n d) where
  abbrev pub first_byte : ℕ
  first_byte = xor_c (a * 4 + b / 16 % 4)

  abbrev pub second_byte : ℕ
  second_byte = xor_c (b % 16 * 16 % 256 + c / 4 % 16)

  abbrev pub third_byte : ℕ
  third_byte = xor_c (c % 4 * 64 % 256 + d % 64)

  get_byte-first :
      (string : List ℕ)
      → get_byte 0 (cat_at k (l ∷ m ∷ n ∷ r ∷ rs) 0 string)
        ≡ some (first_byte, cat_at m (n ∷ r ∷ rs) (b % 16) string)
  unfolding get_byte get_digit
  get_byte-first string =
      rw
        (
          sk.no_dot,
          sk.no_newline,
          sk.no_eof,
          get_64-Stands k a l (m ∷ n ∷ r ∷ rs) 0 string sk,
          get_64-Stands l b m (n ∷ r ∷ rs) 0 string sl,
        )
        refl

  get_byte-second :
      (string : List ℕ)
      → get_byte 1 (cat_at m (n ∷ r ∷ rs) (b % 16) string)
        ≡ some (second_byte, cat_at n (r ∷ rs) (c % 4) string)
  unfolding get_byte get_digit
  get_byte-second string =
      rw (sm.no_dot, sm.no_newline, sm.no_eof, get_64-Stands m c n (r ∷ rs) (b % 16) string sm)
        (rw (and-false (b % 16 == 0)) refl)

  get_byte-third :
      (string : List ℕ)
      → get_byte 2 (cat_at n (r ∷ rs) (c % 4) string) ≡ some (third_byte, cat_at r rs 0 string)
  unfolding get_byte get_digit
  get_byte-third string =
      rw (sn.no_dot, sn.no_newline, sn.no_eof, get_64-Stands n d r rs (c % 4) string sn)
        (rw (and-false (c % 4 == 0)) refl)

  pub process_loop-group :
      (limit : ℕ) (string : List ℕ)
      → process_loop (suc (suc (suc limit))) 0 (cat_at k (l ∷ m ∷ n ∷ r ∷ rs) 0 string)
        ≡ three_more first_byte second_byte third_byte (
            process_loop limit 0
              (cat_at r rs 0 (push third_byte (push second_byte (push first_byte string)))))
  unfolding process_loop
  process_loop-group limit string =
      rw
        (
          sk.no_dot,
          sk.no_newline,
          sk.no_eof,
          get_byte-first string,
          sm.no_dot,
          sm.no_newline,
          sm.no_eof,
          get_byte-second (push first_byte string),
          sn.no_dot,
          sn.no_newline,
          sn.no_eof,
          get_byte-third (push second_byte (push first_byte string)),
        )
        (unfold print_code in in_front_thrice _ first_byte second_byte third_byte)
