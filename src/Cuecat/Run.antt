-- ===== src/Cuecat/Run.antt =====
-- A scan always ends with a result: no read goes behind the NUL of the text, and the static
-- variables are as the next field expects them.
use semicomplete_googlecode.Common.{
  ℕ, ◌≡◌, refl, ◌≢◌, none, List, [], ◌∷◌, zero, suc, ◌<◌, ap, ◌∙◌, inl, inr, arith, Option-cases,
  ◌+◌, ◌%◌, ◌≤◌, true, ◌&&◌, ◌==◌, Bool-cases, length, length-append, some,
}
use semicomplete_googlecode.Common.Returns.{Returns}
use semicomplete_googlecode.Cuecat.{
  Cat, alphabet, get_cat, index_of, get_64, get_digit, is_end, get_byte, print_code, process_loop,
  push,
}

-- The last of the bytes is the NUL.
abbrev pub EndsNul : List ℕ → Type 0
EndsNul [] = ⊥
EndsNul (x ∷ []) = x ≡ 0
EndsNul (x ∷ y ∷ ys) = EndsNul (y ∷ ys)

abbrev pub Ends : Cat → Type 0
Ends s = EndsNul (s.c ∷ s.rest)

EndsNul-head : (x y : ℕ) (ys : List ℕ) → (y ≡ 0 → x ≡ 0) → EndsNul (y ∷ ys) → EndsNul (x ∷ ys)
EndsNul-head x y [] h e = h e
EndsNul-head x y (z ∷ ys) h e = e

-- `t` is further in the text than `s`, with the same `string`.
pub record Read (s t : Cat) : Type 0 where
  pub ends : Ends t
  pub same_string : t.string ≡ s.string

pub get_cat-Read : (s : Cat) → Ends s → s.c ≢ 0 → Returns (Read s) (get_cat s)
get_cat-Read s e h = go s.rest e refl
  where
    go : (rest : List ℕ) → EndsNul (s.c ∷ rest) → s.rest ≡ rest → Returns (Read s) (get_cat s)
    go [] e' p = absurd (h e')
    go (x ∷ xs) e' p =
        unfold get_cat in
        rw p
          (_, refl, record { ends = EndsNul-head _ x xs (λ z. rw z refl) e'; same_string = refl })

index_of-nul : index_of 0 alphabet ≡ none
unfolding index_of
index_of-nul = refl

get_64-Read : (s : Cat) → Ends s → Returns (λ r. Read s r.1) (get_64 s)
unfolding get_64
get_64-Read s e = elim (Option-cases (index_of s.c alphabet)) [
  | inl absent ↦ rw absent ((0, s), refl, record { ends = e; same_string = refl })
  | inr (w, there) ↦
      let (t, got, read) =
        get_cat-Read s e (λ z. cc (ap (λ c. index_of c alphabet) z, index_of-nul)) in
      rw (there, got) ((w, t), refl, read)
]

-- One byte: the bits that the last of three leaves are none.
pub record Byte (digit : ℕ) (s : Cat) (r : ℕ × Cat) : Type 0 where
  pub ends : Ends r.1
  pub same_string : r.1.string ≡ s.string
  pub emptied : digit ≡ 2 → r.1.hold ≡ 0

get_digit-Byte :
    (digit : ℕ) (s : Cat) → Ends s → digit < 3 → Returns (Byte digit s) (get_digit digit s)
unfolding get_digit
get_digit-Byte zero s e h =
    let (a, got_a, read_a) = get_64-Read s e in
    let (b, got_b, read_b) = get_64-Read a.1 read_a.ends in
    rw (got_a, got_b)
      (
        _,
        refl,
        record {
          ends = read_b.ends;
          same_string = read_b.same_string ∙ read_a.same_string;
          emptied = λ z. absurd (omega arith);
        },
      )
get_digit-Byte (suc zero) s e h =
    let (b, got_b, read_b) = get_64-Read s e in
    rw got_b (
      _,
      refl,
      record {
        ends = read_b.ends;
        same_string = read_b.same_string;
        emptied = λ z. absurd (omega arith);
      },
    )
get_digit-Byte (suc (suc zero)) s e h =
    let (b, got_b, read_b) = get_64-Read s e in
    rw got_b (
      _,
      refl,
      record { ends = read_b.ends; same_string = read_b.same_string; emptied = λ z. refl },
    )
get_digit-Byte (suc (suc (suc n))) s e h = absurd (omega arith)

get_byte-Byte :
    (digit : ℕ) (s : Cat) → Ends s → digit < 3 → Returns (Byte digit s) (get_byte digit s)
unfolding get_byte
get_byte-Byte digit s e h = elim (Bool-cases (s.hold == 0 && is_end s.c)) [
  | inl idle ↦
      let empty : s.hold ≡ 0 = ground arith in
      rw idle ((0, s), refl, record { ends = e; same_string = refl; emptied = λ z. empty })
  | inr busy ↦ rw busy (get_digit-Byte digit s e h)
]

-- The bounds that hold between two bytes.
pub record IsSteady (s : Cat) : Type 0 where
  pub ends : Ends s
  pub short : length s.string ≤ 78

length-push : (code : ℕ) (string : List ℕ) → length string ≤ 78 → length (push code string) ≤ 78
unfolding push
length-push code string h = ground (arith, length-append string (code ∷ []))

pub print_code-IsSteady : (code : ℕ) (s : Cat) → IsSteady s → IsSteady (print_code code s)
unfolding print_code
print_code-IsSteady code s v = record { ends = v.ends; short = length-push code s.string v.short }

pub hold-print_code :
    (code : ℕ) (s : Cat) → ((print_code code s).hold ≡ s.hold) × ((print_code code s).c ≡ s.c)
unfolding print_code
hold-print_code code s = (refl, refl)

-- The loop: a digit is left only in front of an end, and with no digit left no bits are held.
pub record Looped (limit : ℕ) (r : List ℕ × ℕ × Cat) : Type 0 where
  pub steady : IsSteady r.2
  pub digit_small : r.1 < 3
  pub codes_few : length r.0 ≤ limit
  pub emptied : r.1 ≡ 0 → r.2.hold ≡ 0
  pub stopped : r.1 ≢ 0 → is_end r.2.c ≡ true

pub process_loop-Looped :
    (limit digit : ℕ) (s : Cat)
    → IsSteady s
    → digit < 3
    → (digit ≡ 0 → s.hold ≡ 0)
    → (digit + limit) % 3 ≡ 0
    → Returns (Looped limit) (process_loop limit digit s)
unfolding process_loop
process_loop-Looped zero digit s v small empty round = (
  _,
  refl,
  record {
    steady = v;
    digit_small = small;
    codes_few = omega arith;
    emptied = empty;
    stopped = λ h. absurd (h (omega arith));
  },
)
process_loop-Looped (suc limit) digit s v small empty round = elim (Bool-cases (is_end s.c)) [
  | inl stop ↦ rw stop (
    _,
    refl,
    record {
      steady = v;
      digit_small = small;
      codes_few = omega arith;
      emptied = empty;
      stopped = λ h. stop;
    },
  )
  | inr go ↦
      let (b, got, byte) = get_byte-Byte digit s v.ends small in
      let t = print_code b.0 b.1 in
      let steady : IsSteady b.1 = record {
        ends = byte.ends;
        short = rw byte.same_string v.short;
      } in
      let (r, looped, l) =
        process_loop-Looped limit ((digit + 1) % 3) t (print_code-IsSteady b.0 b.1 steady)
          (omega arith) (λ z. (hold-print_code b.0 b.1).0 ∙ byte.emptied (omega arith))
          (omega arith) in
      rw (go, got, looped)
        (
          _,
          refl,
          record {
            steady = l.steady;
            digit_small = l.digit_small;
            codes_few = omega (arith, l.codes_few);
            emptied = l.emptied;
            stopped = l.stopped;
          },
        )
]

pub hold-get_cat : (s t : Cat) → get_cat s ≡ some t → t.hold ≡ s.hold
unfolding get_cat
hold-get_cat s t h = ground arith
