-- ===== src/Cuecat/Scans.antt =====
-- `process_code` and `decodecat` on a text that ends with its NUL.
use semicomplete_googlecode.Common.{
  ℕ, zero, suc, ◌≤◌, ◌<◌, ◌≡◌, refl, ◌∙◌, inl, inr, true, ◌&&◌, none, List, [], ◌∷◌, ◌++◌, arith,
  ◌==◌, Bool-cases, length, length-append,
}
use semicomplete_googlecode.Common.Returns.{Returns}
use semicomplete_googlecode.Cuecat.{
  Cat, Scan, alphabet, is_end, index_of, get_64, get_digit, get_byte, swallow_dot, print_code,
  process_tail, process_code, decodecat, get_cat,
}
use semicomplete_googlecode.Cuecat.Run.{
  Ends, Read, get_cat-Read, IsSteady, print_code-IsSteady, hold-print_code, Looped,
  process_loop-Looped, hold-get_cat, EndsNul,
}

-- Behind a field: at most 61 codes came out, `string` holds at most 78 of them, and no bits are held.
pub record Field (r : List ℕ × Cat) : Type 0 where
  pub ends : Ends r.1
  pub short : length r.1.string ≤ 78
  pub codes_few : length r.0 ≤ 61
  pub emptied : r.1.hold ≡ 0

swallow_dot-Read : (s : Cat) → Ends s → Returns (λ t. Read s t × (t.hold ≡ s.hold)) (swallow_dot s)
unfolding swallow_dot
swallow_dot-Read s e = elim (Bool-cases (s.c == b'.')) [
  | inl dot ↦
      let (t, got, read) = get_cat-Read s e (ground arith) in
      rw dot (t, got, (read, hold-get_cat s t got))
  | inr other ↦ rw other (s, refl, (record { ends = e; same_string = refl }, refl))
]

-- At an end no character is in the alphabet.
index_of-end : (c : ℕ) → is_end c ≡ true → index_of c alphabet ≡ none
unfolding index_of
index_of-end c h = elim (Bool-cases (c == b'.')) [
  | inl dot ↦ let e : c ≡ b'.' = ground arith in rw e refl
  | inr no_dot ↦ elim (Bool-cases (c == 10)) [
    | inl line ↦ let e : c ≡ 10 = ground arith in rw e refl
    | inr no_line ↦ let e : c ≡ 255 = ground arith in rw e refl
  ]
]

-- A byte that is asked for at an end reads nothing, and leaves no bits.
get_byte-end :
    (digit : ℕ) (s : Cat)
    → digit < 2
    → is_end s.c ≡ true
    → Returns
        (λ r. (r.1.hold ≡ 0) × (r.1.c ≡ s.c) × (r.1.rest ≡ s.rest) × (r.1.string ≡ s.string))
        (get_byte (suc digit) s)
unfolding get_byte get_digit get_64
get_byte-end zero s small stop = elim (Bool-cases (s.hold == 0 && is_end s.c)) [
  | inl idle ↦
      let empty : s.hold ≡ 0 = ground arith in rw idle ((0, s), refl, (empty, refl, refl, refl))
  | inr busy ↦ rw (busy, index_of-end s.c stop) (_, refl, (refl, refl, refl, refl))
]
get_byte-end (suc zero) s small stop = elim (Bool-cases (s.hold == 0 && is_end s.c)) [
  | inl idle ↦
      let empty : s.hold ≡ 0 = ground arith in rw idle ((0, s), refl, (empty, refl, refl, refl))
  | inr busy ↦ rw (busy, index_of-end s.c stop) (_, refl, (refl, refl, refl, refl))
]
get_byte-end (suc (suc n)) s small stop = absurd (omega arith)

process_tail-Field :
    (out : List ℕ) (digit : ℕ) (s : Cat)
    → Looped 60 (out, digit, s)
    → Returns Field (process_tail out digit s)
unfolding process_tail
process_tail-Field out zero s l =
    let (t, got, (read, held)) = swallow_dot-Read s l.steady.ends in
    rw got (
      _,
      refl,
      record {
        ends = read.ends;
        short = rw read.same_string l.steady.short;
        codes_few = omega (arith, l.codes_few);
        emptied = held ∙ l.emptied refl;
      },
    )
process_tail-Field out (suc digit) s l =
    let (b, got, (empty, same_c, same_rest, same_string)) =
      get_byte-end digit s (omega (arith, l.digit_small)) (l.stopped (omega arith)) in
    let steady : IsSteady b.1 = record {
      ends = rw (same_c, same_rest) l.steady.ends;
      short = rw same_string l.steady.short;
    } in
    let printed = print_code-IsSteady b.0 b.1 steady in
    let (t, swallowed, (read, held)) = swallow_dot-Read (print_code b.0 b.1) printed.ends in
    rw (got, swallowed)
      (
        _,
        refl,
        record {
          ends = read.ends;
          short = rw read.same_string printed.short;
          codes_few = omega (arith, l.codes_few, length-append out (b.0 ∷ []));
          emptied = held ∙ (hold-print_code b.0 b.1).0 ∙ empty;
        },
      )

process_code-Field : (s : Cat) → Ends s → s.hold ≡ 0 → Returns Field (process_code s)
process_code-Field s e empty =
    let start = record s { string = [] } in
    let (r, looped, l) =
      process_loop-Looped 60 0 start (record { ends = e; short = omega arith }) (omega arith)
        (λ z. empty) refl in
    let (f, done, field) = process_tail-Field r.0 r.1 r.2 l in
    unfold process_code in rw (looped) (f, done, field)

EndsNul-append : (x : ℕ) (text : List ℕ) → EndsNul (x ∷ (text ++ 0 ∷ []))
EndsNul-append x [] = refl
EndsNul-append x (y ∷ text) = EndsNul-append y text

-- The first character of a text.
get_cat-start :
    (text : List ℕ)
    → Returns
        (λ t. Ends t × (t.hold ≡ 0))
        (get_cat (record { c = 0; rest = text ++ 0 ∷ []; hold = 0; string = [] }))
unfolding get_cat
get_cat-start [] = (_, refl, (refl, refl))
get_cat-start (x ∷ text) = (_, refl, (EndsNul-append _ text, refl))

-- A record of the five fields of a scan.
pub record Few (r : Scan) : Type 0 where
  pub header : length r.header ≤ 61
  pub device : length r.device ≤ 61
  pub code_type : length r.code_type ≤ 61
  pub barcode : length r.barcode ≤ 61
  pub trailer : length r.trailer ≤ 61

-- `decodecat` on any text with a NUL behind it reads nothing behind that NUL and returns, with at
-- most 61 codes for each of the five fields.
pub decodecat_total : (text : List ℕ) → Returns Few (decodecat (text ++ 0 ∷ []))
decodecat_total text =
    let (s, started, (e, empty)) = get_cat-start text in
    let (f, h, header) = process_code-Field s e empty in
    let (g, d, device) = process_code-Field f.1 header.ends header.emptied in
    let (k, t, code_type) = process_code-Field g.1 device.ends device.emptied in
    let (b, o, barcode) = process_code-Field k.1 code_type.ends code_type.emptied in
    let (z, a, trailer) = process_code-Field b.1 barcode.ends barcode.emptied in
    unfold decodecat in
    rw (started, h, d, t, o, a)
      (
        _,
        refl,
        record {
          header = header.codes_few;
          device = device.codes_few;
          code_type = code_type.codes_few;
          barcode = barcode.codes_few;
          trailer = trailer.codes_few;
        },
      )
