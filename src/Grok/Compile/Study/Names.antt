-- ===== src/Grok/Compile/Study/Names.antt =====
-- `sscanf` by "%04x" reads the name that `snprintf` writes by it, tags/grok/20090928/grokre.c.
use semicomplete_googlecode.Common.{
  ℕ, ◌+◌, ◌*◌, ◌/◌, ◌%◌, ◌<◌, ◌≡◌, some, List, [], ◌∷◌, ◌++◌, arith, ◌==◌, ◌||◌, false, refl, Bool,
  true, ◌&&◌, lt→ltb, suc, ap, ◌∙◌, Option, none,
}
use semicomplete_googlecode.Grok.Expand.{capture_id_str, hex_char}
use semicomplete_googlecode.Grok.Compile.{or_zero, hex_value, scan_field, sscanf, scan_digits}

hex_value-hex_char : (d : ℕ) → d < 16 → hex_value (hex_char d) ≡ some d
unfolding hex_value
hex_value-hex_char d h = ground arith

not_prefix : (d : ℕ) → d < 16 → (hex_char d == b'x' || hex_char d == b'X') ≡ false
not_prefix d h = ground arith

false_right : (x : Bool) → (x && false) ≡ false
false_right true = refl
false_right false = refl

capture_id_str_lem :
    (id : ℕ)
    → id < 65536
    → capture_id_str id
      ≡ hex_char (id / 4096)
        ∷ hex_char (id / 256 % 16)
        ∷ hex_char (id / 16 % 16)
        ∷ hex_char (id % 16)
        ∷ []
unfolding capture_id_str
capture_id_str_lem id h = rw (lt→ltb id 65536 h) refl

scan_digits-hex_char :
    (width : ℕ) (sofar : Option ℕ) (d : ℕ) (rest : List ℕ)
    → d < 16
    → scan_digits (suc width) sofar (hex_char d ∷ rest)
      ≡ scan_digits width (some (or_zero sofar * 16 + d)) rest
unfolding scan_digits
scan_digits-hex_char width sofar d rest h =
    ap
      (λ (o : Option ℕ). elim o [
        | none ↦ sofar
        | some e ↦ scan_digits width (some (or_zero sofar * 16 + e)) rest
      ])
      (hex_value-hex_char d h)

scan_four :
    (a b c d : ℕ) (rest : List ℕ)
    → a < 16
    → b < 16
    → c < 16
    → d < 16
    → scan_field (hex_char a ∷ hex_char b ∷ hex_char c ∷ hex_char d ∷ rest)
      ≡ some ((((0 + a) * 16 + b) * 16 + c) * 16 + d)
unfolding scan_field
scan_four a b c d rest ha hb hc hd =
    let plain : (hex_char a == b'0' && (hex_char b == b'x' || hex_char b == b'X')) ≡ false =
      rw (not_prefix b hb) (false_right (hex_char a == b'0')) in
    rw plain (
      scan_digits-hex_char 3 none a (hex_char b ∷ hex_char c ∷ hex_char d ∷ rest) ha
      ∙ scan_digits-hex_char 2 _ b (hex_char c ∷ hex_char d ∷ rest) hb
      ∙ scan_digits-hex_char 1 _ c (hex_char d ∷ rest) hc
      ∙ scan_digits-hex_char 0 _ d rest hd)

pub sscanf-capture_id_str :
    (was id : ℕ) (rest : List ℕ) → id < 65536 → sscanf was (capture_id_str id ++ rest) ≡ id
unfolding sscanf
sscanf-capture_id_str was id rest h =
    let four =
      scan_four (id / 4096) (id / 256 % 16) (id / 16 % 16) (id % 16) rest (omega arith)
        (omega arith) (omega arith) (omega arith) in
    ap (λ cs. sscanf was (cs ++ rest)) (capture_id_str_lem id h)
    ∙ ap (λ (o : Option ℕ). elim o [ none ↦ was | some n ↦ n ]) four
    ∙ omega arith
