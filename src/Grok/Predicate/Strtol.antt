-- ===== src/Grok/Predicate/Strtol.antt =====
-- `strtol` with base 0, as `grok_predicate_numcompare` calls it, on a 64-bit `long`.
use Prim.Native.Nat.{◌^◌}
use semicomplete_googlecode.Common.{
  ℕ, zero, suc, ◌+◌, ◌-◌, ◌*◌, ◌≤◌, ◌<◌, Bool, true, false, ◌&&◌, ◌||◌, List, [], ◌∷◌, arith, ltb,
  leb, ◌==◌, if◌then◌else◌, drop, inl, inr, Bool-cases,
}
use semicomplete_googlecode.Common.Int.{ℤ, pos, negsuc, pos_part, neg_part}

abbrev pub is_space : ℕ → Bool
is_space c = c == 32 || (leb 9 c && leb c 13)

abbrev pub digit_value : ℕ → ℕ
digit_value c =
    if leb b'0' c && leb c b'9'
    then c - b'0'
    else if leb b'a' c && leb c b'z'
    then c - b'a' + 10
    else if leb b'A' c && leb c b'Z'
    then c - b'A' + 10
    else 36

-- Digits of the base, up to the first byte that is none.
unfoldable pub magnitude : ℕ → ℕ → List ℕ → ℕ
magnitude base n [] = n
magnitude base n (c ∷ cs) =
    let more = magnitude base (n * base + digit_value c) cs in
    if ltb (digit_value c) base then more else n

abbrev pub next_is_hex : List ℕ → Bool
next_is_hex (x ∷ d ∷ cs) = (x == b'x' || x == b'X') && ltb (digit_value d) 16
next_is_hex _ = false

unfoldable pub unsigned : List ℕ → ℕ
unfolding magnitude
unsigned [] = 0
unsigned (c ∷ cs) =
    if c == b'0'
    then (if next_is_hex cs then magnitude 16 0 (drop 1 cs) else magnitude 8 0 cs)
    else magnitude 10 0 (c ∷ cs)

-- Out of range the result is the nearest `long`.
unfoldable pub signed : Bool → ℕ → ℤ
signed false n = if ltb n (2 ^ 63) then pos n else pos (2 ^ 63 - 1)
signed true zero = pos 0
signed true (suc n) = if ltb n (2 ^ 63) then negsuc n else negsuc (2 ^ 63 - 1)

unfoldable pub after_space : List ℕ → ℤ
after_space [] = pos 0
after_space (c ∷ cs) =
    if c == b'-'
    then signed true (unsigned cs)
    else if c == b'+'
    then signed false (unsigned cs)
    else signed false (unsigned (c ∷ cs))

unfoldable pub strtol : List ℕ → ℤ
strtol [] = pos 0
strtol (c ∷ cs) = let rest = strtol cs in if is_space c then rest else after_space (c ∷ cs)

abbrev pub InLong : ℤ → Type 0
InLong z = (pos_part z < 2 ^ 63) × (neg_part z ≤ 2 ^ 63)

signed-InLong : (b : Bool) (n : ℕ) → InLong (signed b n)
unfolding signed
signed-InLong false n = ground arith
signed-InLong true zero = omega arith
signed-InLong true (suc n) = ground arith

after_space-InLong : (cs : List ℕ) → InLong (after_space cs)
unfolding after_space
after_space-InLong [] = omega arith
after_space-InLong (c ∷ cs) = elim (Bool-cases (c == b'-')) [
  | inl minus ↦ rw minus (signed-InLong true (unsigned cs))
  | inr other ↦ elim (Bool-cases (c == b'+')) [
    | inl plus ↦ rw (other, plus) (signed-InLong false (unsigned cs))
    | inr digit ↦ rw (other, digit) (signed-InLong false (unsigned (c ∷ cs)))
  ]
]

-- Whatever the text, `strtol` yields a `long`.
pub strtol-InLong : (cs : List ℕ) → InLong (strtol cs)
unfolding strtol
strtol-InLong [] = omega arith
strtol-InLong (c ∷ cs) = elim (Bool-cases (is_space c)) [
  | inl space ↦ rw space (strtol-InLong cs)
  | inr start ↦ rw start (after_space-InLong (c ∷ cs))
]
