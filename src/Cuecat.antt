-- ===== src/Cuecat.antt =====
-- The decoder of the CueCat's output, cuecat/decode.c.
-- The static variables are a state; `|` of disjoint bits is `+`, `<<` and `>>` are `*` and `/`.
mod Examples
pub mod Run
pub mod Scans
pub mod Groups
pub mod Written
use Prim.Native.Nat.{bit_xor}
use semicomplete_googlecode.Common.{
  ℕ, zero, suc, ◌+◌, ◌-◌, ◌*◌, ◌/◌, ◌%◌, Bool, ◌&&◌, ◌||◌, Option, none, some, List, [], ◌∷◌, ◌++◌,
  ltb, leb, ◌==◌, if◌then◌else◌, ◌>>=◌, codes, length, get_or,
}

-- `c`, what is behind it in `encstring`, the static `hold`, and `string`.
pub record Cat : Type 0 where
  pub c : ℕ
  pub rest : List ℕ
  pub hold : ℕ
  pub string : List ℕ

-- A read behind the end of `encstring` is a fault.
unfoldable pub get_cat : Cat → Option Cat
get_cat s = elim s.rest [
  | [] ↦ none
  | x ∷ xs ↦
      some (record s { c = if x == b'+' then b',' else if x == b'/' then b'-' else x; rest = xs })
]

abbrev pub alphabet : List ℕ
alphabet = codes "abcdefghijklmnopqrstuvwxyzABCDEFGHIJKLMNOPQRSTUVWXYZ0123456789,-"

-- The position of `c` in `map`.
unfoldable pub index_of : ℕ → List ℕ → Option ℕ
index_of c [] = none
index_of c (x ∷ xs) =
    let rest = index_of c xs in if x == c then some 0 else (do n ← rest; some (n + 1))

-- A character that is not in `map` counts 0 and stays.
abbrev pub advance : Option ℕ → Cat → Option (ℕ × Cat)
advance none s = some (0, s)
advance (some w) s = do t ← get_cat s; some (w, t)

unfoldable pub get_64 : Cat → Option (ℕ × Cat)
get_64 s = advance (index_of s.c alphabet) s

-- `'.'`, `'\n'` and `EOF`, which a byte of 255 equals.
abbrev pub is_end : ℕ → Bool
is_end c = c == b'.' || c == 10 || c == 255

abbrev pub xor_c : ℕ → ℕ
xor_c w = bit_xor w b'C'

-- The three cases of the switch: the bits that are held go in front.
unfoldable pub get_digit : ℕ → Cat → Option (ℕ × Cat)
get_digit zero s = do
  a ← get_64 s
  b ← get_64 a.1
  let t = b.1
  some (xor_c (a.0 * 4 + b.0 / 16 % 4), record t { hold = b.0 % 16 })
get_digit (suc zero) s = do
  b ← get_64 s
  let t = b.1
  some (xor_c (s.hold * 16 % 256 + b.0 / 4 % 16), record t { hold = b.0 % 4 })
get_digit (suc (suc zero)) s = do
  b ← get_64 s
  let t = b.1
  some (xor_c (s.hold * 64 % 256 + b.0 % 64), record t { hold = 0 })
get_digit _ s = some (0, s)

unfoldable pub get_byte : ℕ → Cat → Option (ℕ × Cat)
get_byte digit s = if s.hold == 0 && is_end s.c then some (0, s) else get_digit digit s

unfoldable pub swallow_dot : Cat → Option Cat
swallow_dot s = if s.c == b'.' then get_cat s else some s

-- `print_code`: `string` is the text in front of its first NUL, and holds 79 characters at most.
unfoldable pub push : ℕ → List ℕ → List ℕ
push code string =
    if code == 0 then string else if ltb (length string) 78 then string ++ code ∷ [] else string

unfoldable pub print_code : ℕ → Cat → Cat
print_code code s = record s { string = push code s.string }

-- The loop of `process_code` with `print_code`; the codes come back in order.
unfoldable pub process_loop : ℕ → ℕ → Cat → Option (List ℕ × ℕ × Cat)
unfolding print_code
process_loop zero digit s = some ([], digit, s)
process_loop (suc limit) digit s =
    let more = (do
      b ← get_byte digit s
      r ← process_loop limit ((digit + 1) % 3) (print_code b.0 b.1)
      some (b.0 ∷ r.0, r.1, r.2)) in
    if is_end s.c then some ([], digit, s) else more

-- What follows the loop: the byte that is left, and the dot.
unfoldable pub process_tail : List ℕ → ℕ → Cat → Option (List ℕ × Cat)
process_tail out zero s = do t ← swallow_dot s; some (out, t)
process_tail out (suc digit) s = do
  b ← get_byte (suc digit) s
  t ← swallow_dot (print_code b.0 b.1)
  some (out ++ b.0 ∷ [], t)

unfoldable pub process_code : Cat → Option (List ℕ × Cat)
unfolding process_loop process_tail swallow_dot
process_code s = do r ← process_loop 60 0 (record s { string = [] }); process_tail r.0 r.1 r.2

-- The fields of a scan, and what the cue's text is looked up by.
pub record Scan : Type 0 where
  pub header : List ℕ
  pub device : List ℕ
  pub code_type : List ℕ
  pub barcode : List ℕ
  pub cue : Option (List ℕ)
  pub trailer : List ℕ

-- `xlate` from the space to the tilde; with `strchr` the NUL behind them is found at 95.
unfoldable pub xlate : ℕ → Option ℕ
xlate c = if c == 0 then some 95 else if leb 32 c && leb c 126 then some (c - 32) else none

abbrev pub char_at : List ℕ → ℕ → ℕ
char_at xs i = get_or xs i 0

abbrev pub list_of : Option ℕ → List ℕ
list_of none = []
list_of (some n) = n ∷ []

unfoldable pub xlate_all : List ℕ → List ℕ
xlate_all [] = []
xlate_all (c ∷ cs) = list_of (xlate c) ++ xlate_all cs

unfoldable pub decodecat : List ℕ → Option Scan
decodecat encstring = do
  start ← get_cat (record { c = 0; rest = encstring; hold = 0; string = [] })
  header ← process_code start
  device ← process_code header.1
  code_type ← process_code device.1
  let kind = code_type.1.string
  barcode ← process_code code_type.1
  let is_cue = char_at kind 0 == b'C' && char_at kind 1 == b'C'
  let cue = list_of (xlate (char_at kind 2)) ++ xlate_all barcode.1.string
  trailer ← process_code barcode.1
  some (record {
    header = header.0;
    device = device.0;
    code_type = code_type.0;
    barcode = barcode.0;
    cue = if is_cue then some cue else none;
    trailer = trailer.0;
  })
