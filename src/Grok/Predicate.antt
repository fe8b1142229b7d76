-- ===== src/Grok/Predicate.antt =====
-- The predicates of tags/grok/20090928/predicates.c, and the choice among them of
-- `grok_capture_add_predicate` in grokre.c. The `return`s of 0 and 1 are kept.
mod Examples
pub mod Strtol
pub mod Text
pub mod Numbers
pub mod Choice
use Prim.Native.Nat.{Ordering}
use semicomplete_googlecode.Common.{
  ℕ, zero, suc, ◌-◌, Bool, true, false, Option, none, some, List, [], ◌∷◌, ltb, ◌==◌, if◌then◌else◌,
  ◌>>=◌, drop,
}

-- `enum operation`; the -1 of `strop` is `none`.
pub data Operation : Type 0 where
  op_lt op_gt op_ge op_le op_eq op_ne : Operation

-- The second character counts only inside of `args_len`.
abbrev pub second_is_equals : List ℕ → Bool
second_is_equals [] = false
second_is_equals (c ∷ cs) = c == b'='

abbrev pub strop_at : ℕ → Bool → Option Operation
strop_at c equals =
    if c == b'<'
    then some (if equals then op_le else op_lt)
    else if c == b'>'
    then some (if equals then op_ge else op_gt)
    else if c == b'='
    then (if equals then some op_eq else none)
    else if c == b'!'
    then (if equals then some op_ne else none)
    else none

-- `args` holds the `args_len` bytes.
unfoldable pub strop : List ℕ → Option Operation
strop [] = none
strop (c ∷ cs) = strop_at c (second_is_equals cs)

-- `OP_LEN`: the -1 is neither `OP_GT` nor `OP_LT`.
unfoldable pub op_len : Option Operation → ℕ
op_len (some op_gt) = 1
op_len (some op_lt) = 1
op_len (some op_ge) = 2
op_len (some op_le) = 2
op_len (some op_eq) = 2
op_len (some op_ne) = 2
op_len none = 2

-- The test of each case of `OP_RUN`, by the sign of `cmpval`.
abbrev pub op_holds : Operation → Ordering → Bool
op_holds op_lt s = elim s [ Ordering.lt ↦ true | _ ↦ false ]
op_holds op_gt s = elim s [ Ordering.gt ↦ true | _ ↦ false ]
op_holds op_ge s = elim s [ Ordering.lt ↦ false | _ ↦ true ]
op_holds op_le s = elim s [ Ordering.gt ↦ false | _ ↦ true ]
op_holds op_eq s = elim s [ Ordering.eq ↦ true | _ ↦ false ]
op_holds op_ne s = elim s [ Ordering.eq ↦ false | _ ↦ true ]

-- `OP_RUN`: 0 is success; with no operation the variable keeps its value.
unfoldable pub op_run : Option Operation → Ordering → ℕ → ℕ
op_run (some op) s old = if op_holds op s then 0 else 1
op_run none s old = old

-- `strncmp` over two blocks; a read behind a block is a fault.
unfoldable pub strncmp : List ℕ → List ℕ → ℕ → Option Ordering
strncmp xs ys zero = some Ordering.eq
strncmp [] ys (suc n) = none
strncmp (x ∷ xs) [] (suc n) = none
strncmp (x ∷ xs) (y ∷ ys) (suc n) =
    let rest = strncmp xs ys n in
    if ltb x y
    then some Ordering.lt
    else if ltb y x
    then some Ordering.gt
    else if x == 0
    then some Ordering.eq
    else rest

-- `grok_predicate_strcompare_t`; `value` is a block of `len` bytes with no NUL behind it.
pub record StrCompare : Type 0 where
  pub op : Option Operation
  pub value : List ℕ

-- The first character is the `$`.
unfoldable pub strcompare_init : List ℕ → StrCompare
strcompare_init args =
    let rest = drop 1 args in record { op = strop rest; value = drop (op_len (strop rest)) rest }

unfoldable pub strcompare : StrCompare → List ℕ → ℕ → ℕ → Option ℕ
strcompare p subject start end = do
  s ← strncmp (drop start subject) p.value (end - start)
  some (op_run p.op s 0)
