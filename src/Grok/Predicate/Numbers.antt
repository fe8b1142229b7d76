-- ===== src/Grok/Predicate/Numbers.antt =====
-- `grok_predicate_numcompare_init` and `grok_predicate_numcompare`. Floating point numbers and
-- `strtod` are parameters: `sign` is the sign of the difference of two numbers, and `none` where
-- that is not a number.
use Prim.Native.Nat.{Ordering, ◌^◌}
use semicomplete_googlecode.Common.{
  ℕ, zero, suc, ◌+◌, ◌-◌, ◌%◌, Bool, false, ◌||◌, Option, some, none, ◌≢◌, List, [], ◌∷◌, ltb, ◌==◌,
  if◌then◌else◌, ◌>>=◌, get_elem?, set, take, drop, ◌≤◌, ◌<◌, ◌≡◌, refl, arith, ltb-false, length,
  ap, get_elem?_inside, set-set_back,
}
use semicomplete_googlecode.Common.Int.{ℤ, pos, negsuc, pos_part, neg_part}
use semicomplete_googlecode.Grok.Predicate.Strtol.{strtol, strtol-InLong}
use semicomplete_googlecode.Grok.Predicate.{
  Operation, strop, op_len, op_run, op_lt, op_gt, op_ge, op_le, op_eq, op_ne,
}

pub record Doubles : Type 1 where
  pub Double : Type 0
  pub strtod : List ℕ → Double
  pub sign : Double → Double → Option Ordering

-- The value that 64 bits stand for in two's complement.
unfoldable pub wrap64 : ℕ → ℤ
wrap64 n = let r = n % 2 ^ 64 in if ltb r (2 ^ 63) then pos r else negsuc (2 ^ 64 - 1 - r)

-- `a - b` on `long`, wrapped around.
unfoldable pub long_sub : ℤ → ℤ → ℤ
unfolding wrap64
long_sub a b = wrap64 (pos_part a + neg_part b + (2 ^ 64 - neg_part a) + (2 ^ 64 - pos_part b))

abbrev pub sign_of : ℤ → Ordering
sign_of (pos zero) = Ordering.eq
sign_of (pos (suc n)) = Ordering.gt
sign_of (negsuc n) = Ordering.lt

-- `OP_RUN` on a difference of floating point numbers: one that is not a number only differs from 0.
unfoldable pub unordered_run : Option Operation → ℕ → ℕ
unordered_run none stale = stale
unordered_run (some op_lt) stale = 1
unordered_run (some op_gt) stale = 1
unordered_run (some op_ge) stale = 1
unordered_run (some op_le) stale = 1
unordered_run (some op_eq) stale = 1
unordered_run (some op_ne) stale = 0

abbrev pub double_run : Option Operation → Option Ordering → ℕ → ℕ
double_run op none stale = unordered_run op stale
double_run op (some s) stale = op_run op s stale

unfoldable pub has_period : List ℕ → Bool
has_period [] = false
has_period (c ∷ cs) = if c == 0 then false else (c == b'.' || has_period cs)

module _ (F : Doubles) where
  open F use {Double, strtod, sign}

  pub data Value : Type 0 where
    long : ℤ → Value
    double : Double → Value

  -- `grok_predicate_numcompare_t`.
  pub record NumCompare : Type 0 where
    pub op : Option Operation
    pub value : Value

  -- A NUL is set behind the arguments while they are read, and the old byte is put back.
  unfoldable pub numcompare_read : Option Operation → List ℕ → NumCompare
  numcompare_read op tmp =
      let text = drop (op_len op) tmp in
      record {
        op = op;
        value = if has_period tmp then double (strtod text) else long (strtol text);
      }

  unfoldable pub numcompare_init : List ℕ → ℕ → Option (NumCompare × List ℕ)
  unfolding numcompare_read
  numcompare_init args args_len = do
    a ← get_elem? args args_len
    let tmp = set args args_len 0
    some (numcompare_read (strop (take args_len args)) tmp, set tmp args_len a)

  -- `ret` is not set where there is no operation: `stale` stands for it.
  unfoldable pub numcompare : ℕ → NumCompare → List ℕ → ℕ → ℕ
  numcompare stale p subject start = elim p.value [
    | double b ↦ double_run p.op (sign (strtod (drop start subject)) b) stale
    | long b ↦ op_run p.op (sign_of (long_sub (strtol (drop start subject)) b)) stale
  ]

abbrev pub order_ℕ : ℕ → ℕ → Ordering
order_ℕ x y = if ltb x y then Ordering.lt else if ltb y x then Ordering.gt else Ordering.eq

-- The order of two integers.
abbrev pub order : ℤ → ℤ → Ordering
order a b = order_ℕ (pos_part a + neg_part b) (pos_part b + neg_part a)

-- `a` stands in the relation to `b`, on sums without signs.
abbrev pub Ordered : Operation → ℕ → ℕ → Type 0
Ordered op_lt x y = x < y
Ordered op_gt x y = y < x
Ordered op_ge x y = y ≤ x
Ordered op_le x y = x ≤ y
Ordered op_eq x y = x ≡ y
Ordered op_ne x y = x ≢ y

abbrev pub Related : Operation → ℤ → ℤ → Type 0
Related op a b = Ordered op (pos_part a + neg_part b) (pos_part b + neg_part a)

abbrev code : Bool → ℕ
code holds = if holds then 0 else 1

-- The difference is in the range of `long`.
abbrev pub Fits : ℤ → ℤ → Type 0
Fits a b =
    (pos_part a + neg_part b < 2 ^ 63 + (pos_part b + neg_part a))
    × (pos_part b + neg_part a ≤ 2 ^ 63 + (pos_part a + neg_part b))

module _ (F : Doubles) where
  -- Where the capture's number is larger than the predicate's by 2^63 or more, it is taken for
  -- the smaller.
  pub numcompare_overflow :
      (stale n m : ℕ) (subject : List ℕ) (start : ℕ)
      → strtol (drop start subject) ≡ pos n
      → m < 2 ^ 63
      → 2 ^ 63 ≤ n + m + 1
      → numcompare F stale (record { op = some op_lt; value = long (negsuc m) }) subject start ≡ 0
  unfolding numcompare op_run
  numcompare_overflow stale n m subject start read hm big = rw (read, wrapped) refl
    where
      small : n < 2 ^ 63
      small = (rw read at (strtol-InLong (drop start subject))).0

      wrapped : sign_of (long_sub (pos n) (negsuc m)) ≡ Ordering.lt
      wrapped =
          unfold long_sub wrap64 in
          (let big : ltb ((n + suc m + 2 ^ 64 + 2 ^ 64) % 2 ^ 64) (2 ^ 63) ≡ false =
              ltb-false _ _ (omega (arith, small)) in
            rw big refl)

  -- The buffer of the arguments is as it was, and the operation is that of the arguments alone.
  pub numcompare_init_restores :
      (args : List ℕ) (args_len : ℕ)
      → args_len < length args
      → (p : NumCompare F) × (numcompare_init F args args_len ≡ some (p, args))
        × (p.op ≡ strop (take args_len args))
  unfolding numcompare_init
  numcompare_init_restores args args_len h =
      let (a, there) = get_elem?_inside args args_len h in
      let p = numcompare_read F (strop (take args_len args)) (set args args_len 0) in
      rw there (p, ap (λ l. some (p, l)) (set-set_back args args_len 0 a there), refl)
