-- ===== src/Grok/Predicate/Examples.antt =====
-- The properties of the predicates at concrete inputs.
use Prim.Native.Nat.{Ordering, ◌^◌}
use semicomplete_googlecode.Common.{
  ℕ, ◌≡◌, refl, none, some, List, [], ◌∷◌, ◌++◌, arith, codes, ◌↔◌,
}
use semicomplete_googlecode.Common.Int.{negsuc}
use semicomplete_googlecode.Grok.Predicate.{op_lt, op_eq, strcompare}
use semicomplete_googlecode.Grok.Predicate.Text.{
  subject, start, end, strcompare_eq_prefix, strcompare_overread,
}
use semicomplete_googlecode.Grok.Predicate.Numbers.{
  Doubles, long, numcompare, Related, numcompare_overflow, Related,
}
use semicomplete_googlecode.Grok.Predicate.Strtol.{strtol, unsigned, signed, after_space}

-- Numbers with a point are read as 0 here, and all of them are equal.
abbrev no_doubles : Doubles
no_doubles = record { Double = ℕ; strtod = λ s. 0; sign = λ a b. some Ordering.eq }

abbrev cap : List ℕ
cap = codes "ab"

strcompare_eq_prefix_example :
    (strcompare
        (record { op = some op_eq; value = cap })
        (subject (b'x' ∷ []) cap (b'y' ∷ []))
        (start (b'x' ∷ []) cap (b'y' ∷ []))
        (end (b'x' ∷ []) cap (b'y' ∷ []))
      ≡ some 0)
    ↔ ((more : List ℕ) × (cap ≡ cap ++ more))
strcompare_eq_prefix_example =
    strcompare_eq_prefix (b'x' ∷ []) cap (b'y' ∷ []) cap (omega arith, (omega arith, tt))

strcompare_overread_example :
    strcompare
      (record { op = some op_eq; value = cap })
      (subject (b'x' ∷ []) (cap ++ b'y' ∷ []) [])
      (start (b'x' ∷ []) (cap ++ b'y' ∷ []) [])
      (end (b'x' ∷ []) (cap ++ b'y' ∷ []) [])
    ≡ none
strcompare_overread_example =
    strcompare_overread (b'x' ∷ []) cap b'y' [] [] (some op_eq) (omega arith, (omega arith, tt))

-- 2^62 and -2^62: the difference does not fit.
numcompare_overflow_example :
    numcompare no_doubles 0
      (record { op = some op_lt; value = long (negsuc (2 ^ 62)) })
      (codes "4611686018427387904")
      0
    ≡ 0
numcompare_overflow_example =
    numcompare_overflow no_doubles 0 (2 ^ 62) (2 ^ 62) (codes "4611686018427387904") 0
      (unfold strtol after_space signed unsigned in refl) (omega arith) (omega arith)
