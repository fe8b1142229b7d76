-- ===== src/Grok/Predicate/Text.antt =====
-- Operations as text, and the comparison of a capture with the text of a predicate.
use Prim.Native.Nat.{Ordering}
use semicomplete_googlecode.Common.{
  ℕ, ◌+◌, ◌-◌, ◌≡◌, refl, sym, ◌∙◌, ◌≢◌, ◌↔◌, false, Option, none, some, List, [], ◌∷◌, ◌++◌,
  append_assoc, arith, ◌>>=◌, codes, All, length, drop, drop-append_at,
}
use semicomplete_googlecode.Grok.Predicate.{
  op_lt, op_gt, op_ge, op_le, op_eq, op_ne, Operation, second_is_equals, strop, op_len, op_run,
  strncmp, StrCompare, strcompare,
}

unfoldable pub op_text : Operation → List ℕ
op_text op_lt = codes "<"
op_text op_gt = codes ">"
op_text op_ge = codes ">="
op_text op_le = codes "<="
op_text op_eq = codes "=="
op_text op_ne = codes "!="

-- What may stand behind an operation: `<` and `>` would take an equals sign for their own.
abbrev pub Follows : Operation → List ℕ → Type 0
Follows op_lt rest = second_is_equals rest ≡ false
Follows op_gt rest = second_is_equals rest ≡ false
Follows _ rest = Unit

-- `strop` reads each operation back from its text, and `OP_LEN` skips exactly that text.
pub strop-op_text :
    (op : Operation) (rest : List ℕ)
    → Follows op rest
    → (strop (op_text op ++ rest) ≡ some op) × (drop (op_len (some op)) (op_text op ++ rest) ≡ rest)
unfolding op_text strop op_len
strop-op_text op_lt rest h = (rw h, refl)
strop-op_text op_gt rest h = (rw h, refl)
strop-op_text op_ge rest h = (refl, refl)
strop-op_text op_le rest h = (refl, refl)
strop-op_text op_eq rest h = (refl, refl)
strop-op_text op_ne rest h = (refl, refl)

abbrev IsNotNul : ℕ → Type 0
IsNotNul c = c ≢ 0

strncmp-eq→ :
    (cap rest ys : List ℕ)
    → All IsNotNul cap
    → strncmp (cap ++ rest) ys (length cap) ≡ some Ordering.eq
    → (more : List ℕ) × (ys ≡ cap ++ more)
unfolding strncmp
strncmp-eq→ [] rest ys h e = (ys, refl)
strncmp-eq→ (x ∷ cap) rest [] h e = cc
strncmp-eq→ (x ∷ cap) rest (y ∷ ys) (hx, h) e =
    let same : x ≡ y = ground arith in
    let tail : strncmp (cap ++ rest) ys (length cap) ≡ some Ordering.eq = ground arith in
    let (more, p) = strncmp-eq→ cap rest ys h tail in (more, cc)

strncmp-prefix :
    (cap rest more : List ℕ)
    → All IsNotNul cap
    → strncmp (cap ++ rest) (cap ++ more) (length cap) ≡ some Ordering.eq
unfolding strncmp
strncmp-prefix [] rest more h = refl
strncmp-prefix (x ∷ cap) rest more (hx, h) = ground (arith, strncmp-prefix cap rest more h)

strncmp-none :
    (ys rest : List ℕ) (y : ℕ) (cap : List ℕ)
    → All IsNotNul ys
    → strncmp (ys ++ y ∷ rest) ys (length (ys ++ y ∷ cap)) ≡ none
unfolding strncmp
strncmp-none [] rest y cap h = refl
strncmp-none (x ∷ ys) rest y cap (hx, h) = ground (arith, strncmp-none ys rest y cap h)

module _ (before cap rest : List ℕ) where
  -- The subject of the match, and the capture in it.
  abbrev pub subject : List ℕ
  subject = before ++ (cap ++ rest)

  abbrev pub start : ℕ
  start = length before

  abbrev pub end : ℕ
  end = length before + length cap

  strcompare-unfold :
      (p : StrCompare)
      → strcompare p subject start end
        ≡ (do s ← strncmp (cap ++ rest) p.value (length cap); some (op_run p.op s 0))
  unfolding strcompare
  strcompare-unfold p =
      let n : length before + length cap - length before ≡ length cap = omega arith in
      rw (drop-append_at (length before) before (cap ++ rest) refl, n)

-- For a capture without a NUL the predicate `==` on text succeeds exactly where the capture is a
-- prefix of the predicate's text.
pub strcompare_eq_prefix :
    (before cap rest value : List ℕ)
    → All IsNotNul cap
    → (strcompare
          (record { op = some op_eq; value = value })
          (subject before cap rest)
          (start before cap rest)
          (end before cap rest)
        ≡ some 0)
      ↔ ((more : List ℕ) × (value ≡ cap ++ more))
strcompare_eq_prefix before cap rest value h = (
  λ e. strncmp-eq→ cap rest value h (only_eq _ (sym (strcompare-unfold before cap rest p) ∙ e)),
  λ (more, e).
      strcompare-unfold before cap rest p
      ∙ rw (e, strncmp-prefix cap rest more h) (unfold op_run in refl),
)
  where
    p : StrCompare
    p = record { op = some op_eq; value = value }

    only_eq :
        (o : Option Ordering)
        → (do s ← o; some (op_run (some op_eq) s 0)) ≡ some 0
        → o ≡ some Ordering.eq
    only_eq none e = cc
    only_eq (some Ordering.eq) e = refl
    only_eq (some Ordering.lt) e = unfold op_run in cc
    only_eq (some Ordering.gt) e = unfold op_run in cc

-- Where the predicate's text has no NUL and the capture is that text and at least one byte more,
-- `strncmp` reads behind the block of the predicate's text: a fault.
pub strcompare_overread :
    (before value : List ℕ) (y : ℕ) (more rest : List ℕ) (op : Option Operation)
    → All IsNotNul value
    → strcompare
        (record { op = op; value = value })
        (subject before (value ++ y ∷ more) rest)
        (start before (value ++ y ∷ more) rest)
        (end before (value ++ y ∷ more) rest)
      ≡ none
strcompare_overread before value y more rest op h =
    strcompare-unfold before (value ++ y ∷ more) rest (record { op = op; value = value })
    ∙ rw (append_assoc value (y ∷ more) rest, strncmp-none value (more ++ rest) y more h)
