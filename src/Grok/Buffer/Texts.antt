-- ===== src/Grok/Buffer/Texts.antt =====
-- Texts without a NUL in the buffers of tags/grok/20090928/stringhelper.c: their `strlen`, and their
-- copy by `string_ndup`.
use mathlib.Core.Logic.{◌≢◌}
use semicomplete_googlecode.Common.{
  ℕ, ◌+◌, ◌≡◌, refl, List, [], ◌∷◌, ◌++◌, some, false, arith, ap, length, length-append, All, ◌==◌,
  take-append_at,
}
use semicomplete_googlecode.Grok.Buffer.{strlen, ndup_scan, string_ndup}
use semicomplete_googlecode.Grok.Buffer.Blocks.{read_lem}

abbrev pub NotNul : ℕ → Type 0
NotNul c = c ≢ 0

abbrev pub IsText : List ℕ → Type 0
IsText = All NotNul

pub strlen-append : (xs rest : List ℕ) → IsText xs → strlen (xs ++ 0 ∷ rest) ≡ some (length xs)
unfolding strlen
strlen-append [] rest h = refl
strlen-append (x ∷ xs) rest (hx, h) =
    let other : (x == 0) ≡ false = ground arith in
    rw (other, strlen-append xs rest h) (ap some (omega arith))

ndup_scan_lem :
    (text : List ℕ) (c : ℕ) (more : List ℕ) (len size : ℕ)
    → IsText text
    → len + length text ≡ size
    → ndup_scan (text ++ c ∷ more) len size ≡ some size
unfolding ndup_scan
ndup_scan_lem [] c more len size clean e = ground arith
ndup_scan_lem (x ∷ text) c more len size clean e =
    ground (arith, ndup_scan_lem text c more (len + 1) size clean.1)

-- The copy of a text that lies in front of some byte.
pub string_ndup_lem :
    (text : List ℕ) (c : ℕ) (more : List ℕ)
    → IsText text
    → string_ndup (text ++ c ∷ more) (length text) ≡ some (text ++ 0 ∷ [])
unfolding string_ndup
string_ndup_lem text c more clean =
    rw
      (
        ndup_scan_lem text c more 0 (length text) clean (omega arith),
        read_lem (text ++ c ∷ more) 0 (length text) (omega (arith, length-append text (c ∷ more))),
        take-append_at (length text) text (c ∷ more) refl,
      )
      refl
