-- ===== src/Grok/Escape/Checks.antt =====
-- Tests that decide, for a list of characters, what the theorems on `string_escape` ask of it.
use semicomplete_googlecode.Common.{ℕ, ◌≡◌, Bool, true, not, ◌&&◌, List, [], ◌∷◌, arith, ◌==◌, All}
use semicomplete_googlecode.Grok.Escape.{isprint, hits}
use semicomplete_googlecode.Grok.Escape.Backslashes.{IsPrintable, AreNew}

unfoldable pub all_printable : List ℕ → Bool
unfolding isprint
all_printable [] = true
all_printable (c ∷ cs) = isprint c && all_printable cs

unfoldable pub all_new : List ℕ → List ℕ → Bool
unfolding hits
all_new done [] = true
all_new done (c ∷ cs) = (not (c == b'\\') && not (hits done c)) && all_new (c ∷ done) cs

pub all_printable-All : (cs : List ℕ) → all_printable cs ≡ true → All IsPrintable cs
all_printable-All [] h = tt
all_printable-All (c ∷ cs) h = (
  unfold all_printable in ground arith,
  all_printable-All cs (unfold all_printable in ground arith),
)

pub all_new-AreNew : (done cs : List ℕ) → all_new done cs ≡ true → AreNew done cs
all_new-AreNew done [] h = tt
all_new-AreNew done (c ∷ cs) h = (
  unfold all_new in ground arith,
  unfold all_new in ground arith,
  all_new-AreNew (c ∷ done) cs (unfold all_new in ground arith),
)
