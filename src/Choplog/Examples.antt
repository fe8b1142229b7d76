-- ===== src/Choplog/Examples.antt =====
-- `split` of choplog/choplog.c at concrete inputs.
use semicomplete_googlecode.Common.{ℕ, ◌≡◌, refl, Bool, true, some, List, arith, codes, length}
use semicomplete_googlecode.Choplog.{Split, split, running}
use semicomplete_googlecode.Choplog.Whole.{Ends, Cut, split-Ends}
use semicomplete_googlecode.Common.Returns.{Returns}
use semicomplete_googlecode.Choplog.Works.{split_cuts}

abbrev text : List ℕ
text = codes "one line"

abbrev opened : Split → Bool
opened s = true

abbrev all_bytes : Split → List ℕ → ℕ
all_bytes s buf = length buf

abbrev flushed : Split → List ℕ → List ℕ
flushed s content = content

abbrev no_bytes : Split → List ℕ → ℕ
no_bytes s buf = 0

-- A disk that is full.
split-Ends_example :
    Returns (λ r. Ends true 4 r text) (split true flushed opened no_bytes 4 true (some text))
split-Ends_example =
    split-Ends true 4 opened no_bytes (λ s buf. omega arith) flushed (λ s content. refl)
      (omega arith) true (some text)

split_cuts_example :
    (t : Split) × (split true flushed opened all_bytes 4 true (some text) ≡ some (running t))
    × Cut true 4 t text
split_cuts_example =
    split_cuts true 4 opened all_bytes (λ s. refl) (λ s buf. refl) flushed (λ s content. refl)
      (omega arith) text
