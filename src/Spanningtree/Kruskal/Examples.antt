-- ===== src/Spanningtree/Kruskal/Examples.antt =====
-- The quick sort at a concrete array and a concrete graph.
use semicomplete_googlecode.Common.{ℕ, zero, suc, ◌<◌, ◌≡◌, refl, some, List, [], ◌∷◌, arith}
use semicomplete_googlecode.Spanningtree.Queue.{Edge}
use semicomplete_googlecode.Spanningtree.Adjmatrix.{Graph, weight_of}
use semicomplete_googlecode.Spanningtree.Adjmatrix.Free.{IsGraph}
use semicomplete_googlecode.Spanningtree.Kruskal.{do_qsort, quicksort, blank}
use semicomplete_googlecode.Spanningtree.Kruskal.Sorts.{Sorted, do_qsort_correct}
use semicomplete_googlecode.Spanningtree.Kruskal.Lists.{Shifted, quicksort_shifts}

abbrev weighing : ℕ → Edge
weighing w = record { x = 0; y = 1; weight = w }

abbrev unsorted : List Edge
unsorted = weighing 5 ∷ weighing 2 ∷ weighing 9 ∷ weighing 2 ∷ []

do_qsort_run :
    do_qsort 4 unsorted 0 3 ≡ some (weighing 2 ∷ weighing 2 ∷ weighing 5 ∷ weighing 9 ∷ [])
unfolding do_qsort
do_qsort_run = refl

do_qsort_correct_example :
    (after : List Edge) × (do_qsort 4 unsorted 0 3 ≡ some after) × Sorted 0 3 unsorted after
do_qsort_correct_example = do_qsort_correct 4 unsorted 0 3 (omega arith) (omega arith) (omega arith)

-- Two vertices with an edge each way.
abbrev two : Graph
two = record { numvert = 2; matrix = (0 ∷ 3 ∷ []) ∷ (4 ∷ 0 ∷ []) ∷ [] }

two_square : (x y : ℕ) → x < 2 → y < 2 → (w : ℕ) × (weight_of two x y ≡ some w)
unfolding weight_of
two_square zero zero hx hy = (0, refl)
two_square zero (suc zero) hx hy = (3, refl)
two_square (suc zero) zero hx hy = (4, refl)
two_square (suc zero) (suc zero) hx hy = (0, refl)
two_square (suc (suc x)) y hx hy = absurd (omega arith)
two_square x (suc (suc y)) hx hy = absurd (omega arith)

two_no_loop : (x : ℕ) → x < 2 → weight_of two x x ≡ some 0
unfolding weight_of
two_no_loop zero h = refl
two_no_loop (suc zero) h = refl
two_no_loop (suc (suc x)) h = absurd (omega arith)

two-IsGraph : IsGraph two
two-IsGraph = record { square = two_square; no_loop = two_no_loop }

-- Of the two edges the heavier is behind the two that are counted.
quicksort_run :
    quicksort two
    ≡ some (
      blank
          ∷ record { x = 0; y = 1; weight = 3 }
          ∷ record { x = 1; y = 0; weight = 4 }
          ∷ blank
          ∷ [],
      2,
    )
unfolding quicksort weight_of
quicksort_run = refl

quicksort_shifts_example : (r : List Edge × ℕ) × (quicksort two ≡ some r) × Shifted two r
quicksort_shifts_example = quicksort_shifts two two-IsGraph (omega arith)
