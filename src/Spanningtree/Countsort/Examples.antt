-- ===== src/Spanningtree/Countsort/Examples.antt =====
-- The counting sort at a concrete graph.
use semicomplete_googlecode.Common.{
  ℕ, zero, suc, ◌≤◌, ◌<◌, ◌≡◌, refl, Option, some, none, List, [], ◌∷◌, arith,
}
use semicomplete_googlecode.Spanningtree.Queue.{Edge}
use semicomplete_googlecode.Spanningtree.Adjmatrix.{Graph, weight_of}
use semicomplete_googlecode.Spanningtree.Adjmatrix.Free.{IsGraph}
use semicomplete_googlecode.Spanningtree.Countsort.{countsort}
use semicomplete_googlecode.Spanningtree.Countsort.Gap.{Gapped, countsort_leaves_gap}

-- The edge there has weight 2, the edge back 1.
abbrev pair : Graph
pair = record { numvert = 2; matrix = (0 ∷ 2 ∷ []) ∷ (1 ∷ 0 ∷ []) ∷ [] }

pair_square : (x y : ℕ) → x < 2 → y < 2 → (w : ℕ) × (weight_of pair x y ≡ some w)
unfolding weight_of
pair_square zero zero hx hy = (0, refl)
pair_square zero (suc zero) hx hy = (2, refl)
pair_square (suc zero) zero hx hy = (1, refl)
pair_square (suc zero) (suc zero) hx hy = (0, refl)
pair_square (suc (suc x)) y hx hy = absurd (omega arith)
pair_square x (suc (suc y)) hx hy = absurd (omega arith)

pair_no_loop : (x : ℕ) → x < 2 → weight_of pair x x ≡ some 0
unfolding weight_of
pair_no_loop zero h = refl
pair_no_loop (suc zero) h = refl
pair_no_loop (suc (suc x)) h = absurd (omega arith)

pair-IsGraph : IsGraph pair
pair-IsGraph = record { square = pair_square; no_loop = pair_no_loop }

weight_at_most : (v w : ℕ) → some v ≡ some w → v ≤ 2 → w ≤ 2
weight_at_most v w h small = let same : v ≡ w = cc in omega (arith, same)

pair_light : (x y w : ℕ) → weight_of pair x y ≡ some w → w ≤ 2
unfolding weight_of
pair_light zero zero w h = weight_at_most 0 w h (omega arith)
pair_light zero (suc zero) w h = weight_at_most 2 w h (omega arith)
pair_light zero (suc (suc y)) w h = cc
pair_light (suc zero) zero w h = weight_at_most 1 w h (omega arith)
pair_light (suc zero) (suc zero) w h = weight_at_most 0 w h (omega arith)
pair_light (suc zero) (suc (suc y)) w h = cc
pair_light (suc (suc x)) y w h = cc

-- The heavier edge, which comes first, is written one place too far; its place stays unwritten.
countsort_run :
    countsort pair
    ≡ some (
      some (record { x = 1; y = 0; weight = 1 })
          ∷ none
          ∷ some (record { x = 0; y = 1; weight = 2 })
          ∷ [],
      2,
    )
unfolding countsort weight_of
countsort_run = refl

countsort_leaves_gap_example : (r : List (Option Edge) × ℕ) × (countsort pair ≡ some r) × Gapped r
countsort_leaves_gap_example = countsort_leaves_gap pair pair-IsGraph (omega arith) pair_light
