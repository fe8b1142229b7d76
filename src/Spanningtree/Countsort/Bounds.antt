-- ===== src/Spanningtree/Countsort/Bounds.antt =====
-- Where the counting sort of spanningtree/kruskal.c may put an edge: inside of the array, and not
-- in the first slot of the weight of the first edge.
use semicomplete_googlecode.Common.{
  ℕ, zero, suc, ◌+◌, ◌-◌, ◌≤◌, ◌<◌, ◌≡◌, ◌≢◌, ap, List, ◌==◌, length, inl, inr, eq_or_ne, lt_or_le,
  arith,
}
use semicomplete_googlecode.Spanningtree.Queue.{Edge}
use semicomplete_googlecode.Spanningtree.Queue.Tally.{tally, one, tally_step}
use semicomplete_googlecode.Spanningtree.Kruskal.Rearranges.{weight_at}
use semicomplete_googlecode.Spanningtree.Countsort.Sums.{
  weighs, upto, tally-upto, tally_most, tally_longer, tally-upto_more,
}

pub one_same : (w : ℕ) → one (w == w) ≡ 1
one_same w = ground arith

pub one_apart : (v w : ℕ) → v ≢ w → one (v == w) ≡ 0
one_apart v w h = ground arith

-- The first `m` edges have a weight below `max`, and there is a blank one behind them.
pub record Weighed (max m : ℕ) (edges : List Edge) : Type 0 where
  pub room : m < length edges
  pub some_max : 0 < max
  pub some_edge : 0 < m
  pub real : (k : ℕ) → k < m → 0 < weight_at edges k
  pub light : (k : ℕ) → k < m → weight_at edges k < max
  pub behind : weight_at edges m ≡ 0

-- How many edges have at most a weight, and how many of the first ones have a weight.
abbrev pub most : ℕ → List Edge → ℕ → ℕ
most m edges w = tally (upto w) m edges

abbrev pub among : List Edge → ℕ → ℕ → ℕ
among edges w n = tally (weighs w) n edges

abbrev pub first : List Edge → ℕ
first edges = weight_at edges 0

-- The slots behind those of the edges that are lighter than the first one start here.
abbrev pub gap : ℕ → List Edge → ℕ
gap m edges = most m edges (first edges - 1)

module _ {max m : ℕ} {edges : List Edge} (f : Weighed max m edges) where
  pub most_step : (w : ℕ) → 0 < w → most m edges w ≡ most m edges (w - 1) + among edges w m
  most_step zero h = absurd (omega arith)
  most_step (suc v) h = let e : suc v - 1 ≡ v = omega arith in rw e (tally-upto v m edges)

  pub among_le : (w n : ℕ) → n ≤ m → among edges w n ≤ among edges w m
  among_le w n h =
      let e : n + (m - n) ≡ m = omega arith in
      let longer = tally_longer (weighs w) n (m - n) edges in rw e at longer

  pub most_le : (v w : ℕ) → v ≤ w → most m edges v ≤ most m edges w
  most_le v w h =
      let e : v + (w - v) ≡ w = omega arith in
      let more = tally-upto_more v (w - v) m edges in rw e at more

  pub among_next :
      (w x : ℕ) → x < m → among edges w (x + 1) ≡ among edges w x + one (weight_at edges x == w)
  among_next w x h =
      let e : x + 1 ≡ suc x = omega arith in rw e (tally_step (weighs w) x edges (omega arith))

  pub among_here : (x : ℕ) → x < m → 1 ≤ among edges (weight_at edges x) (x + 1)
  among_here x h = omega (arith, among_next (weight_at edges x) x h, one_same (weight_at edges x))

  pub among_first : 1 ≤ among edges (first edges) m
  among_first =
      omega (arith, among_here 0 f.some_edge, among_le (first edges) (0 + 1) (omega arith))

  pub gap_below : (gap m edges) < m
  gap_below = omega (
    arith,
    most_step (first edges) (f.real 0 f.some_edge),
    among_first,
    tally_most (upto (first edges)) m edges,
  )

  -- Where an edge goes, the slot is inside of the array, and not the gap.
  pub inside : (w n t : ℕ) → n + t ≡ most m edges w + one ((first edges) == w) → 1 ≤ t → n < m + 1
  inside w n t place some_here = elim (eq_or_ne (first edges) w) [
    | inl same ↦
        let hit : one ((first edges) == w) ≡ 1 = rw same (one_same w) in
        omega (arith, place, hit, tally_most (upto w) m edges)
    | inr other ↦ omega (arith, place, one_apart (first edges) w other, tally_most (upto w) m edges)
  ]

  pub misses :
      (w n t : ℕ)
      → 0 < w
      → n + t ≡ most m edges w + one ((first edges) == w)
      → 1 ≤ t
      → t ≤ among edges w m
      → n ≢ (gap m edges)
  misses w n t heavy place some_here few at_gap = elim (eq_or_ne (first edges) w) [
    | inl same ↦
        let hit : one ((first edges) == w) ≡ 1 = rw same (one_same w) in
        let gap_w : most m edges ((first edges) - 1) ≡ most m edges (w - 1) =
          ap (λ k. most m edges (k - 1)) same in
        absurd (omega (arith, place, hit, most_step w heavy, gap_w))
    | inr other ↦ elim (lt_or_le w (first edges)) [
      | inl lighter ↦ absurd (
          omega (
            arith,
            place,
            one_apart (first edges) w other,
            most_le w ((first edges) - 1) (omega arith),
          ))
      | inr from ↦ absurd (
          omega (
            arith,
            place,
            one_apart (first edges) w other,
            most_step w heavy,
            most_le (first edges) (w - 1) (omega arith),
            most_step (first edges) (f.real 0 f.some_edge),
            among_first,
          ))
    ]
  ]
