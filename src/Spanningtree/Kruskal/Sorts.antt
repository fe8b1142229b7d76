-- ===== src/Spanningtree/Kruskal/Sorts.antt =====
-- `do_qsort` of spanningtree/kruskal.c sorts a range of the array by weight.
use semicomplete_googlecode.Common.{
  ℕ, zero, suc, ◌+◌, ◌-◌, ◌≤◌, ◌<◌, ◌≡◌, refl, ap, ◌∙◌, inl, inr, some, List, arith, Bool-cases,
  ltb, length, eq_or_ne, lt_or_le, ltb→lt,
}
use semicomplete_googlecode.Spanningtree.Queue.{Edge}
use semicomplete_googlecode.Spanningtree.Kruskal.{do_qsort}
use semicomplete_googlecode.Spanningtree.Kruskal.Rearranges.{
  edge_at, weight_at, Rearranges, Rearranges_refl, Rearranges_trans, Rearranges-widen,
}
use semicomplete_googlecode.Spanningtree.Kruskal.Partition.{qsort_partition-Partitioned}

-- In the range no edge is heavier than one behind it.
abbrev pub IsSorted : ℕ → ℕ → List Edge → Type 0
IsSorted lo hi edges = (i j : ℕ) → lo ≤ i → i ≤ j → j ≤ hi → weight_at edges i ≤ weight_at edges j

module _ (start end q : ℕ) (b left right : List Edge) (low : start ≤ q) (high : q ≤ end)
    (light : (k : ℕ) → start ≤ k → k ≤ q → weight_at b k ≤ weight_at b q)
    (heavy : (k : ℕ) → q < k → k ≤ end → weight_at b q < weight_at b k)
    (left_moved : Rearranges start (q - 1) b left) (left_sorted : IsSorted start (q - 1) left)
    (right_moved : Rearranges (q + 1) end left right)
    (right_sorted : IsSorted (q + 1) end right) where
  weigh : {e f : Edge} → e ≡ f → e.weight ≡ f.weight
  weigh same = ap (λ (e : Edge). e.weight) same

  -- The two halves leave the pivot where it is.
  left_pivot : edge_at left q ≡ edge_at b q
  left_pivot = elim (eq_or_ne q 0) [
    | inr later ↦ left_moved.outside q (inr (omega arith))
    | inl first ↦
        let (j, j_low, j_high, e) = left_moved.inside q low (omega arith) in
        let same : j ≡ q = omega arith in e ∙ ap (edge_at b) same
  ]

  right_before : (k : ℕ) → k ≤ q → edge_at right k ≡ edge_at left k
  right_before k h = right_moved.outside k (inl (omega arith))

  pivot : weight_at right q ≡ weight_at b q
  pivot = weigh (right_before q (omega arith) ∙ left_pivot)

  before_pivot : (k : ℕ) → start ≤ k → k ≤ q → weight_at right k ≤ weight_at right q
  before_pivot k k_low k_high = elim (eq_or_ne k q) [
    | inl same ↦ rw same (omega arith)
    | inr before ↦
        let (j, j_low, j_high, e) = left_moved.inside k k_low (omega arith) in
        omega (arith, pivot, weigh (right_before k k_high), weigh e, light j j_low (omega arith))
  ]

  behind_pivot : (k : ℕ) → q < k → k ≤ end → weight_at right q < weight_at right k
  behind_pivot k k_low k_high =
      let (j, j_low, j_high, e) = right_moved.inside k (omega arith) k_high in
      let kept = left_moved.outside j (inr (omega arith)) in
      omega (arith, pivot, weigh e, weigh kept, heavy j (omega arith) j_high)

  halves-IsSorted : IsSorted start end right
  halves-IsSorted i j i_low order j_high = elim (lt_or_le q j) [
    | inl j_behind ↦ elim (lt_or_le q i) [
      | inl i_behind ↦ right_sorted i j (omega arith) order j_high
      | inr i_before ↦ omega (arith, before_pivot i i_low i_before, behind_pivot j j_behind j_high)
    ]
    | inr j_before ↦ elim (eq_or_ne j q) [
      | inl same ↦ rw same (before_pivot i i_low (omega arith))
      | inr other ↦ omega (
        arith,
        left_sorted i j i_low order (omega arith),
        weigh (right_before i (omega arith)),
        weigh (right_before j j_before),
      )
    ]
  ]

-- What the sort of a range does.
pub record Sorted (start end : ℕ) (before after : List Edge) : Type 0 where
  pub moved : Rearranges start end before after
  pub ordered : IsSorted start end after

single-IsSorted : (start end : ℕ) (edges : List Edge) → end ≤ start → IsSorted start end edges
single-IsSorted start end edges short i j i_low order j_high =
    let same : i ≡ j = omega arith in rw same (omega arith)

-- With as much fuel as the range has indices, and at least one, `do_qsort` meets no fault on a
-- range inside of the array: it is sorted by weight from `start` to `end`, both included, by
-- edges that only change places within the range, and every edge is there as often as before.
pub do_qsort_correct :
    (fuel : ℕ) (edges : List Edge) (start end : ℕ)
    → end < length edges
    → end < fuel + start
    → 0 < fuel
    → (after : List Edge) × (do_qsort fuel edges start end ≡ some after)
      × Sorted start end edges after
unfolding do_qsort
do_qsort_correct zero edges start end inside few some_fuel = absurd (omega arith)
do_qsort_correct (suc fuel) edges start end inside few some_fuel =
    elim (Bool-cases (ltb start end)) [
      | inr short ↦ (
        edges,
        rw short refl,
        record {
          moved = Rearranges_refl start end edges;
          ordered = single-IsSorted start end edges (ground arith);
        },
      )
      | inl long ↦
          let order = ltb→lt start end long in
          let ((b, q), parted, p) = qsort_partition-Partitioned edges start end order inside in
          let (left, ran_left, l) =
            do_qsort_correct fuel b start (q - 1) (omega (arith, p.moved.long, p.high))
              (omega (arith, p.high)) (omega arith) in
          let (right, ran_right, r) =
            do_qsort_correct fuel left (q + 1) end (omega (arith, l.moved.long, p.moved.long))
              (omega (arith, p.low)) (omega arith) in
          (
            right,
            rw (long, parted, ran_left) ran_right,
            record {
              moved = Rearranges_trans p.moved (
                  Rearranges_trans (Rearranges-widen l.moved (omega arith) (omega (arith, p.high)))
                    (Rearranges-widen r.moved (omega (arith, p.low)) (omega arith)));
              ordered =
                  halves-IsSorted start end q b left right p.low p.high p.light p.heavy l.moved
                    l.ordered r.moved r.ordered;
            },
          )
    ]
