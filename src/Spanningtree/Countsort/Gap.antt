-- ===== src/Spanningtree/Countsort/Gap.antt =====
-- The slot that the counting sort of spanningtree/kruskal.c never writes.
use semicomplete_googlecode.Spanningtree.Countsort.Places.{
  first-Placing, fresh_slots, no_Counts, place_edges-Placing,
}
use semicomplete_googlecode.Spanningtree.Countsort.Bounds.{Weighed, gap_below}
use semicomplete_googlecode.Common.{
  ℕ, zero, suc, ◌+◌, ◌≤◌, ◌<◌, ◌≡◌, refl, ap, ◌∙◌, Option, some, none, List, length, inl, inr,
  eq_or_ne, arith, get_elem?, replicate, length-replicate,
}
use semicomplete_googlecode.Spanningtree.Queue.{Edge}
use semicomplete_googlecode.Spanningtree.Queue.Slots.{get_elem?-get_or}
use semicomplete_googlecode.Spanningtree.Kruskal.Rearranges.{weight_at}
use semicomplete_googlecode.Spanningtree.Countsort.{place_edges, countsort}
use semicomplete_googlecode.Spanningtree.Countsort.Sums.{cumulate_tallies}
use semicomplete_googlecode.Spanningtree.Countsort.Counts.{count_rows-Counts}
use semicomplete_googlecode.Spanningtree.Adjmatrix.Free.{IsGraph}
use semicomplete_googlecode.Spanningtree.Adjmatrix.{weight_of, Graph}
use semicomplete_googlecode.Spanningtree.Kruskal.Rows.{list_rows-Listed}

-- What is left behind: one slot more than edges, and one of those in front of the last is unwritten.
pub record Gapped (r : List (Option Edge) × ℕ) : Type 0 where
  pub slots : length r.0 ≡ r.1 + 1
  pub unwritten_slot : 0 < r.1 → (i : ℕ) × (i < r.1) × (get_elem? r.0 i ≡ some none)

place_edges_none :
    (left x : ℕ) (edges : List Edge) (cur : List ℕ) (sorted : List (Option Edge))
    → left ≡ 0
    → place_edges left x edges cur sorted ≡ some sorted
unfolding place_edges
place_edges_none zero x edges cur sorted h = refl
place_edges_none (suc left) x edges cur sorted h = absurd (omega arith)

-- For a square matrix without loops and with no weight over the number of vertices, `countsort`
-- meets no fault. If there is an edge, one of the slots from 0 to `edgepiv` - 1, which `kruskal`
-- reads, is never written.
pub countsort_leaves_gap :
    (g : Graph)
    → IsGraph g
    → 1 ≤ g.numvert
    → ((x y w : ℕ) → weight_of g x y ≡ some w → w ≤ g.numvert)
    → (r : List (Option Edge) × ℕ) × (countsort g ≡ some r) × Gapped r
unfolding countsort
countsort_leaves_gap g graph some_vertex light =
    let max = g.numvert + 1 in
    let ((edges, m), listed, l, held, few) = list_rows-Listed g graph some_vertex in
    let square : (x y : ℕ)
        → x < g.numvert
        → y < g.numvert
        → (w : ℕ) × (weight_of g x y ≡ some w) × (w < max) =
      λ x y hx hy.
        (let (w, there) = graph.square x y hx hy in (w, there, omega (arith, light x y w there))) in
    let (countarr, counted, c) =
      count_rows-Counts max g square g.numvert 0 0 _ (replicate max 0) (edges, m) (omega arith)
        (no_Counts max _) listed in
    let (sums, summed, long, sum) = cumulate_tallies g.numvert m edges countarr c.long c.counted in
    elim (eq_or_ne m 0) [
      | inl no_edge ↦ (
        (fresh_slots (m + 1), m),
        rw (counted, summed, place_edges_none m 0 edges sums (fresh_slots (m + 1)) no_edge) refl,
        record {
          slots = length-replicate (m + 1) none;
          unwritten_slot = λ h. absurd (omega arith);
        },
      )
      | inr some_edge ↦
          let behind : weight_at edges m ≡ 0 =
            ap (λ (e : Edge). e.weight) (l.unused m (omega arith)) in
          let weighed : Weighed max m edges = record {
            room = omega (arith, l.long, few);
            some_max = omega arith;
            some_edge = omega arith;
            real = l.real;
            light = c.light;
            behind = behind;
          } in
          let (sorted, ran, slots, unwritten) =
            place_edges-Placing weighed m 0 sums (fresh_slots (m + 1)) (omega arith)
              (first-Placing weighed sums long sum) in
          let below = gap_below weighed in
          (
            (sorted, m),
            rw (counted, summed, ran) refl,
            record {
              slots = slots;
              unwritten_slot = λ h. (
                _,
                below,
                get_elem?-get_or sorted _ none (omega (arith, slots, below)) ∙ ap some unwritten,
              );
            },
          )
    ]
