-- ===== src/Spanningtree/Kruskal/Lists.antt =====
-- What the sort in `quicksort` of spanningtree/kruskal.c leaves of the list of edges.
use semicomplete_googlecode.Common.{
  ℕ, ◌+◌, ◌≤◌, ◌<◌, ◌≡◌, refl, ap, ◌∙◌, inl, inr, some, List, arith, length, eq_or_ne, ◌⊎◌,
}
use semicomplete_googlecode.Spanningtree.Queue.{Edge}
use semicomplete_googlecode.Spanningtree.Adjmatrix.{Graph}
use semicomplete_googlecode.Spanningtree.Adjmatrix.Free.{IsGraph}
use semicomplete_googlecode.Spanningtree.Kruskal.{quicksort}
use semicomplete_googlecode.Spanningtree.Kruskal.Rearranges.{edge_at, weight_at}
use semicomplete_googlecode.Spanningtree.Kruskal.Sorts.{do_qsort_correct, IsSorted, Sorted}
use semicomplete_googlecode.Spanningtree.Kruskal.Edges.{IsEdge, Holds}
use semicomplete_googlecode.Spanningtree.Kruskal.Rows.{list_rows-Listed}

-- What `quicksort` returns for `kruskal` to read the first `edgecnt` edges of.
pub record Shifted (g : Graph) (r : List Edge × ℕ) : Type 0 where
  pub ordered : IsSorted 0 r.1 r.0
  pub first : weight_at r.0 0 ≡ 0
  pub real : (k : ℕ) → k ≤ r.1 → IsEdge g (edge_at r.0 k) ⊎ (weight_at r.0 k ≡ 0)
  pub every :
      (e : Edge)
      → e.x < g.numvert
      → e.y < g.numvert
      → IsEdge g e
      → (k : ℕ) × (1 ≤ k) × (k ≤ r.1) × (edge_at r.0 k ≡ e)
  pub heaviest :
      (e : Edge) → e.x < g.numvert → e.y < g.numvert → IsEdge g e → e.weight ≤ weight_at r.0 r.1
  pub last : 0 < r.1 → 0 < weight_at r.0 r.1

every_edge :
    (g : Graph) (before after : List Edge) (cnt : ℕ) (e : Edge)
    → Holds g g.numvert 0 before cnt
    → Sorted 0 cnt before after
    → weight_at after 0 ≡ 0
    → e.x < g.numvert
    → e.y < g.numvert
    → IsEdge g e
    → (k : ℕ) × (1 ≤ k) × (k ≤ cnt) × (edge_at after k ≡ e)
every_edge g before after cnt e h s first hx hy is_edge =
    let (j, lt, at_j) = h.covers e (inl (hx, hy)) is_edge in
    let (k, low, high, at_k) = s.moved.covered j (omega arith) (omega arith) in
    let same = at_k ∙ at_j in
    let weights = ap (λ (f : Edge). f.weight) same in
    elim (eq_or_ne k 0) [
      | inl zero_th ↦
          let none_there = ap (weight_at after) zero_th ∙ first in
          absurd (omega (arith, weights, none_there, is_edge.1))
      | inr later ↦ (k, omega arith, high, same)
    ]

-- For a square matrix without loops `quicksort` meets no fault. The edges from 0 to `edgecnt`, both
-- included, are sorted by weight, and each is an edge of the graph or has no weight; the first has
-- none. Every edge of the graph is at an index from 1 to `edgecnt`, none is heavier than that at
-- `edgecnt`, and where `edgecnt` is positive that has a weight. So of the edges from 0 to
-- `edgecnt` - 1, which `kruskal` reads, the first is not an edge.
pub quicksort_shifts :
    (g : Graph)
    → IsGraph g
    → 1 ≤ g.numvert
    → (r : List Edge × ℕ) × (quicksort g ≡ some r) × Shifted g r
unfolding quicksort
quicksort_shifts g graph some_vertex =
    let ((edges, cnt), listed, l, held, few) = list_rows-Listed g graph some_vertex in
    let inside : cnt < length edges = omega (arith, l.long, few) in
    let (after, sorted, s) =
      do_qsort_correct (cnt + 1) edges 0 cnt inside (omega arith) (omega arith) in
    let (k, k_low, k_high, at_k) = s.moved.covered cnt (omega arith) (omega arith) in
    let no_weight = ap (λ (e : Edge). e.weight) (at_k ∙ l.unused cnt (omega arith)) in
    let first : weight_at after 0 ≡ 0 =
      omega (arith, s.ordered 0 k (omega arith) k_low k_high, no_weight) in
    (
      (after, cnt),
      rw (listed, sorted) refl,
      record {
        ordered = s.ordered;
        first = first;
        real = λ i high.
            (let (j, j_low, j_high, at_j) = s.moved.inside i (omega arith) high in
              elim (eq_or_ne j cnt) [
                | inl behind ↦ inr (
                    ap (λ (e : Edge). e.weight)
                      (at_j ∙ ap (edge_at edges) behind ∙ l.unused cnt (omega arith)))
                | inr before ↦ inl (rw at_j (held.drawn j (omega arith)))
              ]);
        every = λ e hx hy is_edge. every_edge g edges after cnt e held s first hx hy is_edge;
        heaviest = λ e hx hy is_edge.
            (let (i, low, high, at_i) = every_edge g edges after cnt e held s first hx hy is_edge in
              omega (
                arith,
                ap (λ (f : Edge). f.weight) at_i,
                s.ordered i cnt (omega arith) high (omega arith),
              ));
        last = λ some_edge.
            (let (j, j_low, j_high, at_j) = s.moved.covered 0 (omega arith) (omega arith) in
              omega (
                arith,
                ap (λ (e : Edge). e.weight) at_j,
                l.real 0 some_edge,
                s.ordered j cnt j_low j_high (omega arith),
              ));
      },
    )
