-- ===== src/Spanningtree/Reach/Complete.antt =====
-- `connected` of spanningtree/graph.c finds exactly the connected graphs.
use semicomplete_googlecode.Common.{
  ℕ, suc, ◌+◌, ◌≤◌, ◌<◌, ◌≡◌, ◌≢◌, inl, inr, some, List, get_elem?, ◌∙◌, arith, refl, ◌↔◌, Bool,
  true, [], ◌∷◌, length, replicate, length-replicate,
}
use semicomplete_googlecode.Spanningtree.Adjmatrix.{Graph, weight_of, visit}
use semicomplete_googlecode.Spanningtree.Reach.{all_marked, connected}
use semicomplete_googlecode.Spanningtree.Reach.Grows.{IsMarked, IsEdge, Grows, dfs_mark-Grows}
use semicomplete_googlecode.Spanningtree.Reach.Sound.{
  here, step, replicate_zero, dfs_mark-Marked, Reachable, connected_sound, unmarked-replicate,
  IsSquare,
}

clear-unmarked : (n x : ℕ) → get_elem? {A = ℕ} (replicate n 0) x ≢ some 1
clear-unmarked n x h = let clash : ◌≡◌ {A = ℕ} 1 0 = replicate_zero n x 1 h in absurd (omega arith)

all_marked_complete :
    (visit : List ℕ) → ((v : ℕ) → v < length visit → IsMarked visit v) → all_marked visit ≡ true
unfolding all_marked
all_marked_complete [] h = refl
all_marked_complete (x ∷ visit) h =
    let first : x ≡ 1 = let e : some x ≡ some 1 = h 0 (omega arith) in cc in
    let rest = all_marked_complete visit (λ v lt. h (suc v) (omega arith)) in rw (first, rest) refl

module _ (g : Graph) (narrow : (x y w : ℕ) → weight_of g x y ≡ some w → y < g.numvert) where
  -- With nothing marked before, all that is reached from a marked vertex is marked.
  Reachable-IsMarked :
      {before after : List ℕ} {v u : ℕ}
      → Grows g before after
      → ((x : ℕ) → get_elem? before x ≢ some 1)
      → Reachable g v u
      → IsMarked after v
      → IsMarked after u
  Reachable-IsMarked grows clear here marked = marked
  Reachable-IsMarked grows clear (step {v} {w} {u} {k} there positive rest) marked =
      let edge : IsEdge g v w = record { weight = k; there = there; positive = positive } in
      elim (grows.filled v w marked edge) [
        | inl before ↦ absurd (clear v before)
        | inr next ↦ Reachable-IsMarked grows clear rest next
      ]

  -- `connected` of a square matrix with a vertex or more ends, and it finds the graph connected exactly
  -- where every vertex is reached from the vertex 0 over edges of a weight other than 0.
  pub connected_correct :
      IsSquare g
      → 1 ≤ g.numvert
      → (b : Bool) × (connected g ≡ some b)
        × ((b ≡ true) ↔ ((v : ℕ) → v < g.numvert → Reachable g 0 v))
  unfolding connected
  connected_correct square some_vertex =
      let (b, ran, sound) = connected_sound g square some_vertex in
      let clear = replicate g.numvert 0 in
      let size : length clear ≡ g.numvert = length-replicate g.numvert 0 in
      let (r, made, m) =
        dfs_mark-Marked g square (g.numvert + 1) clear 0 size
          (λ u x h. inl (replicate_zero g.numvert u x h)) some_vertex
          (omega (arith, unmarked-replicate g.numvert)) in
      let (grows, first) = dfs_mark-Grows g narrow (g.numvert + 1) clear 0 r made in
      let nothing = λ (x : ℕ). clear-unmarked g.numvert x in
      let found : some (all_marked r.1) ≡ some b = rw made at ran in
      let same : b ≡ all_marked r.1 = cc in
      (
        b,
        ran,
        (
          sound,
          λ reached.
              same
              ∙ all_marked_complete r.1 (λ v lt.
                Reachable-IsMarked grows nothing (reached v (omega (arith, lt, m.long, size)))
                  first),
        ),
      )
