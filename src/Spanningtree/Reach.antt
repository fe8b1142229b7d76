-- ===== src/Spanningtree/Reach.antt =====
-- The connectedness of a graph, spanningtree/graph.c.
pub mod Sound
pub mod Grows
pub mod Complete
use semicomplete_googlecode.Common.{
  ℕ, zero, suc, ◌+◌, Bool, true, false, Option, none, some, List, [], ◌∷◌, ◌==◌, if◌then◌else◌,
  ◌>>=◌, get_elem?, set, replicate,
}
use semicomplete_googlecode.Spanningtree.Adjmatrix.{Graph, weight_of, visit}

-- The loop of `dfs_mark` over the vertices from `x` on; `mark` is the recursive call. The count of
-- the marked vertices is returned with them.
unfoldable pub dfs_row :
    (List ℕ → ℕ → Option (ℕ × List ℕ)) → Graph → ℕ → ℕ → ℕ → ℕ × List ℕ → Option (ℕ × List ℕ)
dfs_row mark g zero x vertex s = some s
dfs_row mark g (suc left) x vertex s = do
  w ← weight_of g vertex x
  next ←
      if x == vertex
      then some s
      else if w == 0
      then some s
      else (do r ← mark s.1 x; some (s.0 + r.0, r.1))
  dfs_row mark g left (x + 1) vertex next

unfoldable pub dfs_mark : ℕ → Graph → List ℕ → ℕ → Option (ℕ × List ℕ)
unfolding dfs_row
dfs_mark zero g visit vertex = none
dfs_mark (suc fuel) g visit vertex = do
  seen ← get_elem? visit vertex
  let row = dfs_row (dfs_mark fuel g) g g.numvert 0 vertex (0, set visit vertex 1)
  if seen == 1 then some (1, visit) else row

unfoldable pub all_marked : List ℕ → Bool
all_marked [] = true
all_marked (v ∷ visit) = if v == 0 then false else all_marked visit

-- Each call that goes on marks a vertex.
unfoldable pub connected : Graph → Option Bool
unfolding dfs_mark all_marked
connected g = do r ← dfs_mark (g.numvert + 1) g (replicate g.numvert 0) 0; some (all_marked r.1)
