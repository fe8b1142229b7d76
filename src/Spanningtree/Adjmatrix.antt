-- ===== src/Spanningtree/Adjmatrix.antt =====
-- The minimum spanning tree of spanningtree/prim.c over the adjacency matrix of spanningtree/graph.h.
-- `malloc` leaves the bitmap indeterminate: its bytes are an argument. The probability of an edge,
-- which only the generator of graphs uses, is left out of the graph.
pub mod Free
pub mod Rounds
pub mod Trees
use semicomplete_googlecode.Common.{
  ℕ, zero, suc, ◌+◌, ◌*◌, Option, none, some, List, [], ◌∷◌, ◌++◌, ◌==◌, if◌then◌else◌, ◌>>=◌,
  get_elem?,
}
use semicomplete_googlecode.Spanningtree.Queue.{Edge, Heap, mkqueue, enqueue, dequeue}
use semicomplete_googlecode.Spanningtree.Bitmap.{getbit, setbit}

-- `graph_t`
pub record Graph : Type 0 where
  pub numvert : ℕ
  pub matrix : List (List ℕ)

-- `WEIGHT(g, x, y)`
unfoldable pub weight_of : Graph → ℕ → ℕ → Option ℕ
weight_of g x y = do row ← get_elem? g.matrix x; get_elem? row y

-- The variables of `prim_adjmatrix`, and the edges that it takes into the tree.
pub record PrimState : Type 0 where
  pub v : ℕ
  pub weight : ℕ
  pub h : Heap
  pub e : Option Edge
  pub bitmap : List ℕ
  pub tree : List Edge

abbrev pub edge_weight : Option Edge → ℕ
edge_weight none = 0
edge_weight (some e) = e.weight

abbrev pub edge_list : Option Edge → List Edge
edge_list none = []
edge_list (some e) = e ∷ []

-- The loop that adds the edges from `v` to the heap, for `left` columns from `y` on.
unfoldable pub add_edges : Graph → ℕ → ℕ → ℕ → Heap → Option Heap
add_edges g zero y v h = some h
add_edges g (suc left) y v h = do
  w ← weight_of g v y
  next ← if w == 0 then some h else enqueue h (record { x = v; y = y; weight = w })
  add_edges g left (y + 1) v next

-- The block under `if (!GETBIT(bitmap, v))`.
unfoldable pub visit : Graph → PrimState → Option PrimState
unfolding add_edges
visit g s = do
  seen ← getbit s.bitmap s.v
  let fresh = (do
    bitmap ← setbit s.bitmap s.v
    h ← add_edges g g.numvert 0 s.v s.h
    some (record s {
      bitmap = bitmap;
      h = h;
      weight = s.weight + edge_weight s.e;
      tree = s.tree ++ edge_list s.e;
    }))
  if seen then some s else fresh

-- The end of the edge that is not in the tree, `y` where both are.
unfoldable pub next_vertex : List ℕ → Edge → Option ℕ
next_vertex bitmap e = do seen ← getbit bitmap e.x; some (if seen then e.y else e.x)

unfoldable pub prim_loop : ℕ → Graph → PrimState → Option PrimState
prim_loop zero g s = none
prim_loop (suc fuel) g s = do
  t ← visit g s
  (popped, h) ← dequeue t.h
  elim popped [
    | none ↦ some (record t { h = h; e = none })
    | some e ↦ (do
      v ← next_vertex t.bitmap e
      prim_loop fuel g (record t { h = h; e = some e; v = v }))
  ]

-- `start` is the random vertex, `junk` an edge for a slot that is not set.
unfoldable pub prim_adjmatrix : Edge → List ℕ → ℕ → Graph → Option PrimState
unfolding prim_loop visit
prim_adjmatrix junk bitmap start g = do
  h ← mkqueue junk (g.numvert * g.numvert)
  prim_loop (g.numvert * g.numvert + 1) g
      (record { v = start; weight = 0; h = h; e = none; bitmap = bitmap; tree = [] })
