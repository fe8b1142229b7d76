-- ===== src/Spanningtree/Countsort.antt =====
-- The counting sort of spanningtree/kruskal.c. An access outside of an array and a failing assertion
-- are the fault `none`; a slot of the sorted array that was never written is a `none` inside of it.
pub mod Places
pub mod Counts
pub mod Sums
pub mod Bounds
pub mod Gap
mod Examples
use semicomplete_googlecode.Common.{
  ℕ, zero, suc, ◌+◌, ◌-◌, ◌*◌, Option, none, some, List, ltb, ◌==◌, if◌then◌else◌, ◌>>=◌, length,
  get_elem?, set, replicate,
}
use semicomplete_googlecode.Spanningtree.Queue.{Edge}
use semicomplete_googlecode.Spanningtree.Adjmatrix.{Graph, weight_of}
use semicomplete_googlecode.Spanningtree.Kruskal.{blank}

pub record Counting : Type 0 where
  pub edges : List Edge
  pub edgepiv : ℕ
  pub countarr : List ℕ

-- An edge is counted and put behind those that are there.
unfoldable pub count_edge : ℕ → Edge → Counting → Option Counting
count_edge max edge s = do
  c ← if ltb edge.weight max then get_elem? s.countarr edge.weight else none
  if ltb s.edgepiv (length s.edges)
      then some (record {
        edges = set s.edges s.edgepiv edge;
        edgepiv = s.edgepiv + 1;
        countarr = set s.countarr edge.weight (c + 1);
      })
      else none

unfoldable pub count_row : ℕ → Graph → ℕ → ℕ → ℕ → Counting → Option Counting
unfolding count_edge
count_row max g zero x y s = some s
count_row max g (suc left) x y s = do
  w ← weight_of g x y
  next ← if w == 0 then some s else count_edge max (record { x = x; y = y; weight = w }) s
  count_row max g left x (y + 1) next

unfoldable pub count_rows : ℕ → Graph → ℕ → ℕ → Counting → Option Counting
unfolding count_row
count_rows max g zero x s = some s
count_rows max g (suc left) x s = do
  next ← count_row max g g.numvert x 0 s
  count_rows max g left (x + 1) next

unfoldable pub cumulate : ℕ → ℕ → List ℕ → Option (List ℕ)
cumulate zero x countarr = some countarr
cumulate (suc left) x countarr = do
  c ← get_elem? countarr x
  before ← get_elem? countarr (x - 1)
  cumulate left (x + 1) (set countarr x (c + before))

-- The step of the `for` moves `x` on before it decrements, so it is the count for the next edge that
-- is decremented. Behind the last edge that is the count for weight 0, which would fall below 0;
-- nothing reads it again.
unfoldable pub place_edges :
    ℕ → ℕ → List Edge → List ℕ → List (Option Edge) → Option (List (Option Edge))
place_edges zero x edges countarr sorted = some sorted
place_edges (suc left) x edges countarr sorted = do
  e ← get_elem? edges x
  n ← get_elem? countarr e.weight
  put ← if ltb n (length sorted) then some (set sorted n (some e)) else none
  next ← get_elem? edges (x + 1)
  m ← get_elem? countarr next.weight
  place_edges left (x + 1) edges (set countarr next.weight (m - 1)) put

-- The sorted array, which `malloc` leaves as it was, and the number of edges.
unfoldable pub countsort : Graph → Option (List (Option Edge) × ℕ)
unfolding count_rows cumulate place_edges
countsort g = do
  s ← count_rows (g.numvert + 1) g g.numvert 0 (record {
    edges = replicate (g.numvert * g.numvert) blank;
    edgepiv = 0;
    countarr = replicate (g.numvert + 1) 0;
  })
  countarr ← cumulate g.numvert 1 s.countarr
  sorted ← place_edges s.edgepiv 0 s.edges countarr (replicate (s.edgepiv + 1) none)
  some (sorted, s.edgepiv)
