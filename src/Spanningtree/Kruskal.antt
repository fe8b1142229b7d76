-- ===== src/Spanningtree/Kruskal.antt =====
-- The quick sort of spanningtree/kruskal.c. An access outside of the array of edges is the fault
-- `none`; the `edge_t` of the file has the fields of that of prim.c.
pub mod Rounds
pub mod Rearranges
pub mod Scans
pub mod Partition
pub mod Sorts
pub mod Edges
pub mod Rows
pub mod Lists
mod Examples
use semicomplete_googlecode.Common.{
  ℕ, zero, suc, ◌+◌, ◌-◌, ◌*◌, ◌&&◌, Option, none, some, List, ltb, leb, ◌==◌, if◌then◌else◌, ◌>>=◌,
  length, get_elem?, set, replicate,
}
use semicomplete_googlecode.Spanningtree.Queue.{Edge}
use semicomplete_googlecode.Spanningtree.Adjmatrix.{Graph, weight_of}

-- The three `memcpy`.
unfoldable pub swap_edges : List Edge → ℕ → ℕ → Option (List Edge)
swap_edges edges i j = do
  a ← get_elem? edges i
  b ← get_elem? edges j
  some (set (set edges i b) j a)

-- `while (edges[lt].weight <= edges[piv].weight && lt < end) lt++`
unfoldable pub scan_up : ℕ → List Edge → ℕ → ℕ → ℕ → Option ℕ
scan_up zero edges piv end lt = none
scan_up (suc fuel) edges piv end lt = do
  e ← get_elem? edges lt
  p ← get_elem? edges piv
  let more = scan_up fuel edges piv end (lt + 1) in
      if leb e.weight p.weight && ltb lt end then more else some lt

-- `while (edges[gt].weight > edges[piv].weight && gt > start) gt--`
unfoldable pub scan_down : ℕ → List Edge → ℕ → ℕ → ℕ → Option ℕ
scan_down zero edges piv start gt = none
scan_down (suc fuel) edges piv start gt = do
  e ← get_elem? edges gt
  p ← get_elem? edges piv
  let more = scan_down fuel edges piv start (gt - 1) in
      if ltb p.weight e.weight && ltb start gt then more else some gt

-- The `do` loop; the array and `gt` are returned.
unfoldable pub partition_loop : ℕ → List Edge → ℕ → ℕ → ℕ → ℕ → Option (List Edge × ℕ)
unfolding swap_edges scan_up scan_down
partition_loop zero edges start end lt gt = none
partition_loop (suc fuel) edges start end lt gt = do
  lt' ← scan_up (end + 1) edges start end lt
  gt' ← scan_down (end + 1) edges start start gt
  let again = (do
    swapped ← swap_edges edges lt' gt'
    partition_loop fuel swapped start end lt' gt') in
      if ltb lt' gt' then again else some (edges, gt')

unfoldable pub qsort_partition : List Edge → ℕ → ℕ → Option (List Edge × ℕ)
unfolding partition_loop
qsort_partition edges start end = do
  r ← partition_loop (end + 1) edges start end start end
  swapped ← swap_edges r.0 start r.1
  some (swapped, r.1)

-- With `piv` 0 the first call has the end -1 and does nothing; here its end is 0, and its start too.
unfoldable pub do_qsort : ℕ → List Edge → ℕ → ℕ → Option (List Edge)
unfolding qsort_partition
do_qsort zero edges start end = none
do_qsort (suc fuel) edges start end =
    let sorted = (do
      r ← qsort_partition edges start end
      left ← do_qsort fuel r.0 start (r.1 - 1)
      do_qsort fuel left (r.1 + 1) end) in
    if ltb start end then sorted else some edges

-- The row `x` of the matrix from the column `y` on, and the rows from `x` on: each edge is written
-- behind those that are there, of which there are `edgecnt`.
unfoldable pub list_row : Graph → ℕ → ℕ → ℕ → List Edge × ℕ → Option (List Edge × ℕ)
list_row g zero x y s = some s
list_row g (suc left) x y s = do
  w ← weight_of g x y
  let edge : Edge = record { x = x; y = y; weight = w } in
      let put = (if ltb s.1 (length s.0) then some (set s.0 s.1 edge, s.1 + 1) else none) in
      (do next ← if w == 0 then some s else put; list_row g left x (y + 1) next)

unfoldable pub list_rows : Graph → ℕ → ℕ → List Edge × ℕ → Option (List Edge × ℕ)
unfolding list_row
list_rows g zero x s = some s
list_rows g (suc left) x s = do next ← list_row g g.numvert x 0 s; list_rows g left (x + 1) next

abbrev pub blank : Edge
blank = record { x = 0; y = 0; weight = 0 }

-- The array and the count that `quicksort` returns.
unfoldable pub quicksort : Graph → Option (List Edge × ℕ)
unfolding list_rows do_qsort
quicksort g = do
  s ← list_rows g g.numvert 0 (replicate (g.numvert * g.numvert) blank, 0)
  edges ← do_qsort (s.1 + 1) s.0 0 s.1
  some (edges, s.1)
