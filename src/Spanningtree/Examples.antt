-- ===== src/Spanningtree/Examples.antt =====
-- The queue of spanningtree/prim.c at concrete inputs.
use semicomplete_googlecode.Common.{
  ◌↔◌, ℕ, ◌+◌, ◌≤◌, ◌≡◌, Bool, ◌⊎◌, none, some, [], ◌∷◌, arith, length, zero, suc, ◌<◌, refl, false,
  true,
}
use semicomplete_googlecode.Spanningtree.Queue.{Edge, Heap, enqueue, dequeue}
use semicomplete_googlecode.Spanningtree.Queue.Slots.{nothing, at}
use semicomplete_googlecode.Spanningtree.Queue.Moves.{weight_at}
use semicomplete_googlecode.Spanningtree.Queue.Tally.{one}
use semicomplete_googlecode.Spanningtree.Queue.Queues.{
  holds, IsQueue, enqueue_correct, dequeue_correct,
}
use semicomplete_googlecode.Spanningtree.Reach.{connected}
use semicomplete_googlecode.Spanningtree.Bitmap.{getbit}
use semicomplete_googlecode.Spanningtree.Adjmatrix.{Graph, PrimState, weight_of, prim_adjmatrix}
use semicomplete_googlecode.Spanningtree.Adjmatrix.Trees.{
  Tree, prim_adjmatrix_total, prim_adjmatrix_overrun,
}
use semicomplete_googlecode.Spanningtree.Adjmatrix.Free.{IsGraph}
use semicomplete_googlecode.Spanningtree.Adjlist.{prim_adjlist, prim_adjlist_overrun}
use semicomplete_googlecode.Spanningtree.Reach.Sound.{Reachable}
use semicomplete_googlecode.Spanningtree.Reach.Complete.{connected_correct}

abbrev edge : ℕ → Edge
edge w = record { x = 0; y = w; weight = w }

-- Two edges in three slots.
abbrev two_edges : Heap
two_edges = record { count = 2; items = edge 4 ∷ edge 7 ∷ nothing ∷ [] }

two_edges-IsQueue : IsQueue two_edges
two_edges-IsQueue = record {
  ordered = λ i lo hi. let second : i ≡ 2 = omega arith in rw second (unfold at in omega arith);
  room = omega arith;
}

enqueue_correct_example :
    (after : Heap) × (enqueue two_edges (edge 2) ≡ some after)
    × IsQueue after
    × (after.count ≡ two_edges.count + 1)
    × (length after.items ≡ length two_edges.items)
    × ((p : Edge → Bool) → holds p after ≡ holds p two_edges + one (p (edge 2)))
enqueue_correct_example = enqueue_correct two_edges (edge 2) two_edges-IsQueue (omega arith)

dequeue_correct_example :
    ((two_edges.count ≡ 0) × (dequeue two_edges ≡ some (none, two_edges)))
    ⊎ ((e : Edge) × (after : Heap) × (dequeue two_edges ≡ some (some e, after))
        × IsQueue after
        × (after.count + 1 ≡ two_edges.count)
        × (length after.items ≡ length two_edges.items)
        × ((i : ℕ) → 1 ≤ i → i ≤ two_edges.count → e.weight ≤ weight_at two_edges.items i)
        × ((p : Edge → Bool) → holds p two_edges ≡ holds p after + one (p e)))
dequeue_correct_example = dequeue_correct two_edges two_edges-IsQueue (omega arith)

-- Two vertices, each with an edge to the other.
abbrev pair : Graph
pair = record { numvert = 2; matrix = (0 ∷ 3 ∷ []) ∷ (3 ∷ 0 ∷ []) ∷ [] }

pair_square : (x y : ℕ) → x < 2 → y < 2 → (w : ℕ) × (weight_of pair x y ≡ some w)
unfolding weight_of
pair_square zero zero hx hy = (0, refl)
pair_square zero (suc zero) hx hy = (3, refl)
pair_square (suc zero) zero hx hy = (3, refl)
pair_square (suc zero) (suc zero) hx hy = (0, refl)
pair_square (suc (suc x)) y hx hy = absurd (omega arith)
pair_square x (suc (suc y)) hx hy = absurd (omega arith)

pair_no_loop : (x : ℕ) → x < 2 → weight_of pair x x ≡ some 0
unfolding weight_of
pair_no_loop zero h = refl
pair_no_loop (suc zero) h = refl
pair_no_loop (suc (suc x)) h = absurd (omega arith)

pair-IsGraph : IsGraph pair
pair-IsGraph = record { square = pair_square; no_loop = pair_no_loop }

pair_cleared : (v : ℕ) → v < 2 → getbit (0 ∷ []) v ≡ some false
unfolding getbit
pair_cleared zero h = refl
pair_cleared (suc zero) h = refl
pair_cleared (suc (suc v)) h = absurd (omega arith)

prim_adjmatrix_total_example :
    (t : PrimState) × (prim_adjmatrix nothing (0 ∷ []) 1 pair ≡ some t) × Tree pair pair-IsGraph t
prim_adjmatrix_total_example =
    prim_adjmatrix_total pair pair-IsGraph nothing (0 ∷ []) 1 (omega arith) (omega arith)
      (omega arith) pair_cleared

prim_adjmatrix_overrun_example : prim_adjmatrix nothing [] 1 pair ≡ none
prim_adjmatrix_overrun_example =
    prim_adjmatrix_overrun nothing [] 1 pair refl (omega arith) (omega arith)

prim_adjlist_overrun_example : prim_adjlist nothing (0 ∷ []) 1 pair ≡ none
prim_adjlist_overrun_example = prim_adjlist_overrun nothing (0 ∷ []) 1 pair (omega arith)

pair_narrow : (x y w : ℕ) → weight_of pair x y ≡ some w → y < 2
unfolding weight_of
pair_narrow zero zero w h = omega arith
pair_narrow zero (suc zero) w h = omega arith
pair_narrow zero (suc (suc y)) w h = cc
pair_narrow (suc zero) zero w h = omega arith
pair_narrow (suc zero) (suc zero) w h = omega arith
pair_narrow (suc zero) (suc (suc y)) w h = cc
pair_narrow (suc (suc x)) y w h = cc

connected_correct_example :
    (b : Bool) × (connected pair ≡ some b) × ((b ≡ true) ↔ ((v : ℕ) → v < 2 → Reachable pair 0 v))
connected_correct_example = connected_correct pair pair_narrow pair_square (omega arith)
