-- ===== src/Spanningtree/Adjmatrix/Trees.antt =====
-- The tree that `prim_adjmatrix` of spanningtree/prim.c ends with.
use semicomplete_googlecode.Common.{
  ℕ, zero, suc, ◌+◌, ◌-◌, ◌*◌, ◌/◌, ◌≤◌, ◌<◌, ◌≡◌, refl, ap, ◌∙◌, false, none, some, List, [],
  arith, length, inl, inr, replicate, length-replicate, Bool-cases, get_elem?, get_elem?_outside,
}
use semicomplete_googlecode.Spanningtree.Queue.{Edge, Heap, mkqueue}
use semicomplete_googlecode.Spanningtree.Queue.Tally.{one, tally_zero}
use semicomplete_googlecode.Spanningtree.Bitmap.{getbit, getbit_inside}
use semicomplete_googlecode.Spanningtree.Adjmatrix.{
  Graph, PrimState, visit, prim_loop, next_vertex, prim_adjmatrix,
}
use semicomplete_googlecode.Spanningtree.Adjmatrix.Free.{free, outside, IsGraph}
use semicomplete_googlecode.Spanningtree.Adjmatrix.Rounds.{total, square, Ready, visit-Visited}
use semicomplete_googlecode.Spanningtree.Queue.Queues.{dequeue_correct}

free_cleared :
    (bitmap : List ℕ) (m : ℕ) → ((v : ℕ) → v < m → getbit bitmap v ≡ some false) → free bitmap m ≡ m
unfolding free
free_cleared bitmap zero h = refl
free_cleared bitmap (suc m) h =
    rw (h m (omega arith)) (omega (arith, free_cleared bitmap m (λ v lt. h v (omega arith))))

mkqueue-some :
    (junk : Edge) (k : ℕ)
    → 1 ≤ k
    → mkqueue junk k ≡ some (record { count = 0; items = replicate (k - 1) junk })
unfolding mkqueue
mkqueue-some junk zero h = absurd (omega arith)
mkqueue-some junk (suc k) h = let less : suc k - 1 ≡ k = omega arith in rw less refl

module _ (g : Graph) (graph : IsGraph g) where
  -- What the tree has when the loop ends.
  pub record Tree (t : PrimState) : Type 0 where
    pub as_many : length t.tree + free t.bitmap g.numvert + 1 ≡ g.numvert
    pub weighs : t.weight ≡ total t.tree

  in_range : (e : Edge) → one (outside g.numvert e) ≡ 0 → (e.x < g.numvert) × (e.y < g.numvert)
  in_range e h = ground arith

  next_vertex-lt :
      (bitmap : List ℕ) (e : Edge)
      → g.numvert ≤ length bitmap * 8
      → (e.x < g.numvert) × (e.y < g.numvert)
      → (v : ℕ) × (next_vertex bitmap e ≡ some v) × (v < g.numvert)
  unfolding next_vertex
  next_vertex-lt bitmap e bytes (hx, hy) =
      let (seen, there) = getbit_inside bitmap e.x (omega arith) in
      rw there (elim (Bool-cases seen) [
        | inl old ↦ rw old (e.y, refl, hy)
        | inr new ↦ rw new (e.x, refl, hx)
      ])

  prim_loop-Tree :
      (fuel : ℕ) (s : PrimState)
      → 2 ≤ g.numvert
      → Ready g graph s
      → s.h.count + free s.bitmap g.numvert * (g.numvert - 1) < fuel
      → (t : PrimState) × (prim_loop fuel g s ≡ some t) × Tree t
  unfolding prim_loop
  prim_loop-Tree zero s two r lt = absurd (omega arith)
  prim_loop-Tree (suc fuel) s two r lt =
      let (t, visited, v) = visit-Visited g graph s r in
      let held = v.still_held in
      let some_slot : 1 ≤ length t.h.items =
        omega (arith, held.slots, square g.numvert (omega arith)) in
      elim (dequeue_correct t.h held.is_queue some_slot) [
        | inl (empty, nothing_left) ↦
            rw (visited, nothing_left)
              (_, refl, record { as_many = v.edges; weighs = held.weighed })
        | inr (e, after, popped, q, fewer, long, lightest, holds_rest) ↦
            let split = holds_rest (outside g.numvert) in
            let (w, next, w_lt) =
              next_vertex-lt t.bitmap e held.bytes
                (in_range e (omega (arith, held.inside, split))) in
            let again : PrimState = record t { h = after; e = some e; v = w } in
            let ready : Ready g graph again = record {
              held = record {
                is_queue = q;
                slots = long ∙ held.slots;
                bytes = held.bytes;
                inside = omega (arith, held.inside, split);
                budget = omega (arith, held.budget, fewer);
                weighed = held.weighed;
              };
              vertex = w_lt;
              first = λ h. absurd (let clash : some e ≡ none = h in cc);
              counted = v.edges;
            } in
            rw (visited, popped, next)
              (prim_loop-Tree fuel again two ready (omega (arith, lt, v.no_more, fewer)))
      ]

  -- On a cleared bitmap with a bit for each vertex, `prim_adjmatrix` on a graph of two vertices
  -- or more meets no fault and ends: it takes one edge less than it has visited vertices, and the
  -- weight is that of those edges.
  pub prim_adjmatrix_total :
      (junk : Edge) (bitmap : List ℕ) (start : ℕ)
      → 2 ≤ g.numvert
      → start < g.numvert
      → g.numvert ≤ length bitmap * 8
      → ((v : ℕ) → v < g.numvert → getbit bitmap v ≡ some false)
      → (t : PrimState) × (prim_adjmatrix junk bitmap start g ≡ some t) × Tree t
  unfolding prim_adjmatrix
  prim_adjmatrix_total junk bitmap start two lt bytes cleared =
      let k = g.numvert * g.numvert in
      let long : 1 ≤ k = omega (arith, square g.numvert (omega arith)) in
      let all_free = free_cleared bitmap g.numvert cleared in
      let items = replicate (k - 1) junk in
      let most : free bitmap g.numvert * (g.numvert - 1) ≡ g.numvert * (g.numvert - 1) =
        ap (λ f. f * (g.numvert - 1)) all_free in
      let h : Heap = record { count = 0; items = items } in
      let s : PrimState = record {
        v = start;
        weight = 0;
        h = h;
        e = none;
        bitmap = bitmap;
        tree = [];
      } in
      rw (mkqueue-some junk k long) (
        prim_loop-Tree (k + 1) s two
          (record {
            held = record {
              is_queue = record { ordered = λ i lo hi. absurd (omega arith); room = omega arith };
              slots = length-replicate (k - 1) junk;
              bytes = bytes;
              inside = tally_zero (outside g.numvert) 0 items refl;
              budget = omega (arith, most);
              weighed = unfold total in refl;
            };
            vertex = lt;
            first = λ h. cleared start lt;
            counted = omega (arith, all_free);
          })
          (omega (arith, most, square g.numvert (omega arith))))

-- The source allocates one byte for each eight vertices, rounded down. From a start among the vertices
-- that this leaves out, `prim_adjmatrix` reads behind the bitmap at once: a fault.
pub prim_adjmatrix_overrun :
    (junk : Edge) (bitmap : List ℕ) (start : ℕ) (g : Graph)
    → length bitmap ≡ g.numvert / 8
    → g.numvert / 8 * 8 ≤ start
    → start < g.numvert
    → prim_adjmatrix junk bitmap start g ≡ none
unfolding prim_adjmatrix prim_loop visit getbit
prim_adjmatrix_overrun junk bitmap start g size behind lt =
    let k = g.numvert * g.numvert in
    let positive : 1 ≤ g.numvert = omega arith in
    let long : 1 ≤ k = omega (arith, square g.numvert positive) in
    let next : k + 1 ≡ suc k = omega arith in
    let outside : get_elem? bitmap (start / 8) ≡ none =
      get_elem?_outside bitmap (start / 8) (omega arith) in
    rw (mkqueue-some junk k long, next, outside) refl
