-- ===== src/Spanningtree/Queue/Queues.antt =====
-- What the queue of spanningtree/prim.c promises: it keeps its edges, and gives a lightest one.
use semicomplete_googlecode.Common.{
  ℕ, zero, suc, ◌+◌, ◌≤◌, ◌<◌, ◌≡◌, ◌≢◌, refl, true, false, some, List, arith, length, inl, inr,
  ◌==◌, ◌-◌, ◌∙◌, Bool, set, length-set, ◌/◌, ap, sym, ◌⊎◌, none, eq_or_ne,
}
use semicomplete_googlecode.Spanningtree.Queue.{Edge, heapify, Heap, enqueue, dequeue}
use semicomplete_googlecode.Spanningtree.Queue.Slots.{
  swapped, Inside, length-swapped, swap-Inside, put_item-Inside, at-set_self, at-set_ne, at,
  item-Inside,
}
use semicomplete_googlecode.Spanningtree.Queue.Moves.{
  weight_at, Built, swapped-Swapped, Built-swapped, buildheap_from-Built,
}
use semicomplete_googlecode.Spanningtree.Queue.Down.{chosen}
use semicomplete_googlecode.Spanningtree.Queue.Heaps.{
  OrderedButDown, OrderedButDown-swap, Ordered-down, Ordered, Ordered-root,
}
use semicomplete_googlecode.Spanningtree.Queue.Tally.{
  tally, one, tally-set_behind, tally_suc, tally_put, tally_zero,
}

heapify-Built :
    (fuel i n : ℕ) (items : List Edge)
    → 1 ≤ fuel
    → n < fuel + i
    → 1 ≤ i
    → n ≤ length items
    → OrderedButDown (weight_at items) n i
    → (built : List Edge) × (heapify fuel n i items ≡ some built) × Built n items built
unfolding heapify
heapify-Built zero i n items some_fuel f one_up room h = absurd (omega arith)
heapify-Built (suc fuel) i n items some_fuel f one_up room h =
    let c = chosen items n room i one_up in
    rw (c.left_found, c.min_found)
      (elim c.which [
        | inl (e, least) ↦
            let stays : (c.choice == i) ≡ true = ground arith in
            rw stays (
              items,
              refl,
              record {
                ordered = Ordered-down (weight_at items) n i h least;
                same_edges = λ p. refl;
                same_length = refl;
              },
            )
        | inr l ↦
            let differ : i ≢ c.choice = omega (arith, l.child) in
            let moves : (c.choice == i) ≡ false = ground arith in
            let min_below : c.choice ≤ n = l.known in
            let in_i : Inside items i = (one_up, omega (arith, l.child)) in
            let in_min : Inside items c.choice = (omega (arith, l.child), omega arith) in
            let s = swapped-Swapped items i c.choice in_i in_min differ in
            let (built, made, b) =
              heapify-Built fuel c.choice n (swapped items i c.choice) (omega (arith, l.child))
                (omega (arith, l.child)) in_min.0 (omega (arith, length-swapped items i c.choice))
                (OrderedButDown-swap (weight_at items) (weight_at (swapped items i c.choice)) n i
                  c.choice one_up l s h) in
            rw (moves, swap-Inside items i c.choice in_i in_min differ)
              (
                built,
                made,
                Built-swapped n i c.choice items built (omega (arith, l.child)) min_below in_i
                    in_min differ b,
              )
      ])

-- The heap is in order, and fits its array.
pub record IsQueue (heap : Heap) : Type 0 where
  pub ordered : Ordered (weight_at heap.items) heap.count
  pub room : heap.count ≤ length heap.items

-- How many edges of a kind are in the queue.
abbrev pub holds : (Edge → Bool) → Heap → ℕ
holds p heap = tally p heap.count heap.items

-- `enqueue` on a queue that has room meets no fault: the queue that it gives is in order again
-- and holds the edge beside those that it held before.
pub enqueue_correct :
    (heap : Heap) (e : Edge)
    → IsQueue heap
    → heap.count < length heap.items
    → (after : Heap) × (enqueue heap e ≡ some after)
      × IsQueue after
      × (after.count ≡ heap.count + 1)
      × (length after.items ≡ length heap.items)
      × ((p : Edge → Bool) → holds p after ≡ holds p heap + one (p e))
unfolding enqueue
enqueue_correct heap e q free =
    let n = heap.count + 1 in
    let inside : Inside heap.items n = (omega arith, omega arith) in
    let added = set heap.items (n - 1) e in
    let long : n ≤ length added = omega (arith, length-set heap.items (n - 1) e) in
    let same : (k : ℕ) → 1 ≤ k → k ≢ n → weight_at added k ≡ weight_at heap.items k =
      λ k one_up other.
        ap (λ x. x.weight) (at-set_ne heap.items n k e (omega arith) one_up (λ h. other (sym h))) in
    let (built, made, b) =
      buildheap_from-Built (heap.count + 2) n n added (omega arith) (omega arith) (omega arith) long
        (record {
          above = λ i lo hi ne.
              rw (same i (omega arith) ne, same (i / 2) (omega arith) (omega arith))
                (q.ordered i lo (omega arith));
          over = λ i lo hi child two. absurd (omega arith);
        }) in
    rw (put_item-Inside heap.items n e inside, made)
      (
        _,
        refl,
        record { ordered = b.ordered; room = omega (arith, b.same_length) },
        refl,
        b.same_length ∙ length-set heap.items (n - 1) e,
        λ p. omega (
          arith,
          b.same_edges p,
          tally_suc p heap.count n added refl long,
          tally-set_behind p heap.count (n - 1) heap.items e (omega arith),
          ap (λ x. one (p x)) (at-set_self heap.items n e inside),
        ),
      )

-- The last edge in the place of the first.
module _ (heap : Heap) (q : IsQueue heap) (some_edge : 1 ≤ heap.count) where
  abbrev last_moved : List Edge
  last_moved = set heap.items 0 (at heap.items heap.count)

  last_moved-OrderedButDown : OrderedButDown (weight_at last_moved) (heap.count - 1) 1
  last_moved-OrderedButDown =
      let room = q.room in
      let same : (k : ℕ) → 2 ≤ k → weight_at last_moved k ≡ weight_at heap.items k = λ k two.
        ap (λ x. x.weight)
          (at-set_ne heap.items 1 k (at heap.items heap.count) (omega arith) (omega arith)
            (omega arith)) in
      record {
        below =
            λ i lo hi ne. rw (same i lo, same (i / 2) (omega arith)) (q.ordered i lo (omega arith));
        under = λ i lo hi child two. absurd (omega arith);
      }

  holds-last_moved :
      (p : Edge → Bool)
      → holds p heap ≡ tally p (heap.count - 1) last_moved + one (p (at heap.items 1))
  holds-last_moved p =
      let room = q.room in
      let split = tally_suc p (heap.count - 1) heap.count heap.items (omega arith) room in
      elim (eq_or_ne heap.count 1) [
        | inr more ↦ omega (
          arith,
          split,
          tally_put p (heap.count - 1) 1 heap.items (at heap.items heap.count) (omega arith)
              (omega arith, omega arith),
        )
        | inl single ↦ omega (
          arith,
          split,
          tally_zero p (heap.count - 1) heap.items (omega arith),
          tally_zero p (heap.count - 1) last_moved (omega arith),
          ap (λ i. one (p (at heap.items i))) single,
        )
      ]

-- `dequeue` on a queue gives nothing and changes nothing where it is empty; otherwise it gives an
-- edge that no edge of the queue is lighter than, and leaves a queue in order that holds the
-- other edges.
pub dequeue_correct :
    (heap : Heap)
    → IsQueue heap
    → 1 ≤ length heap.items
    → ((heap.count ≡ 0) × (dequeue heap ≡ some (none, heap)))
      ⊎ ((e : Edge) × (after : Heap) × (dequeue heap ≡ some (some e, after))
          × IsQueue after
          × (after.count + 1 ≡ heap.count)
          × (length after.items ≡ length heap.items)
          × ((i : ℕ) → 1 ≤ i → i ≤ heap.count → e.weight ≤ weight_at heap.items i)
          × ((p : Edge → Bool) → holds p heap ≡ holds p after + one (p e)))
unfolding dequeue
dequeue_correct heap q slots = elim (eq_or_ne heap.count 0) [
  | inl empty ↦
      let e : (heap.count == 0) ≡ true = ground arith in
      inl (empty, rw (item-Inside heap.items 1 (omega arith, slots), e) refl)
  | inr some_edges ↦
      let room = q.room in
      let e : (heap.count == 0) ≡ false = ground arith in
      let one_up : 1 ≤ heap.count = omega arith in
      let in_last : Inside heap.items heap.count = (one_up, room) in
      let in_first : Inside heap.items 1 = (omega arith, slots) in
      let moved = set heap.items 0 (at heap.items heap.count) in
      let (built, made, b) =
        heapify-Built (heap.count + 1) 1 (heap.count - 1) moved (omega arith) (omega arith)
          (omega arith) (omega (arith, length-set heap.items 0 (at heap.items heap.count)))
          (last_moved-OrderedButDown heap q one_up) in
      let after : Heap = record { count = heap.count - 1; items = built } in
      inr (
        at heap.items 1,
        after,
        rw
            (
              item-Inside heap.items 1 in_first,
              e,
              item-Inside heap.items heap.count in_last,
              put_item-Inside heap.items 1 (at heap.items heap.count) in_first,
              made,
            )
            refl,
        record {
          ordered = b.ordered;
          room = omega (arith, b.same_length, length-set heap.items 0 (at heap.items heap.count));
        },
        omega arith,
        b.same_length ∙ length-set heap.items 0 (at heap.items heap.count),
        λ i lo hi. Ordered-root i (weight_at heap.items) heap.count q.ordered i (omega arith) lo hi,
        λ p. omega (arith, b.same_edges p, holds-last_moved heap q one_up p),
      )
]
