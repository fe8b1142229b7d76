-- ===== src/Spanningtree/Queue/Moves.antt =====
-- The two loops of the queue of spanningtree/prim.c: `buildheap` on the way up, `heapify` down.
use semicomplete_googlecode.Common.{
  ℕ, zero, suc, ◌/◌, ◌≤◌, ◌<◌, ◌≡◌, ◌≢◌, refl, ap, ◌∙◌, Bool, some, List, arith, length, ltb, leb,
  inl, inr, Bool-cases,
}
use semicomplete_googlecode.Spanningtree.Queue.{Edge, buildheap_from}
use semicomplete_googlecode.Spanningtree.Queue.Slots.{
  at, swapped, Inside, item-Inside, length-swapped, swap-Inside, at-swapped_first,
  at-swapped_second, at-swapped_other,
}
use semicomplete_googlecode.Spanningtree.Queue.Tally.{tally, one, tally-swapped}
use semicomplete_googlecode.Spanningtree.Queue.Heaps.{
  Ordered, Swapped, OrderedButUp-swap, Ordered-up, OrderedButUp,
}

abbrev pub weight_at : List Edge → ℕ → ℕ
weight_at items i = (at items i).weight

-- The heap in the first `n` slots after a loop.
pub record Built (n : ℕ) (items built : List Edge) : Type 0 where
  pub ordered : Ordered (weight_at built) n
  pub same_edges : (p : Edge → Bool) → tally p n built ≡ tally p n items
  pub same_length : length built ≡ length items

pub swapped-Swapped :
    (items : List Edge) (i j : ℕ)
    → Inside items i
    → Inside items j
    → i ≢ j
    → Swapped (weight_at items) (weight_at (swapped items i j)) i j
swapped-Swapped items i j hi hj differ = record {
  first = ap (λ e. e.weight) (at-swapped_first items i j hi hj differ);
  second = ap (λ e. e.weight) (at-swapped_second items i j hi hj differ);
  other = λ k one ni nj. ap (λ e. e.weight) (at-swapped_other items i j hi hj differ k one ni nj);
}

-- A heap built after a swap is one built from the items as they were.
pub Built-swapped :
    (n i j : ℕ) (items built : List Edge)
    → i ≤ n
    → j ≤ n
    → Inside items i
    → Inside items j
    → i ≢ j
    → Built n (swapped items i j) built
    → Built n items built
Built-swapped n i j items built li lj hi hj differ b = record {
  ordered = b.ordered;
  same_edges = λ p. b.same_edges p ∙ tally-swapped p n i j items li lj hi hj differ;
  same_length = b.same_length ∙ length-swapped items i j;
}

pub buildheap_from-Built :
    (fuel x n : ℕ) (items : List Edge)
    → x < fuel
    → 1 ≤ x
    → x ≤ n
    → n ≤ length items
    → OrderedButUp (weight_at items) n x
    → (built : List Edge) × (buildheap_from fuel x items ≡ some built) × Built n items built
unfolding buildheap_from
buildheap_from-Built zero x n items f one inside room h = absurd (omega arith)
buildheap_from-Built (suc fuel) x n items f one inside room h = elim (Bool-cases (ltb 1 x)) [
  | inr root ↦ rw root (
    items,
    refl,
    record {
      ordered = Ordered-up (weight_at items) n x h (λ two. ground arith);
      same_edges = λ p. refl;
      same_length = refl;
    },
  )
  | inl deeper ↦
      let two : 2 ≤ x = ground arith in
      let in_x : Inside items x = (one, omega arith) in
      let in_parent : Inside items (x / 2) = (omega arith, omega arith) in
      let differ : x ≢ x / 2 = omega arith in
      rw (deeper, item-Inside items x in_x, item-Inside items (x / 2) in_parent)
        (elim (Bool-cases (leb (weight_at items (x / 2)) (weight_at items x))) [
          | inl fits ↦ rw fits (
            items,
            refl,
            record {
              ordered = Ordered-up (weight_at items) n x h (λ t. ground arith);
              same_edges = λ p. refl;
              same_length = refl;
            },
          )
          | inr lighter ↦
              let next =
                buildheap_from-Built fuel (x / 2) n (swapped items x (x / 2)) (omega arith)
                  (omega arith) (omega arith) (omega (arith, length-swapped items x (x / 2)))
                  (OrderedButUp-swap (weight_at items) _ n x two (ground arith)
                    (swapped-Swapped items x (x / 2) in_x in_parent differ) h) in
              let (built, made, b) = next in
              rw (lighter, swap-Inside items x (x / 2) in_x in_parent differ)
                (
                  built,
                  made,
                  Built-swapped n x (x / 2) items built inside (omega arith) in_x in_parent differ
                      b,
                )
        ])
]
