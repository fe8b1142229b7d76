-- ===== src/Spanningtree/Queue.antt =====
-- The priority queue of spanningtree/prim.c, a heap in an array. Slot 0 of the array holds the
-- count; `items` are the slots from 1 on. An access outside of the array is a fault.
pub mod Slots
pub mod Tally
pub mod Heaps
pub mod Moves
pub mod Down
pub mod Queues
use semicomplete_googlecode.Common.{
  ℕ, zero, suc, ◌+◌, ◌-◌, ◌*◌, ◌/◌, Option, none, some, List, ltb, leb, ◌==◌, if◌then◌else◌, ◌>>=◌,
  length, get_elem?, set, replicate, min,
}

pub record Edge : Type 0 where
  pub x : ℕ
  pub y : ℕ
  pub weight : ℕ

pub record Heap : Type 0 where
  pub count : ℕ
  pub items : List Edge

-- `ITEM(heap, i)`, read and written.
unfoldable pub item : List Edge → ℕ → Option Edge
item items i = get_elem? items (i - 1)

unfoldable pub put_item : List Edge → ℕ → Edge → Option (List Edge)
put_item items i e = if ltb (i - 1) (length items) then some (set items (i - 1) e) else none

unfoldable pub swap : List Edge → ℕ → ℕ → Option (List Edge)
unfolding item put_item
swap items i j = do
  t ← item items i
  u ← item items j
  first ← put_item items i u
  put_item first j t

-- `malloc` leaves the slots indeterminate.
unfoldable pub mkqueue : Edge → ℕ → Option Heap
mkqueue junk zero = none
mkqueue junk (suc n) = some (record { count = 0; items = replicate n junk })

-- The loop of `buildheap` from the slot `x` up; each round halves `x`.
unfoldable pub buildheap_from : ℕ → ℕ → List Edge → Option (List Edge)
buildheap_from zero x items = none
buildheap_from (suc fuel) x items =
    let up = (do swapped ← swap items x (x / 2); buildheap_from fuel (x / 2) swapped) in
    if ltb 1 x
    then (do
      a ← item items x
      b ← item items (x / 2)
      if leb b.weight a.weight then some items else up)
    else some items

unfoldable pub enqueue : Heap → Edge → Option Heap
unfolding buildheap_from put_item
enqueue heap e = do
  added ← put_item heap.items (heap.count + 1) e
  built ← buildheap_from (heap.count + 2) (heap.count + 1) added
  some (record { count = heap.count + 1; items = built })

-- The smaller of the slot `j`, where it is inside, and the slot `m`.
unfoldable pub smaller : List Edge → ℕ → ℕ → ℕ → Option ℕ
unfolding item
smaller items size j m =
    if leb j size
    then (do a ← item items j; b ← item items m; some (if ltb a.weight b.weight then j else m))
    else some m

-- Each call goes down one level.
unfoldable pub heapify : ℕ → ℕ → ℕ → List Edge → Option (List Edge)
heapify zero size i items = none
heapify (suc fuel) size i items = do
  left ← smaller items size (i * 2 + 1) i
  min ← smaller items size (i * 2) left
  let down = (do swapped ← swap items i min; heapify fuel size min swapped)
  if min == i then some items else down

unfoldable pub dequeue : Heap → Option (Option Edge × Heap)
unfolding heapify item put_item
dequeue heap = do
  t ← item heap.items 1
  let taken = (do
    last ← item heap.items heap.count
    moved ← put_item heap.items 1 last
    built ← heapify (heap.count + 1) (heap.count - 1) 1 moved
    some (some t, record { count = heap.count - 1; items = built }))
  if heap.count == 0 then some (none, heap) else taken
