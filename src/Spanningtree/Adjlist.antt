-- ===== src/Spanningtree/Adjlist.antt =====
-- `prim_adjlist` of spanningtree/prim.c, over a copy of the matrix in lists of edges. An edge with the
-- weight -1, the end mark of a list, is `none`; a write outside of a list is a fault.
use semicomplete_googlecode.Common.{
  ℕ, zero, suc, ◌+◌, ◌*◌, ◌≤◌, ◌≡◌, refl, ◌⊎◌, Option, none, some, List, [], ◌∷◌, ◌++◌, arith, ltb,
  ◌==◌, if◌then◌else◌, ◌>>=◌, length, get_elem?, set, replicate, length-set, length-replicate,
  Option-cases, Bool-cases, inl, inr, ltb-false, ◌∙◌, false,
}
use semicomplete_googlecode.Spanningtree.Queue.{Edge, Heap, mkqueue, enqueue, dequeue}
use semicomplete_googlecode.Spanningtree.Bitmap.{getbit, setbit}
use semicomplete_googlecode.Spanningtree.Adjmatrix.{
  Graph, weight_of, PrimState, edge_weight, edge_list, next_vertex,
}

unfoldable pub put_edge : List (Option Edge) → ℕ → Option Edge → Option (List (Option Edge))
put_edge row y e = if ltb y (length row) then some (set row y e) else none

-- The edges of the row `x`, for `left` columns from `y` on.
unfoldable pub fill_row : Graph → ℕ → ℕ → ℕ → List (Option Edge) → Option (List (Option Edge))
unfolding put_edge
fill_row g zero y x row = some row
fill_row g (suc left) y x row = do
  w ← weight_of g x y
  next ← put_edge row y (some (record { x = x; y = y; weight = w }))
  fill_row g left (y + 1) x next

-- A list has a slot for each vertex, and the mark is written behind them.
unfoldable pub build_row : Graph → Edge → ℕ → Option (List (Option Edge))
unfolding fill_row
build_row g junk x = do
  row ← fill_row g g.numvert 0 x (replicate g.numvert (some junk))
  put_edge row g.numvert none

unfoldable pub build_lists : Graph → Edge → ℕ → ℕ → Option (List (List (Option Edge)))
unfolding build_row
build_lists g junk zero x = some []
build_lists g junk (suc left) x = do
  row ← build_row g junk x
  rows ← build_lists g junk left (x + 1)
  some (row ∷ rows)

-- The mark is read before the index is compared.
unfoldable pub add_listed : Graph → List (Option Edge) → ℕ → ℕ → ℕ → Heap → Option Heap
add_listed g row zero y v h = some h
add_listed g row (suc left) y v h = do
  entry ← get_elem? row y
  let more = (do
    w ← weight_of g v y
    next ← if w == 0 then some h else enqueue h (record { x = v; y = y; weight = w })
    add_listed g row left (y + 1) v next)
  elim entry [ none ↦ some h | some e ↦ if ltb y g.numvert then more else some h ]

unfoldable pub visit_listed : Graph → List (List (Option Edge)) → PrimState → Option PrimState
unfolding add_listed
visit_listed g list s = do
  seen ← getbit s.bitmap s.v
  let fresh = (do
    bitmap ← setbit s.bitmap s.v
    row ← get_elem? list s.v
    h ← add_listed g row (g.numvert + 1) 0 s.v s.h
    some (record s {
      bitmap = bitmap;
      h = h;
      weight = s.weight + edge_weight s.e;
      tree = s.tree ++ edge_list s.e;
    }))
  if seen then some s else fresh

unfoldable pub listed_loop : ℕ → Graph → List (List (Option Edge)) → PrimState → Option PrimState
unfolding visit_listed
listed_loop zero g list s = none
listed_loop (suc fuel) g list s = do
  t ← visit_listed g list s
  (popped, h) ← dequeue t.h
  elim popped [
    | none ↦ some (record t { h = h; e = none })
    | some e ↦ (do
      v ← next_vertex t.bitmap e
      listed_loop fuel g list (record t { h = h; e = some e; v = v }))
  ]

unfoldable pub prim_adjlist : Edge → List ℕ → ℕ → Graph → Option PrimState
unfolding build_lists listed_loop
prim_adjlist junk bitmap start g = do
  h ← mkqueue junk (g.numvert * g.numvert)
  list ← build_lists g junk g.numvert 0
  listed_loop (g.numvert * g.numvert + 1) g list
      (record { v = start; weight = 0; h = h; e = none; bitmap = bitmap; tree = [] })

-- The length of a list stays.
length-fill_row :
    (g : Graph) (left y x : ℕ) (row : List (Option Edge))
    → (fill_row g left y x row ≡ none)
      ⊎ ((filled : List (Option Edge)) × (fill_row g left y x row ≡ some filled)
          × (length filled ≡ length row))
unfolding fill_row put_edge
length-fill_row g zero y x row = inr (row, refl, refl)
length-fill_row g (suc left) y x row = elim (Option-cases (weight_of g x y)) [
  | inl missing ↦ rw missing (inl refl)
  | inr (w, there) ↦ elim (Bool-cases (ltb y (length row))) [
    | inr outside ↦ rw (there, outside) (inl refl)
    | inl inside ↦
        rw (there, inside)
          (elim (length-fill_row g left (y + 1) x
            (set row y (some (record { x = x; y = y; weight = w })))) [
              | inl fails ↦ inl fails
              | inr (filled, made, long) ↦ inr (
                filled,
                made,
                long ∙ length-set row y (some (record { x = x; y = y; weight = w })),
              )
            ])
  ]
]

build_row-none : (g : Graph) (junk : Edge) (x : ℕ) → build_row g junk x ≡ none
unfolding build_row put_edge
build_row-none g junk x = elim (length-fill_row g g.numvert 0 x (replicate g.numvert (some junk))) [
  | inl fails ↦ rw fails refl
  | inr (filled, made, long) ↦
      let behind : ltb g.numvert (length filled) ≡ false =
        ltb-false _ _ (omega (arith, long, length-replicate g.numvert (some junk))) in
      rw (made, behind) refl
]

build_lists-none : (g : Graph) (junk : Edge) (n : ℕ) → 1 ≤ n → build_lists g junk n 0 ≡ none
unfolding build_lists
build_lists-none g junk zero h = absurd (omega arith)
build_lists-none g junk (suc n) h = rw (build_row-none g junk 0) refl

-- On a graph of a vertex or more, whatever its weights, `prim_adjlist` writes behind the first list:
-- a fault.
pub prim_adjlist_overrun :
    (junk : Edge) (bitmap : List ℕ) (start : ℕ) (g : Graph)
    → 1 ≤ g.numvert
    → prim_adjlist junk bitmap start g ≡ none
unfolding prim_adjlist
prim_adjlist_overrun junk bitmap start g h =
    elim (Option-cases (mkqueue junk (g.numvert * g.numvert))) [
      | inl fails ↦ rw fails refl
      | inr (heap, made) ↦ rw (made, build_lists-none g junk g.numvert h) refl
    ]
