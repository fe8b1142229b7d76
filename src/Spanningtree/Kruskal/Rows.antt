-- ===== src/Spanningtree/Kruskal/Rows.antt =====
-- The list of edges that `quicksort` of spanningtree/kruskal.c makes of a matrix, row by row.
use semicomplete_googlecode.Common.{
  ℕ, zero, suc, ◌+◌, ◌≤◌, ◌<◌, ◌≡◌, ◌≢◌, refl, ap, ◌∙◌, inl, inr, true, some, List, arith,
  Bool-cases, ltb, ◌==◌, length, eq_or_ne, lt→ltb, ==_iff, set, length-set, ◌*◌, sym, get_or,
  replicate, length-replicate,
}
use semicomplete_googlecode.Spanningtree.Queue.{Edge}
use semicomplete_googlecode.Spanningtree.Queue.Slots.{nothing, get_or-set_self, get_or-set_ne}
use semicomplete_googlecode.Spanningtree.Adjmatrix.{Graph, weight_of}
use semicomplete_googlecode.Spanningtree.Adjmatrix.Free.{IsGraph}
use semicomplete_googlecode.Spanningtree.Kruskal.{list_row, blank, list_rows}
use semicomplete_googlecode.Spanningtree.Kruskal.Rearranges.{edge_at, weight_at}
use semicomplete_googlecode.Spanningtree.Kruskal.Edges.{Holds-skip, Holds-put, Holds-row, Holds}

-- The edges in front of the count have a weight, and behind them all is zero.
pub record Listed (total : ℕ) (edges : List Edge) (edgecnt : ℕ) : Type 0 where
  pub long : length edges ≡ total
  pub real : (k : ℕ) → k < edgecnt → 0 < weight_at edges k
  pub unused : (k : ℕ) → edgecnt ≤ k → edge_at edges k ≡ blank

put_edge-Listed :
    (total edgecnt : ℕ) (edges : List Edge) (e : Edge)
    → Listed total edges edgecnt
    → edgecnt < total
    → e.weight ≢ 0
    → Listed total (set edges edgecnt e) (edgecnt + 1)
put_edge-Listed total edgecnt edges e l room heavy = record {
  long = length-set edges edgecnt e ∙ l.long;
  real = λ k lt. elim (eq_or_ne edgecnt k) [
    | inl same ↦
        let there =
          ap (λ (f : Edge). f.weight)
            (get_or-set_self edges edgecnt e nothing (omega (arith, l.long))) in
        rw (← same) (omega (arith, there))
    | inr other ↦
        let kept = ap (λ (f : Edge). f.weight) (get_or-set_ne edges edgecnt k e nothing other) in
        omega (arith, kept, l.real k (omega arith))
  ];
  unused = λ k from.
      get_or-set_ne edges edgecnt k e nothing (λ h. absurd (omega arith))
      ∙ l.unused k (omega arith);
}

module _ (g : Graph) (graph : IsGraph g) (total : ℕ) where
  -- What a row from the column `y` on adds: at most an edge for each column but the diagonal.
  record Row (x y left : ℕ) (edgecnt : ℕ) (r : List Edge × ℕ) : Type 0 where
    listed : Listed total r.0 r.1
    most : r.1 ≤ edgecnt + left
    diagonal : y ≤ x → x < y + left → r.1 < edgecnt + left
    held : Holds g x g.numvert r.0 r.1

  list_row-Row :
      (left x y : ℕ) (edges : List Edge) (edgecnt : ℕ)
      → x < g.numvert
      → y + left ≡ g.numvert
      → Listed total edges edgecnt
      → Holds g x y edges edgecnt
      → edgecnt + left ≤ total
      → (r : List Edge × ℕ) × (list_row g left x y (edges, edgecnt) ≡ some r)
        × Row x y left edgecnt r
  unfolding list_row
  list_row-Row zero x y edges edgecnt x_in end l h room =
      let done : y ≡ g.numvert = omega arith in
      (
        (edges, edgecnt),
        refl,
        record {
          listed = l;
          most = omega arith;
          diagonal = λ low high. absurd (omega arith);
          held = rw done at h;
        },
      )
  list_row-Row (suc left) x y edges edgecnt x_in end l h room =
      let (w, there) = graph.square x y x_in (omega arith) in
      rw there (elim (Bool-cases (w == 0)) [
        | inl none_here ↦
            let (r, rest, row) =
              list_row-Row left x (y + 1) edges edgecnt x_in (omega arith) l
                (Holds-skip g x y edges edgecnt h
                  (there ∙ ap (λ n. some n) ((==_iff w 0).0 none_here)))
                (omega arith) in
            (
              r,
              rw none_here rest,
              record {
                listed = row.listed;
                most = omega (arith, row.most);
                diagonal = λ low high. omega (arith, row.most);
                held = row.held;
              },
            )
        | inr edge ↦
            let fits : ltb edgecnt (length edges) ≡ true =
              lt→ltb edgecnt (length edges) (omega (arith, l.long)) in
            let heavy : w ≢ 0 = λ e. (let zero_w = (==_iff w 0).1 e in cc) in
            let e : Edge = record { x = x; y = y; weight = w } in
            let (r, rest, row) =
              list_row-Row left x (y + 1) (set edges edgecnt e) (edgecnt + 1) x_in (omega arith)
                (put_edge-Listed total edgecnt edges e l (omega arith) heavy)
                (Holds-put g x y w edges edgecnt h (omega (arith, l.long)) there heavy)
                (omega arith) in
            (
              r,
              rw (edge, fits) rest,
              record {
                listed = row.listed;
                most = omega (arith, row.most);
                held = row.held;
                diagonal = λ low high. elim (eq_or_ne y x) [
                  | inr other ↦ omega (arith, row.diagonal (omega arith) (omega arith))
                  | inl same ↦
                      let loop : weight_of g x y ≡ some 0 =
                        ap (weight_of g x) same ∙ graph.no_loop x x_in in
                      let both : some w ≡ some 0 = sym there ∙ loop in
                      let no_weight : w ≡ 0 = cc in absurd (heavy no_weight)
                ];
              },
            )
      ])

  -- The rows from `x` on leave out the diagonal.
  record Rows (x left edgecnt : ℕ) (r : List Edge × ℕ) : Type 0 where
    listed : Listed total r.0 r.1
    most : r.1 + left ≤ edgecnt + left * g.numvert
    held : Holds g g.numvert 0 r.0 r.1

  list_rows-Rows :
      (left x : ℕ) (edges : List Edge) (edgecnt : ℕ)
      → x + left ≡ g.numvert
      → Listed total edges edgecnt
      → Holds g x 0 edges edgecnt
      → edgecnt + left * g.numvert ≤ total
      → (r : List Edge × ℕ) × (list_rows g left x (edges, edgecnt) ≡ some r) × Rows x left edgecnt r
  unfolding list_rows
  list_rows-Rows zero x edges edgecnt end l h room =
      let done : x ≡ g.numvert = omega arith in
      ((edges, edgecnt), refl, record { listed = l; most = omega arith; held = rw done at h })
  list_rows-Rows (suc left) x edges edgecnt end l h room =
      let product : suc left * g.numvert ≡ g.numvert + left * g.numvert = omega arith in
      let ((mid, cnt), first, row) =
        list_row-Row g.numvert x 0 edges edgecnt (omega arith) (omega arith) l h (omega arith) in
      let fewer = row.diagonal (omega arith) (omega arith) in
      let (r, rest, rows) =
        list_rows-Rows left (x + 1) mid cnt (omega arith) row.listed
          (Holds-row g x mid cnt row.held) (omega arith) in
      (
        r,
        rw first rest,
        record {
          listed = rows.listed;
          most = omega (arith, rows.most, fewer, product);
          held = rows.held;
        },
      )

get_or-replicate : (n k : ℕ) → get_or (replicate n blank) k nothing ≡ blank
get_or-replicate zero k = refl
get_or-replicate (suc n) zero = refl
get_or-replicate (suc n) (suc k) = get_or-replicate n k

-- The whole list; there is room behind it.
pub list_rows-Listed :
    (g : Graph)
    → IsGraph g
    → 1 ≤ g.numvert
    → (r : List Edge × ℕ) × (list_rows g g.numvert 0 (replicate (g.numvert * g.numvert) blank, 0)
        ≡ some r)
      × Listed (g.numvert * g.numvert) r.0 r.1
      × Holds g g.numvert 0 r.0 r.1
      × (r.1 < g.numvert * g.numvert)
list_rows-Listed g graph some_vertex =
    let total = g.numvert * g.numvert in
    let start : Listed total (replicate total blank) 0 = record {
      long = length-replicate total blank;
      real = λ k lt. absurd (omega arith);
      unused = λ k from. get_or-replicate total k;
    } in
    let (r, listed, rows) =
      list_rows-Rows g graph total g.numvert 0 (replicate total blank) 0 (omega arith) start
        (record {
          drawn = λ k lt. absurd (omega arith);
          covers = λ e before is_edge. elim before [
            | inl (row, column) ↦ absurd (omega arith)
            | inr (row, column) ↦ absurd (omega arith)
          ];
        })
        (omega arith) in
    (r, listed, rows.listed, rows.held, omega (arith, rows.most))
