-- ===== src/Spanningtree/Countsort/Counts.antt =====
-- `countsort` of spanningtree/kruskal.c lists the same edges as `quicksort`, and counts those of each
-- weight.
use semicomplete_googlecode.Common.{
  ℕ, zero, suc, ◌+◌, ◌<◌, ◌≡◌, refl, ap, ◌∙◌, Bool, true, some, none, List, ltb, ltb→lt, lt→ltb,
  ◌==◌, length, set, get_or, length-set, inl, inr, eq_or_ne, Bool-cases, Option-cases, arith,
}
use semicomplete_googlecode.Spanningtree.Queue.{Edge}
use semicomplete_googlecode.Spanningtree.Queue.Slots.{
  nothing, get_elem?-get_or, get_or-set_self, get_or-set_ne,
}
use semicomplete_googlecode.Spanningtree.Queue.Tally.{tally, one, tally-set, tally_step}
use semicomplete_googlecode.Spanningtree.Adjmatrix.{Graph, weight_of}
use semicomplete_googlecode.Spanningtree.Kruskal.{list_row, list_rows}
use semicomplete_googlecode.Spanningtree.Kruskal.Rearranges.{weight_at}
use semicomplete_googlecode.Spanningtree.Countsort.{count_edge, count_row, count_rows}
use semicomplete_googlecode.Spanningtree.Countsort.Sums.{weighs}

-- The array has the number of the first `n` edges of each weight, and all of these have a weight.
pub record Counts (max n : ℕ) (edges : List Edge) (countarr : List ℕ) : Type 0 where
  pub long : length countarr ≡ max
  pub counted : (w : ℕ) → w < max → get_or countarr w 0 ≡ tally (weighs w) n edges
  pub light : (k : ℕ) → k < n → weight_at edges k < max

tally_put_behind :
    (p : Edge → Bool) (n : ℕ) (edges : List Edge) (e : Edge)
    → n < length edges
    → tally p (n + 1) (set edges n e) ≡ tally p n edges + one (p e)
tally_put_behind p n edges e room =
    let next : n + 1 ≡ suc n = omega arith in
    rw next
      (omega (arith, tally-set p (suc n) n edges e (omega arith) room, tally_step p n edges room))

count_edge-Counts :
    (max n : ℕ) (edges : List Edge) (countarr : List ℕ) (e : Edge)
    → Counts max n edges countarr
    → e.weight < max
    → n < length edges
    → (after : List ℕ) × (count_edge max e
          (record { edges = edges; edgepiv = n; countarr = countarr })
        ≡ some (record { edges = set edges n e; edgepiv = n + 1; countarr = after }))
      × Counts max (n + 1) (set edges n e) after
unfolding count_edge
count_edge-Counts max n edges countarr e c light room =
    let old = get_or countarr e.weight 0 in
    let small : ltb e.weight max ≡ true = lt→ltb _ _ light in
    let fits : ltb n (length edges) ≡ true = lt→ltb _ _ room in
    let after = set countarr e.weight (old + 1) in
    (
      after,
      rw (small, get_elem?-get_or countarr e.weight 0 (omega (arith, c.long)), fits) refl,
      record {
        long = length-set countarr e.weight (old + 1) ∙ c.long;
        counted = λ w h. elim (eq_or_ne e.weight w) [
          | inl same ↦
              let hit : one (e.weight == w) ≡ 1 = ground arith in
              rw (← same) (
                omega (
                  arith,
                  get_or-set_self countarr e.weight (old + 1) 0 (omega (arith, c.long)),
                  c.counted e.weight light,
                  tally_put_behind (weighs e.weight) n edges e room,
                  rw (← same) at hit,
                ))
          | inr other ↦
              let miss : one (e.weight == w) ≡ 0 = ground arith in
              omega (
                arith,
                get_or-set_ne countarr e.weight w (old + 1) 0 other,
                c.counted w h,
                tally_put_behind (weighs w) n edges e room,
                miss,
              )
        ];
        light = λ k h. elim (eq_or_ne n k) [
          | inl same ↦
              rw (← same) (
                omega (arith, ap (λ (f : Edge). f.weight) (get_or-set_self edges n e nothing room)))
          | inr other ↦ omega (
            arith,
            c.light k (omega arith),
            ap (λ (f : Edge). f.weight) (get_or-set_ne edges n k e nothing other),
          )
        ];
      },
    )

module _ (max : ℕ) (g : Graph)
    (square : (x y : ℕ)
      → x < g.numvert
      → y < g.numvert
      → (w : ℕ) × (weight_of g x y ≡ some w) × (w < max)) where
  count_row-Counts :
      (left x y n : ℕ) (edges : List Edge) (countarr : List ℕ) (r : List Edge × ℕ)
      → x < g.numvert
      → y + left ≡ g.numvert
      → Counts max n edges countarr
      → list_row g left x y (edges, n) ≡ some r
      → (after : List ℕ) × (count_row max g left x y
            (record { edges = edges; edgepiv = n; countarr = countarr })
          ≡ some (record { edges = r.0; edgepiv = r.1; countarr = after }))
        × Counts max r.1 r.0 after
  unfolding count_row list_row
  count_row-Counts zero x y n edges countarr r x_in end c ran =
      let e : (edges, n) ≡ r = cc in (countarr, rw (← e) refl, rw (← e) c)
  count_row-Counts (suc left) x y n edges countarr r x_in end c ran =
      let (w, there, light) = square x y x_in (omega arith) in
      let edge : Edge = record { x = x; y = y; weight = w } in
      elim (Bool-cases (w == 0)) [
        | inl none_here ↦
            let rest : list_row g left x (y + 1) (edges, n) ≡ some r =
              rw (there, none_here) at ran in
            let (after, counted, d) =
              count_row-Counts left x (y + 1) n edges countarr r x_in (omega arith) c rest in
            (after, rw (there, none_here) counted, d)
        | inr here ↦ elim (Bool-cases (ltb n (length edges))) [
          | inr full ↦ let clash : none ≡ some r = rw (there, here, full) at ran in cc
          | inl room ↦
              let rest : list_row g left x (y + 1) (set edges n edge, n + 1) ≡ some r =
                rw (there, here, room) at ran in
              let (next, put, d) =
                count_edge-Counts max n edges countarr edge c light (ltb→lt _ _ room) in
              let (after, counted, e) =
                count_row-Counts left x (y + 1) (n + 1) (set edges n edge) next r x_in (omega arith)
                  d rest in
              (after, rw (there, here, put) counted, e)
        ]
      ]

  pub count_rows-Counts :
      (left x n : ℕ) (edges : List Edge) (countarr : List ℕ) (r : List Edge × ℕ)
      → x + left ≡ g.numvert
      → Counts max n edges countarr
      → list_rows g left x (edges, n) ≡ some r
      → (after : List ℕ) × (count_rows max g left x
            (record { edges = edges; edgepiv = n; countarr = countarr })
          ≡ some (record { edges = r.0; edgepiv = r.1; countarr = after }))
        × Counts max r.1 r.0 after
  unfolding count_rows list_rows
  count_rows-Counts zero x n edges countarr r end c ran =
      let e : (edges, n) ≡ r = cc in (countarr, rw (← e) refl, rw (← e) c)
  count_rows-Counts (suc left) x n edges countarr r end c ran =
      elim (Option-cases (list_row g g.numvert x 0 (edges, n))) [
        | inl failed ↦ let clash : none ≡ some r = rw failed at ran in cc
        | inr ((mid, m), first) ↦
            let rest : list_rows g left (x + 1) (mid, m) ≡ some r = rw first at ran in
            let (next, row, d) =
              count_row-Counts g.numvert x 0 n edges countarr (mid, m) (omega arith) (omega arith) c
                first in
            let (after, rows, e) =
              count_rows-Counts left (x + 1) m mid next r (omega arith) d rest in
            (after, rw row rows, e)
      ]
