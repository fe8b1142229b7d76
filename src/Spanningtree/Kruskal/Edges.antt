-- ===== src/Spanningtree/Kruskal/Edges.antt =====
-- That the list which `quicksort` of spanningtree/kruskal.c makes of a matrix has each of its edges.
use semicomplete_googlecode.Common.{
  ℕ, ◌+◌, ◌<◌, ◌≡◌, ◌≢◌, refl, ap, ◌∙◌, inl, inr, ◌⊎◌, some, List, arith, length, eq_or_ne, set,
  sym,
}
use semicomplete_googlecode.Spanningtree.Queue.{Edge}
use semicomplete_googlecode.Spanningtree.Queue.Slots.{nothing, get_or-set_self, get_or-set_ne}
use semicomplete_googlecode.Spanningtree.Adjmatrix.{Graph, weight_of}
use semicomplete_googlecode.Spanningtree.Kruskal.Rearranges.{edge_at}

abbrev pub IsEdge : Graph → Edge → Type 0
IsEdge g e = (weight_of g e.x e.y ≡ some e.weight) × (0 < e.weight)

same_edge :
    (e : Edge) (x y w : ℕ)
    → e.x ≡ x
    → e.y ≡ y
    → e.weight ≡ w
    → record { x = x; y = y; weight = w } ≡ e
same_edge e x y w hx hy hw = rw (← hx, ← hy, ← hw) refl

module _ (g : Graph) where
  -- In the rows in front of `x`, or in that row in front of the column `y`.
  abbrev Before : ℕ → ℕ → Edge → Type 0
  Before x y e = ((e.x < x) × (e.y < g.numvert)) ⊎ ((e.x ≡ x) × (e.y < y))

  -- The list is of the matrix in front of a place.
  pub record Holds (x y : ℕ) (edges : List Edge) (edgecnt : ℕ) : Type 0 where
    pub drawn : (k : ℕ) → k < edgecnt → IsEdge g (edge_at edges k)
    pub covers :
        (e : Edge) → Before x y e → IsEdge g e → (k : ℕ) × (k < edgecnt) × (edge_at edges k ≡ e)

  pub Holds-put :
      (x y w : ℕ) (edges : List Edge) (edgecnt : ℕ)
      → Holds x y edges edgecnt
      → edgecnt < length edges
      → weight_of g x y ≡ some w
      → w ≢ 0
      → Holds x (y + 1) (set edges edgecnt (record { x = x; y = y; weight = w })) (edgecnt + 1)
  Holds-put x y w edges edgecnt h room there heavy =
      let new : Edge = record { x = x; y = y; weight = w } in
      let self = get_or-set_self edges edgecnt new nothing room in
      record {
        drawn = λ k lt. elim (eq_or_ne edgecnt k) [
          | inl same ↦ rw (← same, self) (there, omega arith)
          | inr other ↦
              rw (get_or-set_ne edges edgecnt k new nothing other) (h.drawn k (omega arith))
        ];
        covers = λ e before is_edge.
            (let from_before : Before x y e
                  → (k : ℕ) × (k < edgecnt + 1) × (edge_at (set edges edgecnt new) k ≡ e) =
                λ b.
                  (let (k, lt, at_k) = h.covers e b is_edge in
                    (
                      k,
                      omega arith,
                      get_or-set_ne edges edgecnt k new nothing (λ same. absurd (omega arith))
                          ∙ at_k,
                    )) in
              elim before [
                | inl above ↦ from_before (inl above)
                | inr (row, column) ↦ elim (eq_or_ne e.y y) [
                  | inr other ↦ from_before (inr (row, omega arith))
                  | inl here ↦
                      let found : weight_of g e.x e.y ≡ some w =
                        ap (λ i. weight_of g i e.y) row ∙ ap (weight_of g x) here ∙ there in
                      let both : some e.weight ≡ some w = sym is_edge.0 ∙ found in
                      let weights : e.weight ≡ w = cc in
                      (edgecnt, omega arith, self ∙ same_edge e x y w row here weights)
                ]
              ]);
      }

  pub Holds-skip :
      (x y : ℕ) (edges : List Edge) (edgecnt : ℕ)
      → Holds x y edges edgecnt
      → weight_of g x y ≡ some 0
      → Holds x (y + 1) edges edgecnt
  Holds-skip x y edges edgecnt h there = record {
    drawn = h.drawn;
    covers = λ e before is_edge. elim before [
      | inl above ↦ h.covers e (inl above) is_edge
      | inr (row, column) ↦ elim (eq_or_ne e.y y) [
        | inr other ↦ h.covers e (inr (row, omega arith)) is_edge
        | inl here ↦
            let found : weight_of g e.x e.y ≡ some 0 =
              ap (λ i. weight_of g i e.y) row ∙ ap (weight_of g x) here ∙ there in
            let both : some e.weight ≡ some 0 = sym is_edge.0 ∙ found in
            let weights : e.weight ≡ 0 = cc in absurd (omega (arith, weights, is_edge.1))
      ]
    ];
  }

  pub Holds-row :
      (x : ℕ) (edges : List Edge) (edgecnt : ℕ)
      → Holds x g.numvert edges edgecnt
      → Holds (x + 1) 0 edges edgecnt
  Holds-row x edges edgecnt h = record {
    drawn = h.drawn;
    covers = λ e before is_edge. elim before [
      | inr (row, column) ↦ absurd (omega arith)
      | inl (row, column) ↦ elim (eq_or_ne e.x x) [
        | inl same ↦ h.covers e (inr (same, column)) is_edge
        | inr other ↦ h.covers e (inl (omega arith, column)) is_edge
      ]
    ];
  }
