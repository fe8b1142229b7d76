-- ===== src/Spanningtree/Reach/Grows.antt =====
-- What `dfs_mark` of spanningtree/graph.c marks anew has no neighbour that is left unmarked.
use semicomplete_googlecode.Common.{
  ℕ, zero, suc, ◌+◌, ◌≤◌, ◌<◌, ◌≡◌, ◌≢◌, ◌⊎◌, inl, inr, Option, some, none, List, get_elem?,
  Option-cases, sym, ◌∙◌, arith, ◌==◌, ==_iff, Bool-cases, eq_or_ne, ap, [], ◌∷◌, length, set,
  get_elem?-set_self, get_elem?-set_ne,
}
use semicomplete_googlecode.Spanningtree.Adjmatrix.{Graph, weight_of, visit}
use semicomplete_googlecode.Spanningtree.Reach.{dfs_row, dfs_mark}

abbrev pub IsMarked : List ℕ → ℕ → Type 0
IsMarked visit v = get_elem? visit v ≡ some 1

get_elem?-inside : (xs : List ℕ) (i x : ℕ) → get_elem? xs i ≡ some x → i < length xs
get_elem?-inside [] i x h = cc
get_elem?-inside (y ∷ xs) zero x h = omega arith
get_elem?-inside (y ∷ xs) (suc i) x h = omega (arith, get_elem?-inside xs i x h)

module _ (g : Graph) where
  -- There is an edge.
  pub record IsEdge (v w : ℕ) : Type 0 where
    pub weight : ℕ
    pub there : weight_of g v w ≡ some weight
    pub positive : weight ≢ 0

  -- From one marking to a later one: marks stay, and what is new has only marked neighbours.
  pub record Grows (before after : List ℕ) : Type 0 where
    pub stay : (u : ℕ) → IsMarked before u → IsMarked after u
    pub filled :
        (u w : ℕ) → IsMarked after u → IsEdge u w → (IsMarked before u) ⊎ (IsMarked after w)

  Grows-refl : (visit : List ℕ) → Grows visit visit
  Grows-refl visit = record { stay = λ u h. h; filled = λ u w h e. inl h }

  Grows-trans : {a b c : List ℕ} → Grows a b → Grows b c → Grows a c
  Grows-trans p q = record {
    stay = λ u h. q.stay u (p.stay u h);
    filled = λ u w h e. elim (q.filled u w h e) [
      | inr marked ↦ inr marked
      | inl before ↦ elim (p.filled u w before e) [
        | inl first ↦ inl first
        | inr marked ↦ inr (q.stay w marked)
      ]
    ];
  }

  -- What a loop over the vertices from `x` to the end does.
  abbrev Sweeps : List ℕ → List ℕ → ℕ → ℕ → ℕ → Type 0
  Sweeps before after vertex x left =
      Grows before after × ((y : ℕ) → x ≤ y → y < left + x → IsEdge vertex y → IsMarked after y)

  sweep_next :
      {a b c : List ℕ} (vertex x left : ℕ)
      → Grows a b
      → (IsEdge vertex x → IsMarked b x)
      → Sweeps b c vertex (x + 1) left
      → Sweeps a c vertex x (suc left)
  sweep_next {a} {b} {c} vertex x left first marked rest = (
    Grows-trans first rest.0,
    λ y low high e. elim (eq_or_ne x y) [
      | inl same ↦
          let here_edge : IsEdge vertex x = rw same e in
          rw (← same) (rest.0.stay x (marked here_edge))
      | inr other ↦ rest.1 y (omega arith) (omega arith) e
    ],
  )

  -- The loop marks every neighbour from `x` on.
  dfs_row-Grows :
      (mark : List ℕ → ℕ → Option (ℕ × List ℕ)) (vertex : ℕ)
      → ((visit : List ℕ) (x : ℕ) (r : ℕ × List ℕ)
          → mark visit x ≡ some r
          → Grows visit r.1 × IsMarked r.1 x)
      → (left x : ℕ) (s r : ℕ × List ℕ) → IsMarked s.1 vertex
      → dfs_row mark g left x vertex s ≡ some r
      → Sweeps s.1 r.1 vertex x left
  unfolding dfs_row
  dfs_row-Grows mark vertex spec zero x s r self ran =
      let same : r ≡ s = cc in rw same (Grows-refl s.1, λ y low high e. absurd (omega arith))
  dfs_row-Grows mark vertex spec (suc left) x s r self ran =
      elim (Option-cases (weight_of g vertex x)) [
        | inl missing ↦ let e : none ≡ some r = rw missing at ran in cc
        | inr (w, there) ↦ elim (Bool-cases (x == vertex)) [
          | inl same ↦
              let rest =
                dfs_row-Grows mark vertex spec left (x + 1) s r self (rw (there, same) at ran) in
              let place : x ≡ vertex = (==_iff x vertex).0 same in
              sweep_next vertex x left (Grows-refl s.1) (λ e. rw place self) rest
          | inr other ↦ elim (Bool-cases (w == 0)) [
            | inl no_edge ↦
                let rest =
                  dfs_row-Grows mark vertex spec left (x + 1) s r self
                    (rw (there, other, no_edge) at ran) in
                sweep_next vertex x left (Grows-refl s.1)
                  (λ e.
                    (let zero_w = (==_iff w 0).0 no_edge in
                      let both : some e.weight ≡ some w = sym e.there ∙ there in
                      let same : e.weight ≡ w = cc in absurd (e.positive (same ∙ zero_w))))
                  rest
            | inr edge ↦ elim (Option-cases (mark s.1 x)) [
              | inl fault ↦ let e : none ≡ some r = rw (there, other, edge, fault) at ran in cc
              | inr ((c, mid), made) ↦
                  let (grows, marked) = spec s.1 x (c, mid) made in
                  let rest =
                    dfs_row-Grows mark vertex spec left (x + 1) (s.0 + c, mid) r
                      (grows.stay vertex self) (rw (there, other, edge, made) at ran) in
                  sweep_next vertex x left grows (λ e. marked) rest
            ]
          ]
        ]
      ]

  -- No row is longer than the number of vertices.
  module _ (narrow : (x y w : ℕ) → weight_of g x y ≡ some w → y < g.numvert) where
    pub dfs_mark-Grows :
        (fuel : ℕ) (visit : List ℕ) (vertex : ℕ) (r : ℕ × List ℕ)
        → dfs_mark fuel g visit vertex ≡ some r
        → Grows visit r.1 × IsMarked r.1 vertex
    unfolding dfs_mark
    dfs_mark-Grows zero visit vertex r ran = cc
    dfs_mark-Grows (suc fuel) visit vertex r ran = elim (Option-cases (get_elem? visit vertex)) [
      | inl missing ↦ let e : none ≡ some r = rw missing at ran in cc
      | inr (seen, there) ↦ elim (Bool-cases (seen == 1)) [
        | inl old ↦
            let e : some (1, visit) ≡ some r = rw (there, old) at ran in
            let same : r ≡ (1, visit) = cc in
            let one : seen ≡ 1 = (==_iff seen 1).0 old in
            rw same (Grows-refl visit, there ∙ ap (λ x. some x) one)
        | inr new ↦
            let base = set visit vertex 1 in
            let self : IsMarked base vertex =
              get_elem?-set_self visit vertex 1 (get_elem?-inside visit vertex seen there) in
            let (grows, row) =
              dfs_row-Grows (dfs_mark fuel g) vertex
                (λ later x q made. dfs_mark-Grows fuel later x q made) g.numvert 0 (0, base) r self
                (rw (there, new) at ran) in
            (
              record {
                stay = λ u h. elim (eq_or_ne vertex u) [
                  | inl same ↦ grows.stay u (rw (← same) self)
                  | inr other ↦ grows.stay u (get_elem?-set_ne visit 1 other ∙ h)
                ];
                filled = λ u w h e. elim (grows.filled u w h e) [
                  | inr marked ↦ inr marked
                  | inl before ↦ elim (eq_or_ne vertex u) [
                    | inl same ↦
                        let from : IsEdge vertex w = rw same e in
                        inr (
                          row w (omega arith)
                            (omega (arith, narrow vertex w from.weight from.there)) from)
                    | inr other ↦ inl (sym (get_elem?-set_ne visit 1 other) ∙ before)
                  ]
                ];
              },
              grows.stay vertex self,
            )
      ]
    ]
