-- ===== src/Spanningtree/Reach/Sound.antt =====
-- `connected` of spanningtree/graph.c ends, and does not call a graph connected that is not.
use semicomplete_googlecode.Common.{
  ℕ, zero, suc, ◌+◌, ◌≤◌, ◌<◌, ◌≡◌, ◌≢◌, ◌⊎◌, refl, ◌∙◌, false, Option, some, List, [], ◌∷◌, arith,
  ◌==◌, if◌then◌else◌, length, get_elem?, set, length-set, get_elem?_inside, Bool-cases, inl, inr,
  ==_iff, sym, ap, Bool, true, eq_or_ne, get_elem?-set_self, get_elem?-set_ne, replicate,
  length-replicate,
}
use semicomplete_googlecode.Spanningtree.Adjmatrix.{Graph, weight_of, visit}
use semicomplete_googlecode.Spanningtree.Reach.{dfs_row, dfs_mark, all_marked, connected}

pub data Reachable (g : Graph) : ℕ → ℕ → Type 0 where
  here : {v : ℕ} → Reachable g v v
  step : {v w u k : ℕ} → weight_of g v w ≡ some k → k ≢ 0 → Reachable g w u → Reachable g v u

-- How many vertices are not marked.
unfoldable pub unmarked : List ℕ → ℕ
unmarked [] = 0
unmarked (x ∷ visit) = (if x == 1 then 0 else 1) + unmarked visit

unmarked-set :
    (visit : List ℕ) (v x : ℕ)
    → get_elem? visit v ≡ some x
    → (x == 1) ≡ false
    → unmarked (set visit v 1) + 1 ≡ unmarked visit
unfolding unmarked
unmarked-set [] v x there new = cc
unmarked-set (y ∷ visit) zero x there new = let same : y ≡ x = cc in rw (same, new) (omega arith)
unmarked-set (y ∷ visit) (suc v) x there new = omega (arith, unmarked-set visit v x there new)

-- Marks are 0 and 1.
abbrev pub Marks : List ℕ → Type 0
Marks visit = (u x : ℕ) → get_elem? visit u ≡ some x → (x ≡ 0) ⊎ (x ≡ 1)

pub set_cases :
    (visit : List ℕ) (v u y : ℕ)
    → v < length visit
    → get_elem? (set visit v 1) u ≡ some y
    → ((u ≡ v) × (y ≡ 1)) ⊎ (get_elem? visit u ≡ some y)
set_cases visit v u y inside h = elim (eq_or_ne v u) [
  | inl e ↦
      let set_one : get_elem? (set visit v 1) u ≡ some 1 =
        ap (get_elem? (set visit v 1)) (sym e) ∙ get_elem?-set_self visit v 1 inside in
      inl (sym e, (let is_one : y ≡ 1 = cc in is_one))
  | inr ne ↦ inr (sym (get_elem?-set_ne visit 1 ne) ∙ h)
]

all_marked_sound :
    (visit : List ℕ) (v x : ℕ) → all_marked visit ≡ true → get_elem? visit v ≡ some x → x ≢ 0
unfolding all_marked
all_marked_sound [] v x all there = cc
all_marked_sound (y ∷ visit) zero x all there = elim (Bool-cases (y == 0)) [
  | inl unset ↦ absurd (let clash : false ≡ true = rw unset at all in cc)
  | inr is_set ↦ λ e. (let same : y ≡ x = cc in let zero_y = (==_iff y 0).1 (same ∙ e) in cc)
]
all_marked_sound (y ∷ visit) (suc v) x all there = elim (Bool-cases (y == 0)) [
  | inl unset ↦ absurd (let clash : false ≡ true = rw unset at all in cc)
  | inr is_set ↦ all_marked_sound visit v x (rw is_set at all) there
]

pub replicate_zero : (n u x : ℕ) → get_elem? (replicate n 0) u ≡ some x → x ≡ 0
replicate_zero zero u x h = cc
replicate_zero (suc n) zero x h = cc
replicate_zero (suc n) (suc u) x h = replicate_zero n u x h

pub unmarked-replicate : (n : ℕ) → unmarked (replicate n 0) ≡ n
unfolding unmarked
unmarked-replicate zero = refl
unmarked-replicate (suc n) = omega (arith, unmarked-replicate n)

module _ (g : Graph) where
  pub record Marked (visit : List ℕ) (v : ℕ) (after : List ℕ) : Type 0 where
    pub long : length after ≡ length visit
    pub marks : Marks after
    pub fewer : unmarked after ≤ unmarked visit
    pub only : (u : ℕ) → get_elem? after u ≡ some 1 → (get_elem? visit u ≡ some 1) ⊎ Reachable g v u

  abbrev pub IsSquare : Type 0
  IsSquare = (x y : ℕ) → x < g.numvert → y < g.numvert → (w : ℕ) × (weight_of g x y ≡ some w)

  module _ (square : IsSquare) where
    dfs_row-Marked :
        (mark : List ℕ → ℕ → Option (ℕ × List ℕ)) (most vertex : ℕ)
        → ((visit : List ℕ) (x : ℕ)
            → length visit ≡ g.numvert
            → Marks visit
            → x < g.numvert
            → unmarked visit ≤ most
            → (r : ℕ × List ℕ) × (mark visit x ≡ some r) × Marked visit x r.1)
        → vertex < g.numvert
        → (left x count : ℕ) (visit : List ℕ) → left + x ≡ g.numvert
        → length visit ≡ g.numvert
        → Marks visit
        → unmarked visit ≤ most
        → (r : ℕ × List ℕ) × (dfs_row mark g left x vertex (count, visit) ≡ some r)
          × Marked visit vertex r.1
    unfolding dfs_row
    dfs_row-Marked mark most vertex spec lt zero x count visit total long marks few =
        (_, refl, record { long = refl; marks = marks; fewer = omega arith; only = λ u h. inl h })
    dfs_row-Marked mark most vertex spec lt (suc left) x count visit total long marks few =
        let (w, there) = square vertex x lt (omega arith) in
        let skip =
          dfs_row-Marked mark most vertex spec lt left (x + 1) count visit (omega arith) long marks
            few in
        rw there (elim (Bool-cases (x == vertex)) [
          | inl same ↦ rw same skip
          | inr other ↦ elim (Bool-cases (w == 0)) [
            | inl no_edge ↦ rw (other, no_edge) skip
            | inr edge ↦
                let ((c, mid), made, m) = spec visit x long marks (omega arith) few in
                let (r, rest, after) =
                  dfs_row-Marked mark most vertex spec lt left (x + 1) (count + c) mid (omega arith)
                    (m.long ∙ long) m.marks (omega (arith, m.fewer)) in
                rw (other, edge, made)
                  (
                    r,
                    rest,
                    record {
                      long = after.long ∙ m.long;
                      marks = after.marks;
                      fewer = omega (arith, after.fewer, m.fewer);
                      only = λ u h. elim (after.only u h) [
                        | inr reach ↦ inr reach
                        | inl before ↦ elim (m.only u before) [
                          | inl old ↦ inl old
                          | inr reach ↦
                              inr (step there (λ e. (let zero_w = (==_iff w 0).1 e in cc)) reach)
                        ]
                      ];
                    },
                  )
          ]
        ])

    pub dfs_mark-Marked :
        (fuel : ℕ) (visit : List ℕ) (v : ℕ)
        → length visit ≡ g.numvert
        → Marks visit
        → v < g.numvert
        → unmarked visit < fuel
        → (r : ℕ × List ℕ) × (dfs_mark fuel g visit v ≡ some r) × Marked visit v r.1
    unfolding dfs_mark
    dfs_mark-Marked zero visit v long marks lt few = absurd (omega arith)
    dfs_mark-Marked (suc fuel) visit v long marks lt few =
        let inside : v < length visit = omega arith in
        let (x, there) = get_elem?_inside visit v inside in
        rw there (elim (Bool-cases (x == 1)) [
          | inl seen ↦ rw seen (
            _,
            refl,
            record { long = refl; marks = marks; fewer = omega arith; only = λ u h. inl h },
          )
          | inr new ↦
              let set_one = set visit v 1 in
              let less = unmarked-set visit v x there new in
              let (r, made, m) =
                dfs_row-Marked (dfs_mark fuel g) (unmarked set_one) v
                  (λ later y l k b few'.
                    dfs_mark-Marked fuel later y l k b (omega (arith, few', less, few)))
                  lt g.numvert 0 0 set_one (omega arith) (length-set visit v 1 ∙ long)
                  (λ u y h. elim (set_cases visit v u y inside h) [
                    | inl (e, is_one) ↦ inr is_one
                    | inr old ↦ marks u y old
                  ])
                  (omega arith) in
              rw (new, made)
                (
                  r,
                  refl,
                  record {
                    long = m.long ∙ length-set visit v 1;
                    marks = m.marks;
                    fewer = omega (arith, m.fewer, less);
                    only = λ u h. elim (m.only u h) [
                      | inr reach ↦ inr reach
                      | inl before ↦ elim (set_cases visit v u 1 inside before) [
                        | inl (e, is_one) ↦ inr (rw e here)
                        | inr old ↦ inl old
                      ]
                    ];
                  },
                )
        ])

    -- `connected` of a square matrix with a vertex or more ends; where it finds the graph
    -- connected, every vertex is reached from the vertex 0 over edges of a weight other than 0.
    pub connected_sound :
        1 ≤ g.numvert
        → (b : Bool) × (connected g ≡ some b)
          × (b ≡ true → (v : ℕ) → v < g.numvert → Reachable g 0 v)
    unfolding connected
    connected_sound some_vertex =
        let clear = replicate g.numvert 0 in
        let size : length clear ≡ g.numvert = length-replicate g.numvert 0 in
        let (r, made, m) =
          dfs_mark-Marked (g.numvert + 1) clear 0 size
            (λ u x h. inl (replicate_zero g.numvert u x h)) some_vertex
            (omega (arith, unmarked-replicate g.numvert)) in
        rw made (
          all_marked r.1,
          refl,
          λ all v lt.
              (let (x, there) = get_elem?_inside r.1 v (omega (arith, lt, m.long, size)) in
                elim (m.marks v x there) [
                  | inl unset ↦ absurd (all_marked_sound r.1 v x all there unset)
                  | inr is_one ↦ elim (m.only v (there ∙ ap (λ y. some y) is_one)) [
                    | inr reach ↦ reach
                    | inl before ↦
                        absurd (let clash = replicate_zero g.numvert v 1 before in omega arith)
                  ]
                ]),
        )
