-- ===== src/Spanningtree/Queue/Down.antt =====
-- `heapify` of spanningtree/prim.c: the way down from a slot to its lightest child.
use semicomplete_googlecode.Common.{
  ℕ, ◌+◌, ◌*◌, ◌/◌, ◌≤◌, ◌<◌, ◌≡◌, ◌⊎◌, refl, true, some, List, arith, length, ltb, leb, inl, inr,
  Bool-cases, eq_or_ne,
}
use semicomplete_googlecode.Spanningtree.Queue.{Edge, smaller}
use semicomplete_googlecode.Spanningtree.Queue.Slots.{Inside, item-Inside}
use semicomplete_googlecode.Spanningtree.Queue.Moves.{weight_at}
use semicomplete_googlecode.Spanningtree.Queue.Heaps.{Lightest}

module _ (items : List Edge) (n : ℕ) (room : n ≤ length items) where
  smaller_outside : (j m : ℕ) → n < j → smaller items n j m ≡ some m
  unfolding smaller
  smaller_outside j m h = ground arith

  -- Inside, one of the two slots is taken, and it is the lighter one.
  smaller-Inside :
      (j m : ℕ)
      → 1 ≤ j
      → j ≤ n
      → Inside items m
      → ((smaller items n j m ≡ some j) × (weight_at items j < weight_at items m))
        ⊎ ((smaller items n j m ≡ some m) × (weight_at items m ≤ weight_at items j))
  unfolding smaller
  smaller-Inside j m one inside in_m =
      let known : leb j n ≡ true = ground arith in
      rw (known, item-Inside items j (one, omega arith), item-Inside items m in_m)
        (elim (Bool-cases (ltb (weight_at items j) (weight_at items m))) [
          | inl less ↦ inl (rw less (refl, ground arith))
          | inr not_less ↦ inr (rw not_less (refl, ground arith))
        ])

  -- What `heapify` finds below `i`.
  pub record Chosen (i : ℕ) : Type 0 where
    pub left : ℕ
    pub choice : ℕ
    pub left_found : smaller items n (i * 2 + 1) i ≡ some left
    pub min_found : smaller items n (i * 2) left ≡ some choice
    pub which :
        ((choice ≡ i)
          × ((k : ℕ) → 2 ≤ k → k ≤ n → k / 2 ≡ i → weight_at items i ≤ weight_at items k))
        ⊎ Lightest (weight_at items) n i choice

  children :
      (i v : ℕ)
      → v ≤ weight_at items (i * 2)
      → (i * 2 + 1 ≤ n → v ≤ weight_at items (i * 2 + 1))
      → (k : ℕ) → 2 ≤ k
      → k ≤ n
      → k / 2 ≡ i
      → v ≤ weight_at items k
  children i v right left k lo hi child = elim (eq_or_ne k (i * 2)) [
    | inl e ↦ rw e right
    | inr ne ↦ let e : k ≡ i * 2 + 1 = omega arith in rw e (left (omega arith))
  ]

  -- The left child is compared first; then the right one with the smaller of the two.
  choose_right :
      (i left : ℕ)
      → 1 ≤ i
      → i * 2 ≤ n
      → smaller items n (i * 2 + 1) i ≡ some left
      → Inside items left
      → (i * 2 + 1 ≤ n → weight_at items left ≤ weight_at items (i * 2 + 1))
      → (left ≡ i) ⊎ ((left ≡ i * 2 + 1) × (left ≤ n) × (weight_at items left < weight_at items i))
      → Chosen i
  choose_right i left one inside found in_left least which =
      elim (smaller-Inside (i * 2) left (omega arith) inside in_left) [
        | inl (right, less) ↦ record {
          left = left;
          choice = i * 2;
          left_found = found;
          min_found = right;
          which = inr (record {
            child = omega arith;
            known = inside;
            lighter = elim which [ inl e ↦ rw e at less | inr (e, _, lighter) ↦ omega arith ];
            least =
                children i (weight_at items (i * 2)) (omega arith)
                  (λ h. let l = least h in omega arith);
          });
        }
        | inr (kept, le) ↦ record {
          left = left;
          choice = left;
          left_found = found;
          min_found = kept;
          which = elim which [
            | inl e ↦ inl (e, children i (weight_at items i) (rw e at le) (λ h. rw e at (least h)))
            | inr (e, known, lighter) ↦ inr (record {
              child = omega arith;
              known = known;
              lighter = lighter;
              least = children i (weight_at items left) le least;
            })
          ];
        }
      ]

  pub chosen : (i : ℕ) → 1 ≤ i → Chosen i
  chosen i one = elim (Bool-cases (leb (i * 2) n)) [
    | inr no_child ↦
        let behind : n < i * 2 = ground arith in
        record {
          left = i;
          choice = i;
          left_found = smaller_outside (i * 2 + 1) i (omega arith);
          min_found = smaller_outside (i * 2) i behind;
          which = inl (refl, λ k lo hi child. absurd (omega arith));
        }
    | inl some_child ↦
        let inside : i * 2 ≤ n = ground arith in
        let in_i : Inside items i = (one, omega arith) in
        elim (Bool-cases (leb (i * 2 + 1) n)) [
          | inr one_child ↦
              let behind : n < i * 2 + 1 = ground arith in
              choose_right i i one inside (smaller_outside (i * 2 + 1) i behind) in_i
                (λ h. absurd (omega arith)) (inl refl)
          | inl two_children ↦
              let both : i * 2 + 1 ≤ n = ground arith in
              elim (smaller-Inside (i * 2 + 1) i (omega arith) both in_i) [
                | inl (left, less) ↦
                    choose_right i (i * 2 + 1) one inside left (omega arith, omega arith)
                      (λ h. omega arith) (inr (refl, both, less))
                | inr (kept, le) ↦ choose_right i i one inside kept in_i (λ h. le) (inl refl)
              ]
        ]
  ]
