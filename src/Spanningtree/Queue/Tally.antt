-- ===== src/Spanningtree/Queue/Tally.antt =====
-- How many edges of a kind the queue of spanningtree/prim.c holds.
use semicomplete_googlecode.Common.{
  ℕ, zero, suc, ◌+◌, ◌-◌, ◌≤◌, ◌<◌, ◌≡◌, ◌≢◌, refl, Bool, true, false, List, [], ◌∷◌, arith, length,
  set, get_or, length-set,
}
use semicomplete_googlecode.Spanningtree.Queue.{Edge}
use semicomplete_googlecode.Spanningtree.Queue.Slots.{at, nothing, swapped, Inside, at-set_ne}

abbrev pub one : Bool → ℕ
one true = 1
one false = 0

module _ (p : Edge → Bool) where
  -- In the first `n` slots.
  unfoldable pub tally : ℕ → List Edge → ℕ
  tally zero items = 0
  tally (suc n) [] = 0
  tally (suc n) (e ∷ items) = one (p e) + tally n items

  pub tally_zero : (n : ℕ) (items : List Edge) → n ≡ 0 → tally n items ≡ 0
  unfolding tally
  tally_zero zero items h = refl
  tally_zero (suc n) items h = absurd (omega arith)

  pub tally-set :
      (n i : ℕ) (items : List Edge) (e : Edge)
      → i < n
      → i < length items
      → tally n (set items i e) + one (p (get_or items i nothing)) ≡ tally n items + one (p e)
  unfolding tally
  tally-set zero i items e h inside = absurd (omega arith)
  tally-set (suc n) i [] e h inside = absurd (omega arith)
  tally-set (suc n) zero (x ∷ items) e h inside = omega arith
  tally-set (suc n) (suc i) (x ∷ items) e h inside =
      omega (arith, tally-set n i items e (omega arith) (omega arith))

  -- Behind the first `n` slots a write makes no difference.
  pub tally-set_behind :
      (n i : ℕ) (items : List Edge) (e : Edge) → n ≤ i → tally n (set items i e) ≡ tally n items
  unfolding tally
  tally-set_behind zero i items e h = refl
  tally-set_behind (suc n) i [] e h = refl
  tally-set_behind (suc n) zero (x ∷ items) e h = absurd (omega arith)
  tally-set_behind (suc n) (suc i) (x ∷ items) e h =
      omega (arith, tally-set_behind n i items e (omega arith))

  pub tally_put :
      (n i : ℕ) (items : List Edge) (e : Edge)
      → i ≤ n
      → Inside items i
      → tally n (set items (i - 1) e) + one (p (at items i)) ≡ tally n items + one (p e)
  unfolding at
  tally_put n i items e h inside = tally-set n (i - 1) items e (omega arith) (omega arith)

  pub tally-swapped :
      (n i j : ℕ) (items : List Edge)
      → i ≤ n
      → j ≤ n
      → Inside items i
      → Inside items j
      → i ≢ j
      → tally n (swapped items i j) ≡ tally n items
  unfolding swapped
  tally-swapped n i j items hi hj in_i in_j differ =
      let half = set items (i - 1) (at items j) in
      let still : at half j ≡ at items j = at-set_ne items i j (at items j) in_i.0 in_j.0 differ in
      let first = tally_put n i items (at items j) hi in_i in
      let second =
        tally_put n j half (at items i) hj
          (in_j.0, omega (arith, length-set items (i - 1) (at items j))) in
      omega (arith, first, rw still at second)

  pub tally_step :
      (m : ℕ) (xs : List Edge)
      → m < length xs
      → tally (suc m) xs ≡ tally m xs + one (p (get_or xs m nothing))
  unfolding tally
  tally_step zero [] lt = absurd (omega arith)
  tally_step zero (x ∷ xs) lt = omega arith
  tally_step (suc m) [] lt = absurd (omega arith)
  tally_step (suc m) (x ∷ xs) lt = omega (arith, tally_step m xs (omega arith))

  -- One slot more.
  pub tally_suc :
      (n m : ℕ) (items : List Edge)
      → m ≡ n + 1
      → m ≤ length items
      → tally m items ≡ tally n items + one (p (at items m))
  unfolding at
  tally_suc n m items e h =
      let behind : m - 1 ≡ n = omega arith in
      let next : m ≡ suc n = omega arith in rw (behind, next) (tally_step n items (omega arith))
