-- ===== src/Spanningtree/Queue/Slots.antt =====
-- Reading, writing and swapping slots of the queue of spanningtree/prim.c inside of the array.
use semicomplete_googlecode.Common.{
  ℕ, zero, suc, ◌-◌, ◌≤◌, ◌<◌, ◌≡◌, ◌≢◌, refl, ◌∙◌, sym, some, List, [], ◌∷◌, arith, length, set,
  get_elem?, get_or, length-set,
}
use semicomplete_googlecode.Spanningtree.Queue.{Edge, item, put_item, swap}

abbrev pub nothing : Edge
nothing = record { x = 0; y = 0; weight = 0 }

-- What the slot holds.
unfoldable pub at : List Edge → ℕ → Edge
at items i = get_or items (i - 1) nothing

abbrev pub Inside : List Edge → ℕ → Type 0
Inside items i = (1 ≤ i) × (i ≤ length items)

pub get_elem?-get_or :
    {A : Type 0} (xs : List A) (i : ℕ) (d : A)
    → i < length xs
    → get_elem? xs i ≡ some (get_or xs i d)
get_elem?-get_or [] i d h = absurd (omega arith)
get_elem?-get_or (x ∷ xs) zero d h = refl
get_elem?-get_or (x ∷ xs) (suc i) d h = get_elem?-get_or xs i d (omega arith)

pub get_or-set_self :
    {A : Type 0} (xs : List A) (i : ℕ) (v d : A) → i < length xs → get_or (set xs i v) i d ≡ v
get_or-set_self [] i v d h = absurd (omega arith)
get_or-set_self (x ∷ xs) zero v d h = refl
get_or-set_self (x ∷ xs) (suc i) v d h = get_or-set_self xs i v d (omega arith)

pub get_or-set_ne :
    {A : Type 0} (xs : List A) (i j : ℕ) (v d : A) → i ≢ j → get_or (set xs i v) j d ≡ get_or xs j d
get_or-set_ne [] i j v d h = refl
get_or-set_ne (x ∷ xs) zero zero v d h = absurd (h refl)
get_or-set_ne (x ∷ xs) zero (suc j) v d h = refl
get_or-set_ne (x ∷ xs) (suc i) zero v d h = refl
get_or-set_ne (x ∷ xs) (suc i) (suc j) v d h = get_or-set_ne xs i j v d (omega arith)

pub item-Inside : (items : List Edge) (i : ℕ) → Inside items i → item items i ≡ some (at items i)
unfolding item at
item-Inside items i h = get_elem?-get_or items (i - 1) nothing (omega arith)

pub put_item-Inside :
    (items : List Edge) (i : ℕ) (e : Edge)
    → Inside items i
    → put_item items i e ≡ some (set items (i - 1) e)
unfolding put_item
put_item-Inside items i e h = ground arith

pub at-set_self :
    (items : List Edge) (i : ℕ) (e : Edge) → Inside items i → at (set items (i - 1) e) i ≡ e
unfolding at
at-set_self items i e h = get_or-set_self items (i - 1) e nothing (omega arith)

pub at-set_ne :
    (items : List Edge) (i j : ℕ) (e : Edge)
    → 1 ≤ i
    → 1 ≤ j
    → i ≢ j
    → at (set items (i - 1) e) j ≡ at items j
unfolding at
at-set_ne items i j e hi hj h = get_or-set_ne items (i - 1) (j - 1) e nothing (omega arith)

-- The list after a swap.
unfoldable pub swapped : List Edge → ℕ → ℕ → List Edge
swapped items i j = set (set items (i - 1) (at items j)) (j - 1) (at items i)

pub length-swapped : (items : List Edge) (i j : ℕ) → length (swapped items i j) ≡ length items
unfolding swapped
length-swapped items i j = length-set _ (j - 1) _ ∙ length-set items (i - 1) _

module _ (items : List Edge) (i j : ℕ) (hi : Inside items i) (hj : Inside items j)
    (differ : i ≢ j) where
  pub swap-Inside : swap items i j ≡ some (swapped items i j)
  unfolding swap swapped
  swap-Inside =
      let kept : Inside (set items (i - 1) (at items j)) j =
        (hj.0, omega (arith, length-set items (i - 1) (at items j))) in
      rw (item-Inside items i hi, item-Inside items j hj, put_item-Inside items i (at items j) hi)
        (put_item-Inside _ j (at items i) kept)

  pub at-swapped_first : at (swapped items i j) i ≡ at items j
  unfolding swapped
  at-swapped_first = at-set_ne _ j i _ hj.0 hi.0 (λ e. differ (sym e)) ∙ at-set_self items i _ hi

  pub at-swapped_second : at (swapped items i j) j ≡ at items i
  unfolding swapped
  at-swapped_second = at-set_self _ j _ (hj.0, omega (arith, length-set items (i - 1) (at items j)))

  pub at-swapped_other : (k : ℕ) → 1 ≤ k → k ≢ i → k ≢ j → at (swapped items i j) k ≡ at items k
  unfolding swapped
  at-swapped_other k hk ni nj =
      at-set_ne _ j k _ hj.0 hk (λ e. nj (sym e)) ∙ at-set_ne items i k _ hi.0 hk (λ e. ni (sym e))
