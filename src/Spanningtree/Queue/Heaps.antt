-- ===== src/Spanningtree/Queue/Heaps.antt =====
-- The order of the heap of spanningtree/prim.c, on the weight of each slot, and the swaps on the
-- way up and on the way down.
use semicomplete_googlecode.Common.{
  ℕ, ◌/◌, ◌≤◌, ◌<◌, ◌≡◌, ◌≢◌, inl, inr, arith, eq_or_ne, zero, suc,
}

-- No slot is lighter than the one above it.
abbrev pub Ordered : (ℕ → ℕ) → ℕ → Type 0
Ordered w n = (i : ℕ) → 2 ≤ i → i ≤ n → w (i / 2) ≤ w i

-- The same but for one slot and the slot above it.
pub record OrderedButUp (w : ℕ → ℕ) (n x : ℕ) : Type 0 where
  pub above : (i : ℕ) → 2 ≤ i → i ≤ n → i ≢ x → w (i / 2) ≤ w i
  pub over : (i : ℕ) → 2 ≤ i → i ≤ n → i / 2 ≡ x → 2 ≤ x → w (x / 2) ≤ w i

-- The same but for one slot and the slots below it.
pub record OrderedButDown (w : ℕ → ℕ) (n x : ℕ) : Type 0 where
  pub below : (i : ℕ) → 2 ≤ i → i ≤ n → i / 2 ≢ x → w (i / 2) ≤ w i
  pub under : (i : ℕ) → 2 ≤ i → i ≤ n → i / 2 ≡ x → 2 ≤ x → w (x / 2) ≤ w i

-- Two weightings with two slots swapped.
pub record Swapped (w w' : ℕ → ℕ) (i j : ℕ) : Type 0 where
  pub first : w' i ≡ w j
  pub second : w' j ≡ w i
  pub other : (k : ℕ) → 1 ≤ k → k ≢ i → k ≢ j → w' k ≡ w k

pub Ordered-up :
    (w : ℕ → ℕ) (n x : ℕ) → OrderedButUp w n x → (2 ≤ x → w (x / 2) ≤ w x) → Ordered w n
Ordered-up w n x h fits i lo hi = elim (eq_or_ne i x) [
  | inl e ↦ rw e (fits (omega arith))
  | inr ne ↦ h.above i lo hi ne
]

pub OrderedButUp-swap :
    (w w' : ℕ → ℕ) (n x : ℕ)
    → 2 ≤ x
    → w x < w (x / 2)
    → Swapped w w' x (x / 2)
    → OrderedButUp w n x
    → OrderedButUp w' n (x / 2)
OrderedButUp-swap w w' n x two lighter s h = record { above = up; over = over' }
  where
    up : (i : ℕ) → 2 ≤ i → i ≤ n → i ≢ x / 2 → w' (i / 2) ≤ w' i
    up i lo hi ne = elim (eq_or_ne i x) [
      | inl e ↦ rw (e, s.first, s.second) (omega arith)
      | inr away ↦ rw (s.other i (omega arith) away ne) (elim (eq_or_ne (i / 2) x) [
        | inl child ↦ rw (child, s.first) (h.over i lo hi child two)
        | inr apart ↦ elim (eq_or_ne (i / 2) (x / 2)) [
          | inl sibling ↦
              let kept = h.above i lo hi away in
              rw (sibling, s.second) (let k = rw sibling at kept in omega arith)
          | inr far ↦ rw (s.other (i / 2) (omega arith) apart far) (h.above i lo hi away)
        ]
      ])
    ]

    over' : (i : ℕ) → 2 ≤ i → i ≤ n → i / 2 ≡ x / 2 → 2 ≤ x / 2 → w' (x / 2 / 2) ≤ w' i
    over' i lo hi same two' =
        let top : w (x / 2 / 2) ≤ w (x / 2) = h.above (x / 2) two' (omega arith) (omega arith) in
        rw (s.other (x / 2 / 2) (omega arith) (omega arith) (omega arith)) (elim (eq_or_ne i x) [
          | inl e ↦ rw (e, s.first) top
          | inr away ↦
              let kept : w (x / 2) ≤ w i = rw same at (h.above i lo hi away) in
              rw (s.other i (omega arith) away (omega arith)) (omega arith)
        ])

pub Ordered-down :
    (w : ℕ → ℕ) (n x : ℕ)
    → OrderedButDown w n x
    → ((i : ℕ) → 2 ≤ i → i ≤ n → i / 2 ≡ x → w x ≤ w i)
    → Ordered w n
Ordered-down w n x h fits i lo hi = elim (eq_or_ne (i / 2) x) [
  | inl e ↦ rw e (fits i lo hi e)
  | inr ne ↦ h.below i lo hi ne
]

-- The slot `m` is the lightest below `x`, and lighter than it.
pub record Lightest (w : ℕ → ℕ) (n x m : ℕ) : Type 0 where
  pub child : m / 2 ≡ x
  pub known : m ≤ n
  pub lighter : w m < w x
  pub least : (i : ℕ) → 2 ≤ i → i ≤ n → i / 2 ≡ x → w m ≤ w i

pub OrderedButDown-swap :
    (w w' : ℕ → ℕ) (n x m : ℕ)
    → 1 ≤ x
    → Lightest w n x m
    → Swapped w w' x m
    → OrderedButDown w n x
    → OrderedButDown w' n m
OrderedButDown-swap w w' n x m one l s h = record { below = below'; under = under' }
  where
    place : (m / 2 ≡ x) × (2 ≤ m)
    place = (l.child, let c = l.child in omega arith)

    below' : (i : ℕ) → 2 ≤ i → i ≤ n → i / 2 ≢ m → w' (i / 2) ≤ w' i
    below' i lo hi ne = elim (eq_or_ne (i / 2) x) [
      | inl child ↦
          rw (child, s.first)
            (elim (eq_or_ne i m) [
              | inl e ↦ rw (e, s.second) (omega (arith, l.lighter))
              | inr away ↦ rw (s.other i (omega arith) (omega arith) away) (l.least i lo hi child)
            ])
      | inr apart ↦ elim (eq_or_ne i x) [
        | inl e ↦
            let top : w (x / 2) ≤ w m = h.under m place.1 l.known l.child (omega arith) in
            rw (e, s.first, s.other (x / 2) (omega arith) (omega arith) (omega (arith, place.0)))
              top
        | inr away ↦
            let not_m : i ≢ m = omega (arith, place.0) in
            rw (s.other i (omega arith) away not_m, s.other (i / 2) (omega arith) apart ne)
              (h.below i lo hi apart)
      ]
    ]

    under' : (i : ℕ) → 2 ≤ i → i ≤ n → i / 2 ≡ m → 2 ≤ m → w' (m / 2) ≤ w' i
    under' i lo hi child two =
        let kept : w m ≤ w i = rw child at (h.below i lo hi (omega (arith, place.0))) in
        rw (l.child, s.first, s.other i (omega arith) (omega (arith, place.0)) (omega arith)) kept

-- The root is a lightest slot.
pub Ordered-root :
    (fuel : ℕ) (w : ℕ → ℕ) (n : ℕ) → Ordered w n → (i : ℕ) → i ≤ fuel → 1 ≤ i → i ≤ n → w 1 ≤ w i
Ordered-root zero w n h i f lo hi = absurd (omega arith)
Ordered-root (suc fuel) w n h i f lo hi = elim (eq_or_ne i 1) [
  | inl e ↦ rw e (omega arith)
  | inr ne ↦
      let above = Ordered-root fuel w n h (i / 2) (omega arith) (omega arith) (omega arith) in
      let step = h i (omega arith) hi in omega arith
]
