-- ===== src/Spanningtree/Kruskal/Rearranges.antt =====
-- What the steps of the sort of spanningtree/kruskal.c do to the array: they rearrange a range of it.
use semicomplete_googlecode.Common.{
  ℕ, ◌≤◌, ◌<◌, ◌≡◌, ◌⊎◌, refl, inl, inr, ◌∙◌, Bool, List, arith, length, get_or, sym, ap, ◌≢◌, some,
  eq_or_ne, lt_or_le, set, length-set,
}
use semicomplete_googlecode.Spanningtree.Queue.{Edge}
use semicomplete_googlecode.Spanningtree.Queue.Slots.{
  nothing, get_elem?-get_or, get_or-set_self, get_or-set_ne,
}
use semicomplete_googlecode.Spanningtree.Queue.Tally.{tally, one, tally-set}
use semicomplete_googlecode.Spanningtree.Kruskal.{swap_edges}

-- The edge at an index, and its weight.
abbrev pub edge_at : List Edge → ℕ → Edge
edge_at edges i = get_or edges i nothing

abbrev pub weight_at : List Edge → ℕ → ℕ
weight_at edges i = (edge_at edges i).weight

-- From `a` to `b` the edges from `lo` to `hi` change places, and all else stays.
pub record Rearranges (lo hi : ℕ) (a b : List Edge) : Type 0 where
  pub long : length b ≡ length a
  pub outside : (k : ℕ) → (k < lo) ⊎ (hi < k) → edge_at b k ≡ edge_at a k
  pub inside :
      (k : ℕ) → lo ≤ k → k ≤ hi → (j : ℕ) × (lo ≤ j) × (j ≤ hi) × (edge_at b k ≡ edge_at a j)
  pub covered :
      (j : ℕ) → lo ≤ j → j ≤ hi → (k : ℕ) × (lo ≤ k) × (k ≤ hi) × (edge_at b k ≡ edge_at a j)
  pub counts : (p : Edge → Bool) → tally p (length b) b ≡ tally p (length a) a

pub Rearranges_refl : (lo hi : ℕ) (a : List Edge) → Rearranges lo hi a a
Rearranges_refl lo hi a = record {
  long = refl;
  outside = λ k h. refl;
  inside = λ k low high. (k, low, high, refl);
  covered = λ j low high. (j, low, high, refl);
  counts = λ p. refl;
}

pub Rearranges_trans :
    {lo hi : ℕ} {a b c : List Edge}
    → Rearranges lo hi a b
    → Rearranges lo hi b c
    → Rearranges lo hi a c
Rearranges_trans p q = record {
  long = q.long ∙ p.long;
  outside = λ k h. q.outside k h ∙ p.outside k h;
  inside = λ k low high.
      (let (j, j_low, j_high, e) = q.inside k low high in
        let (i, i_low, i_high, f) = p.inside j j_low j_high in (i, i_low, i_high, e ∙ f));
  covered = λ i low high.
      (let (j, j_low, j_high, e) = p.covered i low high in
        let (k, k_low, k_high, f) = q.covered j j_low j_high in (k, k_low, k_high, f ∙ e));
  counts = λ t. q.counts t ∙ p.counts t;
}

-- A larger range.
pub Rearranges-widen :
    {lo hi lo' hi' : ℕ} {a b : List Edge}
    → Rearranges lo hi a b
    → lo' ≤ lo
    → hi ≤ hi'
    → Rearranges lo' hi' a b
Rearranges-widen {lo} {hi} r low high = record {
  long = r.long;
  outside = λ k h. elim h [
    | inl before ↦ r.outside k (inl (omega arith))
    | inr behind ↦ r.outside k (inr (omega arith))
  ];
  inside = λ k k_low k_high. elim (lt_or_le k lo) [
    | inl before ↦ (k, k_low, k_high, r.outside k (inl before))
    | inr from ↦ elim (lt_or_le hi k) [
      | inl behind ↦ (k, k_low, k_high, r.outside k (inr behind))
      | inr to ↦ let (j, j_low, j_high, e) = r.inside k from to in (j, omega arith, omega arith, e)
    ]
  ];
  covered = λ k k_low k_high. elim (lt_or_le k lo) [
    | inl before ↦ (k, k_low, k_high, r.outside k (inl before))
    | inr from ↦ elim (lt_or_le hi k) [
      | inl behind ↦ (k, k_low, k_high, r.outside k (inr behind))
      | inr to ↦ let (j, j_low, j_high, e) = r.covered k from to in (j, omega arith, omega arith, e)
    ]
  ];
  counts = r.counts;
}

out_of : {k lo hi : ℕ} → (k < lo) ⊎ (hi < k) → lo ≤ k → k ≤ hi → ⊥
out_of (inl before) low high = omega arith
out_of (inr behind) low high = omega arith

module _ (a : List Edge) (i j : ℕ) (i_in : i < length a) (j_in : j < length a) where
  abbrev mid : List Edge
  mid = set a i (edge_at a j)

  unfoldable pub exchanged : List Edge
  exchanged = set mid j (edge_at a i)

  j_in_mid : j < length mid
  j_in_mid = omega (arith, length-set a i (edge_at a j))

  pub swap_edges_lem : swap_edges a i j ≡ some exchanged
  unfolding swap_edges exchanged
  swap_edges_lem = rw (get_elem?-get_or a i nothing i_in, get_elem?-get_or a j nothing j_in) refl

  pub length-exchanged : length exchanged ≡ length a
  unfolding exchanged
  length-exchanged = length-set mid j (edge_at a i) ∙ length-set a i (edge_at a j)

  pub exchanged-second : edge_at exchanged j ≡ edge_at a i
  unfolding exchanged
  exchanged-second = get_or-set_self mid j (edge_at a i) nothing j_in_mid

  pub exchanged-other : (k : ℕ) → k ≢ i → k ≢ j → edge_at exchanged k ≡ edge_at a k
  unfolding exchanged
  exchanged-other k ni nj =
      get_or-set_ne mid j k (edge_at a i) nothing (λ e. nj (sym e))
      ∙ get_or-set_ne a i k (edge_at a j) nothing (λ e. ni (sym e))

  pub exchanged-first : edge_at exchanged i ≡ edge_at a j
  exchanged-first = elim (eq_or_ne i j) [
    | inl same ↦ ap (edge_at exchanged) same ∙ exchanged-second ∙ ap (edge_at a) same
    | inr differ ↦
        unfold exchanged in
        get_or-set_ne mid j i (edge_at a i) nothing (λ e. differ (sym e))
        ∙ get_or-set_self a i (edge_at a j) nothing i_in
  ]

  at_mid : edge_at mid j ≡ edge_at a j
  at_mid = elim (eq_or_ne i j) [
    | inl same ↦ ap (edge_at mid) (sym same) ∙ get_or-set_self a i (edge_at a j) nothing i_in
    | inr differ ↦ get_or-set_ne a i j (edge_at a j) nothing differ
  ]

  exchanged-counts : (p : Edge → Bool) → tally p (length exchanged) exchanged ≡ tally p (length a) a
  unfolding exchanged
  exchanged-counts p =
      let first = tally-set p (length a) i a (edge_at a j) i_in i_in in
      let second = tally-set p (length a) j mid (edge_at a i) j_in j_in_mid in
      rw length-exchanged (omega (arith, first, second, ap (λ e. one (p e)) at_mid))

  pub exchanged-Rearranges :
      (lo hi : ℕ) → lo ≤ i → i ≤ hi → lo ≤ j → j ≤ hi → Rearranges lo hi a exchanged
  exchanged-Rearranges lo hi i_low i_high j_low j_high = record {
    long = length-exchanged;
    outside = λ k h.
        exchanged-other k (λ e. out_of h (omega arith) (omega arith))
          (λ e. out_of h (omega arith) (omega arith));
    inside = λ k low high. elim (eq_or_ne k i) [
      | inl first ↦ (j, j_low, j_high, ap (edge_at exchanged) first ∙ exchanged-first)
      | inr not_first ↦ elim (eq_or_ne k j) [
        | inl second ↦ (i, i_low, i_high, ap (edge_at exchanged) second ∙ exchanged-second)
        | inr other ↦ (k, low, high, exchanged-other k not_first other)
      ]
    ];
    covered = λ k low high. elim (eq_or_ne k i) [
      | inl first ↦ (j, j_low, j_high, exchanged-second ∙ ap (edge_at a) (sym first))
      | inr not_first ↦ elim (eq_or_ne k j) [
        | inl second ↦ (i, i_low, i_high, exchanged-first ∙ ap (edge_at a) (sym second))
        | inr other ↦ (k, low, high, exchanged-other k not_first other)
      ]
    ];
    counts = exchanged-counts;
  }
