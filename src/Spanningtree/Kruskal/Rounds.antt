-- ===== src/Spanningtree/Kruskal/Rounds.antt =====
-- A round of the `do` loop of `qsort_partition` in spanningtree/kruskal.c.
use semicomplete_googlecode.Common.{
  ℕ, ◌≤◌, ◌<◌, ◌≡◌, inl, inr, List, arith, length, eq_or_ne, lt_or_le, ap,
}
use semicomplete_googlecode.Spanningtree.Queue.{Edge}
use semicomplete_googlecode.Spanningtree.Kruskal.Rearranges.{
  edge_at, weight_at, exchanged, exchanged-other, exchanged-first,
}
use semicomplete_googlecode.Spanningtree.Kruskal.Scans.{Up, Down}

-- At a round of the `do` loop; the pivot stands at the start.
pub record Round (start end : ℕ) (edges : List Edge) (lt gt : ℕ) : Type 0 where
  pub lt_low : start ≤ lt
  pub lt_high : lt < end
  pub gt_low : start ≤ gt
  pub gt_high : gt ≤ end
  pub light : (k : ℕ) → start ≤ k → k ≤ lt → weight_at edges k ≤ weight_at edges start
  pub heavy : (k : ℕ) → gt < k → k ≤ end → weight_at edges start < weight_at edges k

-- Behind the loop.
pub record Halves (start end : ℕ) (edges : List Edge) (q : ℕ) : Type 0 where
  pub low : start ≤ q
  pub high : q ≤ end
  pub light : (k : ℕ) → start ≤ k → k ≤ q → weight_at edges k ≤ weight_at edges start
  pub heavy : (k : ℕ) → q < k → k ≤ end → weight_at edges start < weight_at edges k

module _ (start end : ℕ) (edges : List Edge) (lt gt lt' gt' : ℕ) (inside : end < length edges)
    (round : Round start end edges lt gt) (start_in : start < length edges)
    (up : Up edges start start_in end lt lt') (down : Down edges start start_in start gt gt') where
  lights : (k : ℕ) → start ≤ k → k < lt' → weight_at edges k ≤ weight_at edges start
  lights k low high = elim (lt_or_le k lt) [
    | inl before ↦ round.light k low (omega arith)
    | inr from ↦ up.passed k from high
  ]

  heavies : (k : ℕ) → gt' < k → k ≤ end → weight_at edges start < weight_at edges k
  heavies k low high = elim (lt_or_le gt k) [
    | inl behind ↦ round.heavy k behind high
    | inr to ↦ down.passed k low to
  ]

  pub crossed : gt' ≤ lt' → Halves start end edges gt'
  crossed over = record {
    low = down.low;
    high = omega (arith, down.high, round.gt_high);
    light = λ k low high. elim (lt_or_le k lt') [
      | inl before ↦ lights k low before
      | inr at_stop ↦ elim down.stopped [
        | inl first ↦ (let same : k ≡ start = omega arith in rw same (omega arith))
        | inr light ↦ (let same : k ≡ gt' = omega arith in rw same light)
      ]
    ];
    heavy = heavies;
  }

  -- Both scans stopped at edges that change places.
  module _ (apart : lt' < gt') where
    pub lt_in : lt' < length edges
    lt_in = omega (arith, up.high)

    pub gt_in : gt' < length edges
    gt_in = omega (arith, down.high, round.gt_high)

    abbrev pub swapped : List Edge
    swapped = exchanged edges lt' gt' lt_in gt_in

    too_heavy : weight_at edges start < weight_at edges lt'
    too_heavy = elim up.stopped [
      | inr heavy ↦ heavy
      | inl last ↦ absurd (omega (arith, down.high, round.gt_high))
    ]

    too_light : weight_at edges gt' ≤ weight_at edges start
    too_light = elim down.stopped [
      | inr light ↦ light
      | inl first ↦ absurd (omega (arith, up.low, round.lt_low))
    ]

    pub later_lt : lt < lt'
    later_lt = elim (eq_or_ne lt lt') [
      | inr other ↦ omega (arith, up.low)
      | inl same ↦
          let light = round.light lt round.lt_low (omega arith) in
          let heavy : weight_at edges start < weight_at edges lt = rw same too_heavy in
          absurd (omega arith)
    ]

    same_pivot : edge_at swapped start ≡ edge_at edges start
    same_pivot =
        exchanged-other edges lt' gt' lt_in gt_in start
          (λ e. absurd (omega (arith, later_lt, round.lt_low)))
          (λ e. absurd (omega (arith, later_lt, round.lt_low)))

    weigh : {e f : Edge} → e ≡ f → e.weight ≡ f.weight
    weigh same = ap (λ (e : Edge). e.weight) same

    pub next-Round : Round start end swapped lt' gt'
    next-Round = record {
      lt_low = omega (arith, up.low, round.lt_low);
      lt_high = omega (arith, down.high, round.gt_high);
      gt_low = down.low;
      gt_high = omega (arith, down.high, round.gt_high);
      light = λ k low high. elim (eq_or_ne k lt') [
        | inl first ↦ rw first (
            omega (
              arith,
              too_light,
              weigh (exchanged-first edges lt' gt' lt_in gt_in),
              weigh same_pivot,
            ))
        | inr other ↦ omega (
          arith,
          lights k low (omega arith),
          weigh (exchanged-other edges lt' gt' lt_in gt_in k other (λ e. absurd (omega arith))),
          weigh same_pivot,
        )
      ];
      heavy = λ k low high. elim (eq_or_ne k gt') [
        | inl last ↦ absurd (omega arith)
        | inr other ↦ omega (
          arith,
          heavies k low high,
          weigh (exchanged-other edges lt' gt' lt_in gt_in k (λ e. absurd (omega arith)) other),
          weigh same_pivot,
        )
      ];
    }
