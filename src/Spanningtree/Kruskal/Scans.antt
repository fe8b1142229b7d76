-- ===== src/Spanningtree/Kruskal/Scans.antt =====
-- The two inner loops of `qsort_partition`, spanningtree/kruskal.c.
use semicomplete_googlecode.Common.{
  ℕ, zero, suc, ◌+◌, ◌≤◌, ◌<◌, ◌≡◌, ◌⊎◌, inl, inr, some, List, arith, Bool-cases, leb, ltb, ◌&&◌,
  length, ◌-◌, refl, eq_or_ne, lt_or_le,
}
use semicomplete_googlecode.Spanningtree.Queue.{Edge}
use semicomplete_googlecode.Spanningtree.Queue.Slots.{nothing, get_elem?-get_or}
use semicomplete_googlecode.Spanningtree.Kruskal.{scan_up, scan_down}
use semicomplete_googlecode.Spanningtree.Kruskal.Rearranges.{weight_at}

module _ (edges : List Edge) (piv : ℕ) (piv_in : piv < length edges) where
  -- Where the scan from `lt` stops: what it passed is no heavier than the pivot.
  pub record Up (end lt stop : ℕ) : Type 0 where
    pub low : lt ≤ stop
    pub high : stop ≤ end
    pub passed : (k : ℕ) → lt ≤ k → k < stop → weight_at edges k ≤ weight_at edges piv
    pub stopped : (stop ≡ end) ⊎ (weight_at edges piv < weight_at edges stop)

  pub scan_up-Up :
      (fuel end lt : ℕ)
      → end < length edges
      → lt ≤ end
      → end < fuel + lt
      → (stop : ℕ) × (scan_up fuel edges piv end lt ≡ some stop) × Up end lt stop
  unfolding scan_up
  scan_up-Up zero end lt inside order few = absurd (omega arith)
  scan_up-Up (suc fuel) end lt inside order few =
      let here = get_elem?-get_or edges lt nothing (omega arith) in
      let pivot = get_elem?-get_or edges piv nothing piv_in in
      elim (Bool-cases (leb (weight_at edges lt) (weight_at edges piv) && ltb lt end)) [
        | inl go ↦
            let light : weight_at edges lt ≤ weight_at edges piv = ground arith in
            let before_end : lt < end = ground arith in
            let (stop, ran, u) = scan_up-Up fuel end (lt + 1) inside (omega arith) (omega arith) in
            (
              stop,
              rw (here, pivot, go) ran,
              record {
                low = omega (arith, u.low);
                high = u.high;
                passed = λ k from to. elim (eq_or_ne k lt) [
                  | inl first ↦ rw first light
                  | inr later ↦ u.passed k (omega arith) to
                ];
                stopped = u.stopped;
              },
            )
        | inr halt ↦ (
          lt,
          rw (here, pivot, halt) refl,
          record {
            low = omega arith;
            high = order;
            passed = λ k from to. absurd (omega arith);
            stopped = elim (lt_or_le lt end) [
              | inr over ↦ inl (omega arith)
              | inl before_end ↦ inr (ground arith)
            ];
          },
        )
      ]

  -- The scan from `gt` down: what it passed is heavier than the pivot.
  pub record Down (start gt stop : ℕ) : Type 0 where
    pub low : start ≤ stop
    pub high : stop ≤ gt
    pub passed : (k : ℕ) → stop < k → k ≤ gt → weight_at edges piv < weight_at edges k
    pub stopped : (stop ≡ start) ⊎ (weight_at edges stop ≤ weight_at edges piv)

  pub scan_down-Down :
      (fuel start gt : ℕ)
      → gt < length edges
      → start ≤ gt
      → gt < fuel + start
      → (stop : ℕ) × (scan_down fuel edges piv start gt ≡ some stop) × Down start gt stop
  unfolding scan_down
  scan_down-Down zero start gt inside order few = absurd (omega arith)
  scan_down-Down (suc fuel) start gt inside order few =
      let here = get_elem?-get_or edges gt nothing inside in
      let pivot = get_elem?-get_or edges piv nothing piv_in in
      elim (Bool-cases (ltb (weight_at edges piv) (weight_at edges gt) && ltb start gt)) [
        | inl go ↦
            let heavy : weight_at edges piv < weight_at edges gt = ground arith in
            let behind : start < gt = ground arith in
            let (stop, ran, d) =
              scan_down-Down fuel start (gt - 1) (omega arith) (omega arith) (omega arith) in
            (
              stop,
              rw (here, pivot, go) ran,
              record {
                low = d.low;
                high = omega (arith, d.high);
                passed = λ k from to. elim (eq_or_ne k gt) [
                  | inl last ↦ rw last heavy
                  | inr sooner ↦ d.passed k from (omega arith)
                ];
                stopped = d.stopped;
              },
            )
        | inr halt ↦ (
          gt,
          rw (here, pivot, halt) refl,
          record {
            low = order;
            high = omega arith;
            passed = λ k from to. absurd (omega arith);
            stopped = elim (lt_or_le start gt) [
              | inr over ↦ inl (omega arith)
              | inl behind ↦ inr (ground arith)
            ];
          },
        )
      ]
