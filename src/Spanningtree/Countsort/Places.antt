-- ===== src/Spanningtree/Countsort/Places.antt =====
-- The writes of the counting sort of spanningtree/kruskal.c leave one slot alone.
use semicomplete_googlecode.Spanningtree.Countsort.Bounds.{
  gap, one_same, one_apart, Weighed, most, among, first, inside, misses, among_here, among_le,
  among_next, most_step,
}
use semicomplete_googlecode.Common.{
  ℕ, zero, suc, ◌+◌, ◌-◌, ◌≤◌, ◌<◌, ◌≡◌, refl, ap, ◌∙◌, true, Option, some, none, List, ltb, lt→ltb,
  ◌==◌, length, set, get_or, length-set, inl, inr, eq_or_ne, arith, sym, replicate,
  length-replicate,
}
use semicomplete_googlecode.Spanningtree.Queue.{Edge}
use semicomplete_googlecode.Spanningtree.Queue.Slots.{
  nothing, get_elem?-get_or, get_or-set_self, get_or-set_ne,
}
use semicomplete_googlecode.Spanningtree.Queue.Tally.{one, tally_zero}
use semicomplete_googlecode.Spanningtree.Kruskal.Rearranges.{edge_at, weight_at}
use semicomplete_googlecode.Spanningtree.Countsort.{place_edges}
use semicomplete_googlecode.Spanningtree.Countsort.Sums.{weighs}
use semicomplete_googlecode.Spanningtree.Countsort.Counts.{Counts}

abbrev pub fresh_slots : ℕ → List (Option Edge)
fresh_slots n = replicate n none

get_or-unwritten : (n i : ℕ) → get_or (fresh_slots n) i none ≡ none
get_or-unwritten zero i = refl
get_or-unwritten (suc n) zero = refl
get_or-unwritten (suc n) (suc i) = get_or-unwritten n i

abbrev pub zeros : ℕ → List ℕ
zeros n = replicate n 0

get_or-zeros : (n i : ℕ) → get_or (zeros n) i 0 ≡ 0
get_or-zeros zero i = refl
get_or-zeros (suc n) zero = refl
get_or-zeros (suc n) (suc i) = get_or-zeros n i

pub no_Counts : (max : ℕ) (edges : List Edge) → Counts max 0 edges (replicate max 0)
no_Counts max edges = record {
  long = length-replicate max 0;
  counted = λ w h. get_or-zeros max w ∙ sym (tally_zero (weighs w) 0 edges refl);
  light = λ k h. absurd (omega arith);
}

module _ {max m : ℕ} {edges : List Edge} (f : Weighed max m edges) where
  -- In front of the write of the edge `x`.
  pub record Placing (x : ℕ) (cur : List ℕ) (sorted : List (Option Edge)) : Type 0 where
    long : length cur ≡ max
    counts :
        x < m
        → (w : ℕ) → w < max
        → get_or cur w 0 + among edges w (x + 1) ≡ most m edges w + one ((first edges) == w)
    slots : length sorted ≡ m + 1
    unwritten : get_or sorted (gap m edges) none ≡ none

  -- The count for the next edge is decremented.
  next_counts :
      (x : ℕ) (cur : List ℕ) (sorted : List (Option Edge))
      → Placing x cur sorted
      → x < m
      → x + 1 < m
      → (w : ℕ) → w < max
      → get_or (set cur (weight_at edges (x + 1)) (get_or cur (weight_at edges (x + 1)) 0 - 1)) w 0
          + among edges w (x + 1 + 1)
        ≡ most m edges w + one ((first edges) == w)
  next_counts x cur sorted p lt next_lt w h =
      let v = weight_at edges (x + 1) in
      let v_light = f.light (x + 1) next_lt in
      elim (eq_or_ne v w) [
        | inl same ↦
            let some_left : 1 ≤ get_or cur v 0 = omega (
              arith,
              p.counts lt v v_light,
              among_next f v (x + 1) next_lt,
              one_same v,
              among_le f v (x + 1 + 1) (omega arith),
              most_step f v (f.real (x + 1) next_lt),
            ) in
            rw (← same) (
              omega (
                arith,
                some_left,
                p.counts lt v v_light,
                among_next f v (x + 1) next_lt,
                one_same v,
                get_or-set_self cur v (get_or cur v 0 - 1) 0 (omega (arith, p.long)),
              ))
        | inr other ↦ omega (
          arith,
          p.counts lt w h,
          among_next f w (x + 1) next_lt,
          one_apart v w other,
          get_or-set_ne cur v w (get_or cur v 0 - 1) 0 other,
        )
      ]

  next_light : (x : ℕ) → x < m → weight_at edges (x + 1) < max
  next_light x lt = elim (eq_or_ne (x + 1) m) [
    | inl last ↦ omega (arith, ap (weight_at edges) last, f.behind)
    | inr more ↦ f.light (x + 1) (omega arith)
  ]

  pub place_edges-Placing :
      (left x : ℕ) (cur : List ℕ) (sorted : List (Option Edge))
      → x + left ≡ m
      → Placing x cur sorted
      → (after : List (Option Edge)) × (place_edges left x edges cur sorted ≡ some after)
        × (length after ≡ m + 1)
        × (get_or after (gap m edges) none ≡ none)
  unfolding place_edges
  place_edges-Placing zero x cur sorted end p = (sorted, refl, p.slots, p.unwritten)
  place_edges-Placing (suc left) x cur sorted end p =
      let lt : x < m = omega arith in
      let w = weight_at edges x in
      let n = get_or cur w 0 in
      let v = weight_at edges (x + 1) in
      let here = among_here f x lt in
      let place = p.counts lt w (f.light x lt) in
      let fits : ltb n (length sorted) ≡ true =
        lt→ltb _ _ (omega (arith, inside f w n (among edges w (x + 1)) place here, p.slots)) in
      let other =
        misses f w n (among edges w (x + 1)) (f.real x lt) place here
          (among_le f w (x + 1) (omega arith)) in
      let put = set sorted n (some (edge_at edges x)) in
      let next = set cur v (get_or cur v 0 - 1) in
      let (after, ran, slots, unwritten) =
        place_edges-Placing left (x + 1) next put (omega arith) (record {
          long = length-set cur v (get_or cur v 0 - 1) ∙ p.long;
          counts = λ more k h. next_counts x cur sorted p lt more k h;
          slots = length-set sorted n (some (edge_at edges x)) ∙ p.slots;
          unwritten =
              get_or-set_ne sorted n (gap m edges) (some (edge_at edges x)) none other
              ∙ p.unwritten;
        }) in
      (
        after,
        rw
            (
              get_elem?-get_or edges x nothing (omega arith),
              get_elem?-get_or cur w 0 (omega (arith, p.long, f.light x lt)),
              fits,
              get_elem?-get_or edges (x + 1) nothing (omega arith),
              get_elem?-get_or cur v 0 (omega (arith, p.long, next_light x lt)),
            )
            ran,
        slots,
        unwritten,
      )

  pub first-Placing :
      (sums : List ℕ)
      → length sums ≡ max
      → ((w : ℕ) → w < max → get_or sums w 0 ≡ most m edges w)
      → Placing 0 sums (replicate (m + 1) none)
  first-Placing sums long sum = record {
    long = long;
    counts = λ lt w h.
        omega (arith, sum w h, among_next f w 0 f.some_edge, tally_zero (weighs w) 0 edges refl);
    slots = length-replicate (m + 1) none;
    unwritten = get_or-unwritten (m + 1) (gap m edges);
  }
