-- ===== src/Spanningtree/Kruskal/Partition.antt =====
-- `qsort_partition` of spanningtree/kruskal.c puts the pivot between the edges that are no heavier and
-- those that are heavier.
use semicomplete_googlecode.Spanningtree.Kruskal.Rounds.{
  lt_in, gt_in, next-Round, later_lt, Halves, Round, crossed,
}
use semicomplete_googlecode.Common.{
  ℕ, ◌≤◌, ◌<◌, ◌≡◌, inl, inr, List, arith, length, eq_or_ne, zero, suc, ◌+◌, refl, ap, some, ltb,
  ltb→lt, Bool-cases, ◌≢◌,
}
use semicomplete_googlecode.Spanningtree.Queue.{Edge}
use semicomplete_googlecode.Spanningtree.Kruskal.Rearranges.{
  weight_at, exchanged, exchanged-other, Rearranges, Rearranges_refl, Rearranges_trans,
  swap_edges_lem, length-exchanged, exchanged-first, exchanged-Rearranges, exchanged-second,
}
use semicomplete_googlecode.Spanningtree.Kruskal.Scans.{scan_up-Up, scan_down-Down}
use semicomplete_googlecode.Spanningtree.Kruskal.{partition_loop, qsort_partition}

-- What `qsort_partition` leaves behind the loop, with the array that it started from.
record Parted (start end : ℕ) (before : List Edge) (r : List Edge × ℕ) : Type 0 where
  moved : Rearranges start end before r.0
  halves : Halves start end r.0 r.1

partition_loop-Parted :
    (fuel start end : ℕ) (edges : List Edge) (lt gt : ℕ)
    → end < length edges
    → Round start end edges lt gt
    → end < fuel + lt
    → (r : List Edge × ℕ) × (partition_loop fuel edges start end lt gt ≡ some r)
      × Parted start end edges r
unfolding partition_loop
partition_loop-Parted zero start end edges lt gt inside round few =
    absurd (omega (arith, round.lt_high))
partition_loop-Parted (suc fuel) start end edges lt gt inside round few =
    let start_in : start < length edges = omega (arith, round.gt_low, round.gt_high) in
    let (lt', ran_up, up) =
      scan_up-Up edges start start_in (end + 1) end lt inside (omega (arith, round.lt_high))
        (omega arith) in
    let (gt', ran_down, down) =
      scan_down-Down edges start start_in (end + 1) start gt (omega (arith, round.gt_high))
        round.gt_low (omega (arith, round.gt_high)) in
    elim (Bool-cases (ltb lt' gt')) [
      | inr over ↦ (
        (edges, gt'),
        rw (ran_up, ran_down, over) refl,
        record {
          moved = Rearranges_refl start end edges;
          halves =
              crossed start end edges lt gt lt' gt' inside round start_in up down (ground arith);
        },
      )
      | inl apart ↦
          let less = ltb→lt lt' gt' apart in
          let l_in = lt_in start end edges lt gt lt' gt' inside round start_in up down less in
          let g_in = gt_in start end edges lt gt lt' gt' inside round start_in up down less in
          let next = next-Round start end edges lt gt lt' gt' inside round start_in up down less in
          let further = later_lt start end edges lt gt lt' gt' inside round start_in up down less in
          let b = exchanged edges lt' gt' l_in g_in in
          let (r, rest, p) =
            partition_loop-Parted fuel start end b lt' gt'
              (omega (arith, length-exchanged edges lt' gt' l_in g_in)) next (omega arith) in
          let moved : Rearranges start end edges b =
            exchanged-Rearranges edges lt' gt' l_in g_in start end
              (omega (arith, up.low, round.lt_low)) up.high down.low
              (omega (arith, down.high, round.gt_high)) in
          (
            r,
            rw (ran_up, ran_down, apart, swap_edges_lem edges lt' gt' l_in g_in) rest,
            record { moved = Rearranges_trans moved p.moved; halves = p.halves },
          )
    ]

-- The pivot stands at `q`.
pub record Partitioned (start end : ℕ) (edges b : List Edge) (q : ℕ) : Type 0 where
  pub moved : Rearranges start end edges b
  pub low : start ≤ q
  pub high : q ≤ end
  pub light : (k : ℕ) → start ≤ k → k ≤ q → weight_at b k ≤ weight_at b q
  pub heavy : (k : ℕ) → q < k → k ≤ end → weight_at b q < weight_at b k

place_pivot :
    (start end : ℕ) (edges a : List Edge) (q : ℕ) (start_in : start < length a)
    (q_in : q < length a)
    → Parted start end edges (a, q)
    → Partitioned start end edges (exchanged a start q start_in q_in) q
place_pivot start end edges a q start_in q_in p =
    let h = p.halves in
    let b = exchanged a start q start_in q_in in
    let at_q : weight_at b q ≡ weight_at a start =
      ap (λ (e : Edge). e.weight) (exchanged-second a start q start_in q_in) in
    let at_start : weight_at b start ≡ weight_at a q =
      ap (λ (e : Edge). e.weight) (exchanged-first a start q start_in q_in) in
    let elsewhere = λ (k : ℕ) (ns : k ≢ start) (nq : k ≢ q).
      ap (λ (e : Edge). e.weight) (exchanged-other a start q start_in q_in k ns nq) in
    record {
      moved = Rearranges_trans p.moved (
          exchanged-Rearranges a start q start_in q_in start end (omega arith)
            (omega (arith, h.low, h.high)) h.low h.high);
      low = h.low;
      high = h.high;
      light = λ k low high. elim (eq_or_ne k q) [
        | inl same ↦ rw same (omega arith)
        | inr not_q ↦ elim (eq_or_ne k start) [
          | inl first ↦ rw first (omega (arith, at_q, at_start, h.light q h.low (omega arith)))
          | inr other ↦ omega (arith, at_q, elsewhere k other not_q, h.light k low high)
        ]
      ];
      heavy = λ k low high. omega (
        arith,
        at_q,
        elsewhere k (λ e. absurd (omega (arith, h.low))) (λ e. absurd (omega arith)),
        h.heavy k low high,
      );
    }

pub qsort_partition-Partitioned :
    (edges : List Edge) (start end : ℕ)
    → start < end
    → end < length edges
    → (r : List Edge × ℕ) × (qsort_partition edges start end ≡ some r)
      × Partitioned start end edges r.0 r.1
unfolding qsort_partition
qsort_partition-Partitioned edges start end order inside =
    let first : Round start end edges start end = record {
      lt_low = omega arith;
      lt_high = order;
      gt_low = omega arith;
      gt_high = omega arith;
      light = λ k low high. (let same : k ≡ start = omega arith in rw same (omega arith));
      heavy = λ k low high. absurd (omega arith);
    } in
    let ((a, q), ran, p) =
      partition_loop-Parted (end + 1) start end edges start end inside first (omega arith) in
    let start_in : start < length a = omega (arith, p.moved.long) in
    let q_in : q < length a = omega (arith, p.moved.long, p.halves.high) in
    (
      (exchanged a start q start_in q_in, q),
      rw (ran, swap_edges_lem a start q start_in q_in) refl,
      place_pivot start end edges a q start_in q_in p,
    )
