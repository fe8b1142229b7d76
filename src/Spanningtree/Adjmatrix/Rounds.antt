-- ===== src/Spanningtree/Adjmatrix/Rounds.antt =====
-- The rounds of `prim_adjmatrix` of spanningtree/prim.c on a cleared bitmap that is long enough.
use semicomplete_googlecode.Common.{
  ℕ, ◌+◌, ◌-◌, ◌*◌, ◌≤◌, ◌<◌, ◌≡◌, refl, ap, ◌∙◌, false, Option, none, some, List, [], ◌∷◌, ◌++◌,
  arith, length, inl, inr, Bool-cases, set, zero, suc, sym, Option-cases, length-append, true,
}
use semicomplete_googlecode.Spanningtree.Queue.{Edge}
use semicomplete_googlecode.Spanningtree.Queue.Queues.{holds, IsQueue}
use semicomplete_googlecode.Spanningtree.Bitmap.{getbit, getbit-setbit, getbit_inside}
use semicomplete_googlecode.Spanningtree.Adjmatrix.{Graph, PrimState, edge_list, edge_weight, visit}
use semicomplete_googlecode.Spanningtree.Adjmatrix.Free.{
  free, outside, IsGraph, free-set, add_edges-Added, columns,
}

-- The weight of a list of edges.
unfoldable pub total : List Edge → ℕ
total [] = 0
total (e ∷ es) = e.weight + total es

total-append : (xs ys : List Edge) → total (xs ++ ys) ≡ total xs + total ys
unfolding total
total-append [] ys = omega arith
total-append (x ∷ xs) ys = omega (arith, total-append xs ys)

total-edge_list : (o : Option Edge) → total (edge_list o) ≡ edge_weight o
unfolding total
total-edge_list none = refl
total-edge_list (some e) = omega arith

-- An edge from the queue waits to be looked at.
abbrev pub waiting : Option Edge → ℕ
waiting none = 0
waiting (some e) = 1

length-edge_list : (o : Option Edge) → length (edge_list o) ≡ waiting o
length-edge_list none = refl
length-edge_list (some e) = refl

next_free : (f n : ℕ) → (f + 1) * (n - 1) ≡ f * (n - 1) + (n - 1)
next_free f n = omega arith

pub square : (n : ℕ) → 1 ≤ n → n * (n - 1) + n ≡ n * n
square zero h = absurd (omega arith)
square (suc m) h = let less : suc m - 1 ≡ m = omega arith in rw less (omega arith)

pub columns_all : (v n : ℕ) → columns v 0 n ≡ n - 1
columns_all v n = ground arith

module _ (g : Graph) (graph : IsGraph g) where
  -- In front of the queue: what visits and the queue can still give fits the array.
  pub record Held (s : PrimState) : Type 0 where
    pub is_queue : IsQueue s.h
    pub slots : length s.h.items ≡ g.numvert * g.numvert - 1
    pub bytes : g.numvert ≤ length s.bitmap * 8
    pub inside : holds (outside g.numvert) s.h ≡ 0
    pub budget : s.h.count + free s.bitmap g.numvert * (g.numvert - 1) ≤ g.numvert * (g.numvert - 1)
    pub weighed : s.weight ≡ total s.tree

  -- At the top of the loop.
  pub record Ready (s : PrimState) : Type 0 where
    pub held : Held s
    pub vertex : s.v < g.numvert
    pub first : s.e ≡ none → getbit s.bitmap s.v ≡ some false
    pub counted : length s.tree + free s.bitmap g.numvert + waiting s.e ≡ g.numvert

  -- Behind the visit: one vertex more than there are edges.
  pub record Visited (s t : PrimState) : Type 0 where
    pub still_held : Held t
    pub edges : length t.tree + free t.bitmap g.numvert + 1 ≡ g.numvert
    pub no_more :
        t.h.count + free t.bitmap g.numvert * (g.numvert - 1)
        ≤ s.h.count + free s.bitmap g.numvert * (g.numvert - 1)

  visit_seen :
      (s : PrimState)
      → Ready s
      → getbit s.bitmap s.v ≡ some true
      → (t : PrimState) × (visit g s ≡ some t) × Visited s t
  unfolding visit
  visit_seen s r there = rw there (
    s,
    refl,
    record {
      still_held = r.held;
      edges = (elim (Option-cases s.e) [
        | inl e ↦ absurd (let clash : some true ≡ some false = sym there ∙ r.first e in cc)
        | inr (e, e_is) ↦ omega (arith, r.counted, ap waiting e_is)
      ]);
      no_more = omega arith;
    },
  )

  visit_unseen :
      (s : PrimState)
      → Ready s
      → getbit s.bitmap s.v ≡ some false
      → (t : PrimState) × (visit g s ≡ some t) × Visited s t
  unfolding visit
  visit_unseen s r there =
      let h = r.held in
      let lt = r.vertex in
      let bytes = h.bytes in
      let (bitmap, set, same_length, now, other) = getbit-setbit s.bitmap s.v (omega arith) in
      let fewer = free-set s.bitmap bitmap s.v g.numvert lt there now other in
      let spare : (free bitmap g.numvert + 1) * (g.numvert - 1)
          ≡ free bitmap g.numvert * (g.numvert - 1) + (g.numvert - 1) =
        next_free (free bitmap g.numvert) g.numvert in
      let spare' : free s.bitmap g.numvert * (g.numvert - 1)
          ≡ free bitmap g.numvert * (g.numvert - 1) + (g.numvert - 1) =
        rw fewer at spare in
      let (after, made, a) =
        add_edges-Added g graph s.v lt g.numvert 0 s.h (omega arith) h.is_queue (
          omega (
            arith,
            h.slots,
            h.budget,
            spare',
            columns_all s.v g.numvert,
            square g.numvert (omega arith),
          )) in
      rw (there, set, made)
        (
          _,
          refl,
          record {
            still_held = record {
              is_queue = a.is_queue;
              slots = a.long ∙ h.slots;
              bytes = omega (arith, same_length);
              inside = a.inside ∙ h.inside;
              budget = omega (arith, a.few, h.budget, spare', columns_all s.v g.numvert);
              weighed =
                  omega
                    (arith, h.weighed, total-append s.tree (edge_list s.e), total-edge_list s.e);
            };
            edges = omega (
              arith,
              r.counted,
              fewer,
              length-append s.tree (edge_list s.e),
              length-edge_list s.e,
            );
            no_more = omega (arith, a.few, spare', columns_all s.v g.numvert);
          },
        )

  pub visit-Visited :
      (s : PrimState) → Ready s → (t : PrimState) × (visit g s ≡ some t) × Visited s t
  visit-Visited s r =
      let lt = r.vertex in
      let bytes = r.held.bytes in
      let (seen, there) = getbit_inside s.bitmap s.v (omega arith) in
      elim (Bool-cases seen) [
        | inl old ↦ visit_seen s r (there ∙ ap (λ b. some b) old)
        | inr new ↦ visit_unseen s r (there ∙ ap (λ b. some b) new)
      ]
