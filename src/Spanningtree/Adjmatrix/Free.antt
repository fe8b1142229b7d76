-- ===== src/Spanningtree/Adjmatrix/Free.antt =====
-- How many vertices the bitmap of spanningtree/prim.c leaves out, and the edges that a visit adds.
use semicomplete_googlecode.Common.{
  ℕ, zero, suc, ◌+◌, ◌-◌, ◌≤◌, ◌<◌, ◌≡◌, ◌≢◌, refl, ap, ◌∙◌, Bool, true, false, not, ◌&&◌, Option,
  some, List, arith, ltb, ◌==◌, length, inl, inr, eq_or_ne, Bool-cases, if◌then◌else◌, lt→ltb,
}
use semicomplete_googlecode.Spanningtree.Queue.{Edge, Heap}
use semicomplete_googlecode.Spanningtree.Queue.Queues.{holds, IsQueue, enqueue_correct}
use semicomplete_googlecode.Spanningtree.Queue.Tally.{one}
use semicomplete_googlecode.Spanningtree.Bitmap.{getbit}
use semicomplete_googlecode.Spanningtree.Adjmatrix.{Graph, weight_of, add_edges}

abbrev pub unset : Option Bool → ℕ
unset (some false) = 1
unset _ = 0

-- Of the first `n` vertices.
unfoldable pub free : List ℕ → ℕ → ℕ
free f zero = 0
free f (suc n) = unset (getbit f n) + free f n

free_same :
    (f g : List ℕ) (n : ℕ) → ((e : ℕ) → e < n → getbit g e ≡ getbit f e) → free g n ≡ free f n
unfolding free
free_same f g zero h = refl
free_same f g (suc n) h = rw (h n (omega arith), free_same f g n (λ e lt. h e (omega arith))) refl

pub free-set :
    (f g : List ℕ) (v n : ℕ)
    → v < n
    → getbit f v ≡ some false
    → getbit g v ≡ some true
    → ((e : ℕ) → v ≢ e → getbit g e ≡ getbit f e)
    → free g n + 1 ≡ free f n
unfolding free
free-set f g v zero lt was now other = absurd (omega arith)
free-set f g v (suc n) lt was now other = elim (eq_or_ne v n) [
  | inl e ↦
      let was_n : getbit f n ≡ some false = rw e at was in
      let now_n : getbit g n ≡ some true = rw e at now in
      rw (was_n, now_n, free_same f g n (λ i small. other i (omega arith))) (omega arith)
  | inr ne ↦ rw (other n ne) (omega (arith, free-set f g v n (omega arith) was now other))
]

-- An edge that leaves the graph.
abbrev pub outside : ℕ → Edge → Bool
outside n e = not (ltb e.x n && ltb e.y n)

-- A square matrix with no edge from a vertex to itself.
pub record IsGraph (g : Graph) : Type 0 where
  pub square : (x y : ℕ) → x < g.numvert → y < g.numvert → (w : ℕ) × (weight_of g x y ≡ some w)
  pub no_loop : (x : ℕ) → x < g.numvert → weight_of g x x ≡ some 0

-- The columns that may hold an edge.
abbrev pub columns : ℕ → ℕ → ℕ → ℕ
columns v y left = if ltb v y then left else left - 1

pub record Added (n most : ℕ) (h after : Heap) : Type 0 where
  pub is_queue : IsQueue after
  pub long : length after.items ≡ length h.items
  pub few : after.count ≤ h.count + most
  pub inside : holds (outside n) after ≡ holds (outside n) h

module _ (g : Graph) (graph : IsGraph g) (v : ℕ) (lt : v < g.numvert) where
  pub add_edges-Added :
      (left y : ℕ) (h : Heap)
      → left + y ≡ g.numvert
      → IsQueue h
      → h.count + columns v y left ≤ length h.items
      → (after : Heap) × (add_edges g left y v h ≡ some after)
        × Added g.numvert (columns v y left) h after
  unfolding add_edges
  add_edges-Added zero y h total q room =
      (h, refl, record { is_queue = q; long = refl; few = omega arith; inside = refl })
  add_edges-Added (suc left) y h total q room =
      let (w, there) = graph.square v y lt (omega arith) in
      rw there (elim (Bool-cases (w == 0)) [
        | inl no_edge ↦
            let fewer : columns v (y + 1) left ≤ columns v y (suc left) = ground arith in
            let (after, made, a) = add_edges-Added left (y + 1) h (omega arith) q (omega arith) in
            rw no_edge (
              after,
              made,
              record {
                is_queue = a.is_queue;
                long = a.long;
                few = omega (arith, a.few);
                inside = a.inside;
              },
            )
        | inr edge ↦
            let other : v ≢ y = (λ e.
              let same : weight_of g v v ≡ some w = ap (weight_of g v) e ∙ there in
              let loop = graph.no_loop v lt in let none_left : w ≡ 0 = cc in ground arith) in
            let fewer : columns v (y + 1) left + 1 ≤ columns v y (suc left) = ground arith in
            let (mid, put, mq, counted, long, held) =
              enqueue_correct h (record { x = v; y = y; weight = w }) q (omega arith) in
            let (after, made, a) =
              add_edges-Added left (y + 1) mid (omega arith) mq (omega arith) in
            let in_graph : outside g.numvert (record { x = v; y = y; weight = w }) ≡ false =
              rw (lt→ltb v g.numvert lt, lt→ltb y g.numvert (omega arith)) refl in
            rw (edge, put)
              (
                after,
                made,
                record {
                  is_queue = a.is_queue;
                  long = a.long ∙ long;
                  few = omega (arith, a.few);
                  inside = omega (arith, a.inside, held (outside g.numvert), ap one in_graph);
                },
              )
      ])
