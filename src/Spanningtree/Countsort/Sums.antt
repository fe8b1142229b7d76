-- ===== src/Spanningtree/Countsort/Sums.antt =====
-- How many edges have at most a weight, and the sums of `countsort` in spanningtree/kruskal.c.
use semicomplete_googlecode.Common.{
  ℕ, zero, suc, ◌+◌, ◌-◌, ◌≤◌, ◌<◌, ◌≡◌, ◌≢◌, refl, ap, ◌∙◌, Bool, true, false, some, List, [], ◌∷◌,
  leb, ◌==◌, length, set, get_or, length-set, sym, inl, inr, eq_or_ne, arith,
}
use semicomplete_googlecode.Spanningtree.Queue.{Edge}
use semicomplete_googlecode.Spanningtree.Queue.Slots.{
  get_elem?-get_or, get_or-set_self, get_or-set_ne,
}
use semicomplete_googlecode.Spanningtree.Queue.Tally.{tally, one}
use semicomplete_googlecode.Spanningtree.Countsort.{cumulate}

abbrev pub weighs : ℕ → Edge → Bool
weighs w e = e.weight == w

abbrev pub upto : ℕ → Edge → Bool
upto w e = leb e.weight w

one-upto : (w : ℕ) (e : Edge) → one (upto (suc w) e) ≡ one (upto w e) + one (weighs (suc w) e)
one-upto w e = ground arith

one-upto_zero : (e : Edge) → one (upto 0 e) ≡ one (weighs 0 e)
one-upto_zero e = ground arith

-- One weight more.
pub tally-upto :
    (w n : ℕ) (items : List Edge)
    → tally (upto (suc w)) n items ≡ tally (upto w) n items + tally (weighs (suc w)) n items
unfolding tally
tally-upto w zero items = omega arith
tally-upto w (suc n) [] = omega arith
tally-upto w (suc n) (e ∷ items) = omega (arith, one-upto w e, tally-upto w n items)

pub tally-upto_zero :
    (n : ℕ) (items : List Edge) → tally (upto 0) n items ≡ tally (weighs 0) n items
unfolding tally
tally-upto_zero zero items = refl
tally-upto_zero (suc n) [] = refl
tally-upto_zero (suc n) (e ∷ items) = omega (arith, one-upto_zero e, tally-upto_zero n items)

one_le : (b : Bool) → one b ≤ 1
one_le true = omega arith
one_le false = omega arith

module _ (p : Edge → Bool) where
  pub tally_most : (n : ℕ) (items : List Edge) → tally p n items ≤ n
  unfolding tally
  tally_most zero items = omega arith
  tally_most (suc n) [] = omega arith
  tally_most (suc n) (e ∷ items) = omega (arith, one_le (p e), tally_most n items)

  pub tally_longer : (n more : ℕ) (items : List Edge) → tally p n items ≤ tally p (n + more) items
  unfolding tally
  tally_longer zero more items = omega arith
  tally_longer (suc n) more [] =
      let e : suc n + more ≡ suc (n + more) = omega arith in rw e (omega arith)
  tally_longer (suc n) more (x ∷ items) =
      let e : suc n + more ≡ suc (n + more) = omega arith in
      rw e (omega (arith, tally_longer n more items))

-- Of more weights there are more.
pub tally-upto_more :
    (v more n : ℕ) (items : List Edge) → tally (upto v) n items ≤ tally (upto (v + more)) n items
tally-upto_more v zero n items = let e : v + 0 ≡ v = omega arith in rw e (omega arith)
tally-upto_more v (suc more) n items =
    let e : v + suc more ≡ suc (v + more) = omega arith in
    rw e (omega (arith, tally-upto_more v more n items, tally-upto (v + more) n items))

-- In front of `x` the sums are made, from `x` on the counts are as before.
record Summed (counts cur : List ℕ) (x : ℕ) : Type 0 where
  long : length cur ≡ length counts
  first : get_or cur 0 0 ≡ get_or counts 0 0
  sums : (w : ℕ) → suc w < x → get_or cur (suc w) 0 ≡ get_or cur w 0 + get_or counts (suc w) 0
  rest : (w : ℕ) → x ≤ w → get_or cur w 0 ≡ get_or counts w 0

cumulate-Summed :
    (left x : ℕ) (counts cur : List ℕ)
    → 1 ≤ x
    → x + left ≡ length counts
    → Summed counts cur x
    → (after : List ℕ) × (cumulate left x cur ≡ some after) × Summed counts after (x + left)
unfolding cumulate
cumulate-Summed zero x counts cur low end s = let e : x + 0 ≡ x = omega arith in (cur, refl, rw e s)
cumulate-Summed (suc left) x counts cur low end s =
    let new = get_or cur x 0 + get_or cur (x - 1) 0 in
    let next = set cur x new in
    let keeps : (w : ℕ) → x ≢ w → get_or next w 0 ≡ get_or cur w 0 =
      λ w h. get_or-set_ne cur x w new 0 h in
    let here : get_or next x 0 ≡ new = get_or-set_self cur x new 0 (omega (arith, s.long)) in
    let (after, ran, t) =
      cumulate-Summed left (x + 1) counts next (omega arith) (omega arith) (record {
        long = length-set cur x new ∙ s.long;
        first = keeps 0 (λ e. absurd (omega arith)) ∙ s.first;
        sums = λ w h. elim (eq_or_ne (suc w) x) [
          | inr other ↦ omega (
            arith,
            keeps (suc w) (λ e. other (sym e)),
            keeps w (λ e. absurd (omega arith)),
            s.sums w (omega arith),
          )
          | inl same ↦
              let last : x - 1 ≡ w = omega arith in
              let made = s.rest x (omega arith) in
              rw same (
                omega (
                  arith,
                  here,
                  made,
                  ap (λ k. get_or cur k 0) last,
                  keeps w (λ e. absurd (omega arith)),
                ))
        ];
        rest = λ w h. keeps w (λ e. absurd (omega arith)) ∙ s.rest w (omega arith);
      }) in
    let end_at : x + 1 + left ≡ x + suc left = omega arith in
    (
      after,
      rw
          (
            get_elem?-get_or cur x 0 (omega (arith, s.long)),
            get_elem?-get_or cur (x - 1) 0 (omega (arith, s.long)),
          )
          ran,
      rw end_at at t,
    )

Summed-tally :
    (max n : ℕ) (items : List Edge) (counts after : List ℕ)
    → ((w : ℕ) → w < max + 1 → get_or counts w 0 ≡ tally (weighs w) n items)
    → Summed counts after (1 + max)
    → (w : ℕ) → w < max + 1
    → get_or after w 0 ≡ tally (upto w) n items
Summed-tally max n items counts after counted s zero h =
    s.first ∙ counted 0 h ∙ sym (tally-upto_zero n items)
Summed-tally max n items counts after counted s (suc w) h = omega (
  arith,
  s.sums w (omega arith),
  Summed-tally max n items counts after counted s w (omega arith),
  counted (suc w) h,
  tally-upto w n items,
)

-- From counts of the edges of each weight, `cumulate` makes the counts of those of at most that weight.
pub cumulate_tallies :
    (max n : ℕ) (items : List Edge) (counts : List ℕ)
    → length counts ≡ max + 1
    → ((w : ℕ) → w < max + 1 → get_or counts w 0 ≡ tally (weighs w) n items)
    → (after : List ℕ) × (cumulate max 1 counts ≡ some after)
      × (length after ≡ max + 1)
      × ((w : ℕ) → w < max + 1 → get_or after w 0 ≡ tally (upto w) n items)
cumulate_tallies max n items counts long counted =
    let (after, ran, s) = cumulate-Summed max 1 counts counts (omega arith) (omega arith) (record {
      long = refl;
      first = refl;
      sums = λ w h. absurd (omega arith);
      rest = λ w h. refl;
    }) in
    let sum : (w : ℕ) → w < max + 1 → get_or after w 0 ≡ tally (upto w) n items =
      λ w h. Summed-tally max n items counts after counted s w h in
    (after, ran, s.long ∙ long, sum)
