-- ===== src/Grok/Program/Alive.antt =====
-- Counting what is alive in a collection of tags/grok/20090928/grok_program.c.
use semicomplete_googlecode.Common.{
  ℕ, zero, suc, ◌≤◌, ◌<◌, ◌≡◌, false, not, some, List, [], ◌∷◌, arith, get_elem?, ap, map, ◌∙◌,
  length, refl, sym, set,
}
use semicomplete_googlecode.Grok.Program.State.{
  Input, Program, open_inputs, still_alive, count, open_shells,
}

-- The programs hold an input that is not done, at a place.
pub still_alive-at :
    (programs : List Program) (p : ℕ) (gprog : Program)
    → get_elem? programs p ≡ some gprog
    → open_inputs gprog.inputs ≤ still_alive programs
unfolding still_alive
still_alive-at [] p gprog h = cc
still_alive-at (q ∷ qs) zero gprog h =
    let same : q ≡ gprog = cc in omega (arith, ap (λ (r : Program). open_inputs r.inputs) same)
still_alive-at (q ∷ qs) (suc p) gprog h = omega (arith, still_alive-at qs p gprog h)

pub open_inputs-at :
    (ginputs : List Input) (i : ℕ) (ginput : Input)
    → get_elem? ginputs i ≡ some ginput
    → ginput.done ≡ false
    → 0 < open_inputs ginputs
unfolding open_inputs
open_inputs-at [] i ginput h open_still = cc
open_inputs-at (j ∷ js) zero ginput h open_still =
    let same : j ≡ ginput = cc in
    let unfinished : j.done ≡ false = ap (λ (r : Input). r.done) same ∙ open_still in
    omega (arith, ap (λ b. count (not b)) unfinished)
open_inputs-at (j ∷ js) (suc i) ginput h open_still =
    omega (arith, open_inputs-at js i ginput h open_still)

pub get_elem?-map :
    {A : Type 0} {B : Type 0} (f : A → B) (xs : List A) (i : ℕ) (x : A)
    → get_elem? xs i ≡ some x
    → get_elem? (map f xs) i ≡ some (f x)
get_elem?-map f [] i x h = cc
get_elem?-map f (y ∷ xs) zero x h = cc
get_elem?-map f (y ∷ xs) (suc i) x h = get_elem?-map f xs i x h

pub get_elem?-lt :
    {A : Type 0} (xs : List A) (i : ℕ) (x : A) → get_elem? xs i ≡ some x → i < length xs
get_elem?-lt [] i x h = cc
get_elem?-lt (y ∷ xs) zero x h = omega arith
get_elem?-lt (y ∷ xs) (suc i) x h = omega (arith, get_elem?-lt xs i x h)

-- An input is replaced by another that is as much done, and a program by one that has as much alive.
pub open_inputs-set :
    (ginputs : List Input) (i : ℕ) (old new : Input)
    → get_elem? ginputs i ≡ some old
    → new.done ≡ old.done
    → open_inputs (set ginputs i new) ≡ open_inputs ginputs
unfolding open_inputs
open_inputs-set [] i old new h same = refl
open_inputs-set (j ∷ js) zero old new h same =
    let here : j ≡ old = cc in
    let both : new.done ≡ j.done = same ∙ ap (λ (r : Input). r.done) (sym here) in
    omega (arith, ap (λ b. count (not b)) both)
open_inputs-set (j ∷ js) (suc i) old new h same = omega (arith, open_inputs-set js i old new h same)

pub still_alive-set :
    (programs : List Program) (p : ℕ) (gprog : Program) (ginputs : List Input)
    → get_elem? programs p ≡ some gprog
    → open_inputs ginputs ≡ open_inputs gprog.inputs
    → still_alive (set programs p (record gprog { inputs = ginputs })) ≡ still_alive programs
unfolding still_alive
still_alive-set [] p gprog ginputs h same = refl
still_alive-set (q ∷ qs) zero gprog ginputs h same =
    let here : q ≡ gprog = cc in
    omega (
      arith,
      same,
      ap (λ (r : Program). open_inputs r.inputs) here,
      ap (λ (r : Program). open_shells r.matchconfigs) here,
    )
still_alive-set (q ∷ qs) (suc p) gprog ginputs h same =
    omega (arith, still_alive-set qs p gprog ginputs h same)
