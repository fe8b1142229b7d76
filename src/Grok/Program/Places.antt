-- ===== src/Grok/Program/Places.antt =====
-- The place of a file that was not opened, and what the handlers of tags/grok/20090928/grok_program.c
-- and grok_input.c leave there.
use semicomplete_googlecode.Common.{
  ℕ, ◌<◌, ◌≡◌, ◌≢◌, refl, inl, inr, Bool, true, false, some, none, List, [], ◌∷◌, arith, ◌==◌,
  get_elem?, set, ap, Bool-cases, Option-cases, get_elem?-set_self, get_elem?-set_ne, sym, ◌∙◌,
}
use semicomplete_googlecode.Grok.Program.{
  end_input, reap, reap_all, reap_input, at_eof, close_shells, nomatch,
}
use semicomplete_googlecode.Grok.Program.State.{
  Input, file, Program, Collection, open_inputs, still_alive, check_end_state,
}
use semicomplete_googlecode.Grok.Program.Alive.{
  still_alive-at, open_inputs-at, get_elem?-map, get_elem?-lt,
}
use semicomplete_googlecode.Grok.Program.Ending.{moved_on}

-- At the place is a file that was not opened.
pub record Unopened (programs : List Program) (p i : ℕ) : Type 0 where
  pub gprog : Program
  pub ginput : Input
  pub follow : Bool
  pub at_p : get_elem? programs p ≡ some gprog
  pub at_i : get_elem? gprog.inputs i ≡ some ginput
  pub is_file : ginput.source ≡ file false follow
  pub unfinished : ginput.done ≡ false

pub Unopened-alive :
    {programs : List Program} {p i : ℕ} → Unopened programs p i → 0 < still_alive programs
Unopened-alive {programs} {p} {i} u = omega (
  arith,
  still_alive-at programs p u.gprog u.at_p,
  open_inputs-at u.gprog.inputs i u.ginput u.at_i u.unfinished,
)

-- Another program, or another input of the same program, is replaced.
pub Unopened-set_program :
    {programs : List Program} {p i : ℕ} (q : ℕ) (after : Program)
    → Unopened programs p i
    → q ≢ p
    → Unopened (set programs q after) p i
Unopened-set_program {programs} q after u other = record {
  gprog = u.gprog;
  ginput = u.ginput;
  follow = u.follow;
  at_p = get_elem?-set_ne programs after other ∙ u.at_p;
  at_i = u.at_i;
  is_file = u.is_file;
  unfinished = u.unfinished;
}

pub Unopened-set_input :
    {programs : List Program} {p i : ℕ} (j : ℕ) (gprog after : Program) (new : Input)
    → Unopened programs p i
    → get_elem? programs p ≡ some gprog
    → after.inputs ≡ set gprog.inputs j new
    → j ≢ i
    → Unopened (set programs p after) p i
Unopened-set_input {programs} {p} {i} j gprog after new u at_p e other =
    let same : u.gprog ≡ gprog = let both : some u.gprog ≡ some gprog = sym u.at_p ∙ at_p in cc in
    let at_i : get_elem? gprog.inputs i ≡ some u.ginput =
      ap (λ (r : Program). get_elem? r.inputs i) (sym same) ∙ u.at_i in
    record {
      gprog = after;
      ginput = u.ginput;
      follow = u.follow;
      at_p = get_elem?-set_self programs p after (get_elem?-lt programs p gprog at_p);
      at_i = ap (λ l. get_elem? l i) e ∙ get_elem?-set_ne gprog.inputs new other ∙ at_i;
      is_file = u.is_file;
      unfinished = u.unfinished;
    }

-- What stands at the place has no event.
pub Unopened-only :
    {programs : List Program} {p i : ℕ} {gprog : Program} {ginput : Input}
    → Unopened programs p i
    → get_elem? programs p ≡ some gprog
    → get_elem? gprog.inputs i ≡ some ginput
    → (follow : Bool) × (ginput.source ≡ file false follow)
Unopened-only {programs} {p} {i} {gprog} {ginput} u at_p at_i =
    let same : u.gprog ≡ gprog = let both : some u.gprog ≡ some gprog = sym u.at_p ∙ at_p in cc in
    let both : some u.ginput ≡ some ginput =
      sym u.at_i ∙ ap (λ (r : Program). get_elem? r.inputs i) same ∙ at_i in
    let input : u.ginput ≡ ginput = cc in
    (u.follow, ap (λ (r : Input). r.source) (sym input) ∙ u.is_file)

pub close_shells-inputs : (gprog : Program) → (close_shells gprog).inputs ≡ gprog.inputs
unfolding close_shells
close_shells-inputs gprog = elim (Bool-cases (open_inputs gprog.inputs == 0)) [
  | inl last ↦ rw last refl
  | inr more ↦ rw more refl
]

pub end_input_inputs :
    (fork : ℕ → ℕ) (gprog : Program) (i : ℕ) (ginput : Input) (after : Program)
    → end_input fork gprog i ginput ≡ some after
    → (new : Input) × (after.inputs ≡ set gprog.inputs i new)
unfolding end_input
end_input_inputs fork gprog i ginput after ran =
    elim (Option-cases (nomatch fork ginput gprog.matchconfigs)) [
      | inl fault ↦ let e : none ≡ some after = rw fault at ran in cc
      | inr ((gmcs, matches), made) ↦
          let new = at_eof (record ginput { instance_match_count = matches }) in
          let before : Program = record { inputs = set gprog.inputs i new; matchconfigs = gmcs } in
          let e : some (close_shells before) ≡ some after = rw made at ran in
          let same : after ≡ close_shells before = cc in
          (new, ap (λ (r : Program). r.inputs) same ∙ close_shells-inputs before)
    ]

pub check_end_state-programs : (gcol : Collection) → (check_end_state gcol).programs ≡ gcol.programs
unfolding check_end_state
check_end_state-programs gcol = elim (Bool-cases (still_alive gcol.programs == 0)) [
  | inl last ↦ rw last refl
  | inr more ↦ rw more refl
]

pub moved_on-programs :
    (gcol : Collection) (last : Bool) → (moved_on gcol last).programs ≡ gcol.programs
moved_on-programs gcol true = check_end_state-programs gcol
moved_on-programs gcol false = refl

pub reap_input-file :
    (now pid : ℕ) (ginput : Input) (follow : Bool)
    → ginput.source ≡ file false follow
    → reap_input now pid ginput ≡ ginput
unfolding reap_input
reap_input-file now pid ginput follow e = rw e refl

pub reap_all-Unopened :
    (now : ℕ) (pids : List ℕ) {programs : List Program} {p i : ℕ}
    → Unopened programs p i
    → Unopened (reap_all now pids programs) p i
unfolding reap_all reap
reap_all-Unopened now [] u = u
reap_all-Unopened now (pid ∷ pids) {programs} {p} {i} u = reap_all-Unopened now pids (record {
  gprog = reap now pid u.gprog;
  ginput = u.ginput;
  follow = u.follow;
  at_p = get_elem?-map (reap now pid) programs p u.gprog u.at_p;
  at_i =
      get_elem?-map (reap_input now pid) u.gprog.inputs i u.ginput u.at_i
      ∙ ap some (reap_input-file now pid u.ginput u.follow u.is_file);
  is_file = u.is_file;
  unfinished = u.unfinished;
})
