-- ===== src/Grok/Program/Unopened.antt =====
-- A file that cannot be opened keeps grok running, tags/grok/20090928/grok_input.c: it has no event,
-- and it counts as an input that is not done.
use semicomplete_googlecode.Common.{
  ℕ, ◌≡◌, ◌≢◌, refl, inl, inr, Bool, true, false, some, none, List, [], ◌∷◌, arith, ◌==◌, get_elem?,
  set, ap, Bool-cases, Option-cases, ◌∙◌, zero, suc, ◌+◌, eq_or_ne, length, get_elem?-append_at,
}
use semicomplete_googlecode.Grok.Program.{
  reap_all, sigchld, started, process_start, add_input, add_inputs, collection_add,
}
use semicomplete_googlecode.Grok.Program.State.{
  Input, file, Program, Collection, open_inputs, Source, process,
}
use semicomplete_googlecode.Grok.Program.Ending.{
  HasEvents, ends, dies, starts, Reach, here, later, EndsWhenIdle, eof_handler_result,
  Reach-EndsWhenIdle, reads,
}
use semicomplete_googlecode.Grok.Program.Places.{
  reap_all-Unopened, Unopened-set_input, Unopened-alive, Unopened-set_program, moved_on-programs,
  check_end_state-programs, Unopened-only, Unopened, end_input_inputs,
}
use semicomplete_googlecode.Grok.Program.Lines.{read_line-Read}

-- A replaced input is not at the place.
other_place :
    {programs : List Program} {p i : ℕ} (q j : ℕ) (gprog after : Program) (ginput new : Input)
    → Unopened programs p i
    → get_elem? programs q ≡ some gprog
    → get_elem? gprog.inputs j ≡ some ginput
    → after.inputs ≡ set gprog.inputs j new
    → ((follow : Bool) → ginput.source ≢ file false follow)
    → Unopened (set programs q after) p i
other_place {programs} {p} {i} q j gprog after ginput new u at_q at_j e differs =
    elim (eq_or_ne q p) [
      | inr elsewhere ↦ Unopened-set_program q after u elsewhere
      | inl same ↦
          let at_p : get_elem? programs p ≡ some gprog = rw (← same) at_q in
          elim (eq_or_ne j i) [
            | inr other ↦ rw same (Unopened-set_input j gprog after new u at_p e other)
            | inl clash ↦
                let at_i : get_elem? gprog.inputs i ≡ some ginput = rw (← clash) at_j in
                let (follow, is_file) = Unopened-only u at_p at_i in absurd (differs follow is_file)
          ]
    ]

HasEvents-opened :
    (source : Source) → HasEvents source → (follow : Bool) → source ≢ file false follow
HasEvents-opened (file true f) h follow e = cc
HasEvents-opened (file false f) h follow e = cc
HasEvents-opened (process p) h follow e = cc

started-opened :
    (now pid : ℕ) (ginput running : Input) (source : Source)
    → started now pid ginput source ≡ some running
    → (follow : Bool) → source ≢ file false follow
started-opened now pid ginput running (file opened f) h follow e = cc
started-opened now pid ginput running (process p) h follow e = cc

process_start-Unopened :
    (now pid q j : ℕ) (gcol next : Collection) {p i : ℕ}
    → Unopened gcol.programs p i
    → process_start now pid q j gcol ≡ some next
    → Unopened next.programs p i
unfolding process_start
process_start-Unopened now pid q j gcol next u ran =
    elim (Option-cases (get_elem? gcol.programs q)) [
      | inl missing ↦ let e : none ≡ some next = rw missing at ran in cc
      | inr (gprog, at_q) ↦ elim (Option-cases (get_elem? gprog.inputs j)) [
        | inl missing ↦ let e : none ≡ some next = rw (at_q, missing) at ran in cc
        | inr (ginput, at_j) ↦ elim (Option-cases (started now pid ginput ginput.source)) [
          | inl missing ↦ let e : none ≡ some next = rw (at_q, at_j, missing) at ran in cc
          | inr (running, made) ↦
              let after : Program = record gprog { inputs = set gprog.inputs j running } in
              let e : some (record gcol { programs = set gcol.programs q after }) ≡ some next =
                rw (at_q, at_j, made) at ran in
              let same : next ≡ record gcol { programs = set gcol.programs q after } = cc in
              rw same (
                other_place q j gprog after ginput running u at_q at_j refl
                  (started-opened now pid ginput running ginput.source made))
        ]
      ]
    ]

Reach-Unopened :
    {gcol next : Collection} {p i : ℕ}
    → Unopened gcol.programs p i
    → Reach gcol next
    → Unopened next.programs p i
unfolding sigchld
Reach-Unopened u here = u
Reach-Unopened u (later {mid} r (ends fork q j gprog ginput running at_q at_j events ran)) =
    let before = Reach-Unopened u r in
    let (after, ended, e) = eof_handler_result fork q j mid gprog ginput _ at_q at_j ran in
    let (new, inputs) = end_input_inputs fork gprog j ginput after ended in
    let programs =
      moved_on-programs (record mid { programs = set mid.programs q after })
        (open_inputs after.inputs == 0) in
    rw (e, programs)
      (other_place q j gprog after ginput new before at_q at_j inputs
        (HasEvents-opened ginput.source events))
Reach-Unopened u (later {mid} r (dies now pids running e)) =
    rw (e, check_end_state-programs (record mid { programs = reap_all now pids mid.programs }))
      (reap_all-Unopened now pids (Reach-Unopened u r))
Reach-Unopened u (later {mid} r (starts now pid q j running ran)) =
    process_start-Unopened now pid q j mid _ (Reach-Unopened u r) ran
Reach-Unopened u
      (later {mid} {next} r (reads fork found q j gprog ginput real running at_q at_j events ran)) =
    let read = read_line-Read fork found q j mid next gprog ginput real at_q at_j ran in
    rw read.result (
      other_place q j gprog read.after ginput read.new (Reach-Unopened u r) at_q at_j read.inputs
        (HasEvents-opened ginput.source events))

add_inputs-at :
    (open_file : ℕ → Bool) (k i j : ℕ) (ginputs : List Input) (ginput : Input)
    → get_elem? ginputs i ≡ some ginput
    → j ≡ k + i
    → get_elem? (add_inputs open_file k ginputs) i ≡ some (add_input (open_file j) ginput)
unfolding add_inputs
add_inputs-at open_file k i j [] ginput h e = cc
add_inputs-at open_file k zero j (x ∷ xs) ginput h e =
    let first : j ≡ k = omega arith in let same : x ≡ ginput = cc in rw (first, same) refl
add_inputs-at open_file k (suc i) j (x ∷ xs) ginput h e =
    add_inputs-at open_file (k + 1) i j xs ginput h (omega arith)

collection_add-Unopened :
    (open_file : ℕ → Bool) (gcol : Collection) (gprog : Program) (i : ℕ) (ginput : Input)
    (opened follow : Bool)
    → get_elem? gprog.inputs i ≡ some ginput
    → ginput.source ≡ file opened follow
    → open_file i ≡ false
    → Unopened (collection_add open_file gcol gprog).programs (length gcol.programs) i
unfolding collection_add
collection_add-Unopened open_file gcol gprog i ginput opened follow at_i is_file missing = record {
  gprog = record gprog { inputs = add_inputs open_file 0 gprog.inputs };
  ginput = add_input false ginput;
  follow = follow;
  at_p = get_elem?-append_at (length gcol.programs) gcol.programs _ [] refl;
  at_i =
      add_inputs-at open_file 0 i i gprog.inputs ginput at_i (omega arith)
      ∙ ap (λ b. some (add_input b ginput)) missing;
  is_file = rw is_file refl;
  unfinished = refl;
}

-- Where a program is added to a collection that runs, and one of its input files cannot be opened,
-- the event loop is never told to exit, whatever lines, ends of inputs, deaths and starts the handlers
-- get: also when all other inputs are
-- done and no shell is left.
pub unopened_never_ends :
    (open_file : ℕ → Bool) (gcol : Collection) (gprog : Program) (i : ℕ) (ginput : Input)
    (opened follow : Bool) {next : Collection}
    → gcol.ended ≡ false
    → get_elem? gprog.inputs i ≡ some ginput
    → ginput.source ≡ file opened follow
    → open_file i ≡ false
    → Reach (collection_add open_file gcol gprog) next
    → next.ended ≡ false
unfolding collection_add
unopened_never_ends open_file gcol gprog i ginput opened follow {next} running at_i is_file missing
      r =
    let u =
      collection_add-Unopened open_file gcol gprog i ginput opened follow at_i is_file missing in
    let idle : EndsWhenIdle (collection_add open_file gcol gprog) =
      ground (arith, Unopened-alive u) in
    let after = Reach-EndsWhenIdle idle r in
    let alive = Unopened-alive (Reach-Unopened u r) in
    elim (Bool-cases next.ended) [
      | inr still ↦ still
      | inl over ↦ absurd (omega (arith, after.0 over, alive))
    ]
