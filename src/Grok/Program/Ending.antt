-- ===== src/Grok/Program/Ending.antt =====
-- When the event loop of grok ends, tags/grok/20090928/grok_program.c and grok_input.c: what the
-- handlers can do in turn, as a relation between collections.
use semicomplete_googlecode.Common.{
  ℕ, ◌≡◌, ◌↔◌, true, false, some, List, arith, get_elem?, inl, inr, Bool, none, ◌==◌, if◌then◌else◌,
  Bool-cases, Option-cases, set, get_elem?-set_self, refl, ap, ◌≤◌, sym, ◌∙◌, ◌≢◌, Option,
}
use semicomplete_googlecode.Grok.Program.{
  eof_handler, sigchld, process_start, end_input, reap_all, started, read_line,
}
use semicomplete_googlecode.Grok.Program.State.{
  Input, Source, file, process, Program, Collection, still_alive, check_end_state, open_inputs,
}
use semicomplete_googlecode.Grok.Program.Alive.{
  still_alive-at, get_elem?-lt, open_inputs-set, still_alive-set,
}
use semicomplete_googlecode.Grok.Program.Lines.{still_alive-more, read_line-Read}

-- The input has a handler that can be called: it is not a file that could not be opened.
abbrev pub HasEvents : Source → Type 0
HasEvents (file opened follow) = opened ≡ true
HasEvents (process p) = Unit

-- A handler is called while the loop runs: a line is read, an input ends, children have died, or a
-- process is started. In the parent a `fork` does not return 0. The handlers that copy a followed
-- file to its pipe change nothing of the collection.
pub data Step (gcol : Collection) : Collection → Type 0 where
  ends :
      (fork : ℕ → ℕ) (p i : ℕ) (gprog : Program) (ginput : Input) {next : Collection}
      → gcol.ended ≡ false
      → get_elem? gcol.programs p ≡ some gprog
      → get_elem? gprog.inputs i ≡ some ginput
      → HasEvents ginput.source
      → eof_handler fork p i gcol ≡ some next
      → Step gcol next
  reads :
      (fork : ℕ → ℕ) (found : ℕ → Option (List ℕ)) (p i : ℕ) (gprog : Program) (ginput : Input)
      {next : Collection}
      → ((k : ℕ) → fork k ≢ 0)
      → gcol.ended ≡ false
      → get_elem? gcol.programs p ≡ some gprog
      → get_elem? gprog.inputs i ≡ some ginput
      → HasEvents ginput.source
      → read_line fork found p i gcol ≡ some next
      → Step gcol next
  dies :
      (now : ℕ) (pids : List ℕ) {next : Collection}
      → gcol.ended ≡ false
      → next ≡ sigchld now pids gcol
      → Step gcol next
  starts :
      (now pid p i : ℕ) {next : Collection}
      → gcol.ended ≡ false
      → process_start now pid p i gcol ≡ some next
      → Step gcol next

pub data Reach (gcol : Collection) : Collection → Type 0 where
  here : Reach gcol gcol
  later : {mid next : Collection} → Reach gcol mid → Step mid next → Reach gcol next

abbrev pub EndsWhenIdle : Collection → Type 0
EndsWhenIdle gcol = (gcol.ended ≡ true) ↔ (still_alive gcol.programs ≡ 0)

check_end_state-EndsWhenIdle :
    (gcol : Collection) → gcol.ended ≡ false → EndsWhenIdle (check_end_state gcol)
unfolding check_end_state
check_end_state-EndsWhenIdle gcol running = ground arith

abbrev pub moved_on : Collection → Bool → Collection
moved_on gcol last = if last then check_end_state gcol else gcol

-- What a successful `grok_input_eof_handler` did.
pub eof_handler_result :
    (fork : ℕ → ℕ) (p i : ℕ) (gcol : Collection) (gprog : Program) (ginput : Input)
    (next : Collection)
    → get_elem? gcol.programs p ≡ some gprog
    → get_elem? gprog.inputs i ≡ some ginput
    → eof_handler fork p i gcol ≡ some next
    → (after : Program) × (end_input fork gprog i ginput ≡ some after)
      × (next
          ≡ moved_on
              (record gcol { programs = set gcol.programs p after })
              (open_inputs after.inputs == 0))
unfolding eof_handler
eof_handler_result fork p i gcol gprog ginput next at_p at_i ran =
    elim (Option-cases (end_input fork gprog i ginput)) [
      | inl fault ↦ let e : none ≡ some next = rw (at_p, at_i, fault) at ran in cc
      | inr (after, ended) ↦
          let e : some (
                moved_on (record gcol { programs = set gcol.programs p after })
                  (open_inputs after.inputs == 0))
              ≡ some next =
            rw (at_p, at_i, ended) at ran in
          (after, ended, cc)
    ]

ends-EndsWhenIdle :
    (gcol : Collection) (p : ℕ) (gprog after : Program)
    → gcol.ended ≡ false
    → get_elem? gcol.programs p ≡ some gprog
    → EndsWhenIdle (
        moved_on
          (record gcol { programs = set gcol.programs p after })
          (open_inputs after.inputs == 0))
ends-EndsWhenIdle gcol p gprog after running at_p =
    let there =
      get_elem?-set_self gcol.programs p after (get_elem?-lt gcol.programs p gprog at_p) in
    let some_open = still_alive-at (set gcol.programs p after) p after there in
    elim (Bool-cases (open_inputs after.inputs == 0)) [
      | inl last ↦ rw last (
          check_end_state-EndsWhenIdle (record gcol { programs = set gcol.programs p after })
            running)
      | inr more ↦ rw more (ground arith)
    ]

started-done :
    (now pid : ℕ) (ginput running : Input) (source : Source)
    → started now pid ginput source ≡ some running
    → running.done ≡ ginput.done
started-done now pid ginput running (file opened follow) h = cc
started-done now pid ginput running (process p) h =
    let same : running ≡ record ginput {
      source = process (record p { pid = pid; start_time = now });
      instance_match_count = 0;
    } =
      cc in
    ap (λ (r : Input). r.done) same

process_start_result :
    (now pid p i : ℕ) (gcol next : Collection)
    → process_start now pid p i gcol ≡ some next
    → (still_alive next.programs ≡ still_alive gcol.programs) × (next.ended ≡ gcol.ended)
unfolding process_start
process_start_result now pid p i gcol next ran = elim (Option-cases (get_elem? gcol.programs p)) [
  | inl missing ↦ let e : none ≡ some next = rw missing at ran in cc
  | inr (gprog, at_p) ↦ elim (Option-cases (get_elem? gprog.inputs i)) [
    | inl missing ↦ let e : none ≡ some next = rw (at_p, missing) at ran in cc
    | inr (ginput, at_i) ↦ elim (Option-cases (started now pid ginput ginput.source)) [
      | inl missing ↦ let e : none ≡ some next = rw (at_p, at_i, missing) at ran in cc
      | inr (running, made) ↦
          let ginputs = set gprog.inputs i running in
          let after : Collection = record gcol {
            programs = set gcol.programs p (record gprog { inputs = ginputs });
          } in
          let e : some after ≡ some next = rw (at_p, at_i, made) at ran in
          let same : next ≡ after = cc in
          rw same (
            still_alive-set gcol.programs p gprog ginputs at_p (
                open_inputs-set gprog.inputs i ginput running at_i
                  (started-done now pid ginput running ginput.source made)),
            refl,
          )
    ]
  ]
]

still_idle :
    (gcol : Collection) (programs : List Program)
    → gcol.ended ≡ false
    → EndsWhenIdle gcol
    → still_alive gcol.programs ≤ still_alive programs
    → EndsWhenIdle (record gcol { programs = programs })
still_idle gcol programs running idle more = (
  λ over. absurd (let clash_ended : false ≡ true = sym running ∙ over in cc),
  λ none_left. absurd (
      let over = idle.1 (omega (arith, more, none_left)) in
      let both : false ≡ true = sym running ∙ over in cc),
)

pub Reach-EndsWhenIdle :
    {gcol next : Collection} → EndsWhenIdle gcol → Reach gcol next → EndsWhenIdle next
unfolding sigchld
Reach-EndsWhenIdle h here = h
Reach-EndsWhenIdle h (later {mid} r (ends fork p i gprog ginput running at_p at_i events ran)) =
    let (after, ended, e) = eof_handler_result fork p i mid gprog ginput _ at_p at_i ran in
    rw e (ends-EndsWhenIdle mid p gprog after running at_p)
Reach-EndsWhenIdle h (later {mid} r (dies now pids running e)) = rw e (
    check_end_state-EndsWhenIdle (record mid { programs = reap_all now pids mid.programs }) running)
Reach-EndsWhenIdle h (later {mid} r (starts now pid p i running ran)) =
    let (alive, ended) = process_start_result now pid p i mid _ ran in
    let before = Reach-EndsWhenIdle h r in rw (alive, ended) before
Reach-EndsWhenIdle h
      (later {mid} {next} r (reads fork found p i gprog ginput real running at_p at_i events ran)) =
    let read = read_line-Read fork found p i mid next gprog ginput real at_p at_i ran in
    let before : EndsWhenIdle mid = Reach-EndsWhenIdle h r in
    let inputs : open_inputs read.after.inputs ≡ open_inputs gprog.inputs =
      ap open_inputs read.inputs
      ∙ open_inputs-set gprog.inputs i ginput read.new at_i read.not_ended in
    rw read.result (
      still_idle mid (set mid.programs p read.after) running before
        (still_alive-more mid.programs p gprog read.after at_p inputs read.alive))
