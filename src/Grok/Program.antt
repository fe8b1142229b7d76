-- ===== src/Grok/Program.antt =====
-- How grok ends and restarts its inputs: tags/grok/20090928/grok_program.c, `grok_input_eof_handler`
-- and `_program_process_start` of grok_input.c, and the shells of grok_matchconf.c. What `fork`,
-- `waitpid`, `open` and the clock answer is given. Times are in microseconds.
pub mod State
pub mod Alive
pub mod Lines
pub mod Ending
pub mod Places
pub mod Unopened
pub mod Delays
mod Examples
use semicomplete_googlecode.Grok.Program.State.{
  Collection, Input, Matchconf, Process, Program, Sink, Source, check_end_state, closed, file,
  open_inputs, pipe, process, stdout,
}
use semicomplete_googlecode.Common.{
  ℕ, ◌+◌, ◌*◌, Bool, true, false, ◌&&◌, ◌||◌, not, Option, none, some, List, [], ◌∷◌, ◌++◌, map,
  ltb, leb, ◌-◌, ◌==◌, if◌then◌else◌, ◌>>=◌, codes, length, get_elem?, set,
}
use semicomplete_googlecode.Common.Int.{ℤ, pos, negsuc, pos_part, neg_part}
use semicomplete_googlecode.Grok.Database.{same_key}

-- `grok_matchconfig_start_shell`: the name of the shell is compared before it is tested for NULL, and
-- `strcmp` of NULL is a fault.
unfoldable pub start_shell : ℕ → Matchconf → Option Matchconf
start_shell pid gmc = do
  shell ← gmc.shell
  some (
      if same_key shell (codes "stdout")
      then record gmc { shellinput = stdout }
      else record gmc { shellinput = pipe; pid = pid })

abbrev pub opened_shell : Sink → ℕ → Matchconf → Option Matchconf
opened_shell closed pid gmc = start_shell pid gmc
opened_shell stdout pid gmc = some gmc
opened_shell pipe pid gmc = some gmc

-- `grok_matchconfig_react`, once the reaction is filtered.
unfoldable pub react : ℕ → List ℕ → Matchconf → Option Matchconf
unfolding start_shell
react pid reaction gmc = do
  ready ← opened_shell gmc.shellinput pid gmc
  some (record ready { sent = ready.sent ++ reaction ∷ [] })

-- `grok_matchconfig_exec_nomatch`, with the count of the input; with no match a reaction is sent as
-- it is. The shell of the i-th matchconf would
-- be started as `fork i`.
unfoldable pub exec_nomatch : (ℕ → ℕ) → ℕ → List Matchconf → ℕ → Option (List Matchconf × ℕ)
unfolding react
exec_nomatch fork i [] matches = some ([], matches)
exec_nomatch fork i (gmc ∷ gmcs) matches =
    let passed = (do (rest, n) ← exec_nomatch fork (i + 1) gmcs matches; some (gmc ∷ rest, n)) in
    let reacted = (do
      sent ← react (fork i) gmc.reaction gmc
      (rest, n) ← exec_nomatch fork (i + 1) gmcs (matches + 1)
      some (sent ∷ rest, n)) in
    if gmc.is_nomatch then reacted else passed

abbrev pub is_none : {A : Type 0} → Option A → Bool
is_none none = true
is_none (some x) = false

-- `grok_matchconfig_exec` for a line: `found i` is the filtered reaction of the i-th matchconf if its
-- expression matches the line.
unfoldable pub exec_line :
    (ℕ → ℕ) → (ℕ → Option (List ℕ)) → ℕ → List Matchconf → ℕ → Option (List Matchconf × ℕ)
unfolding react
exec_line fork found i [] matches = some ([], matches)
exec_line fork found i (gmc ∷ gmcs) matches =
    let passed = (do (rest, n) ← exec_line fork found (i + 1) gmcs matches; some (gmc ∷ rest, n)) in
    let more = exec_line fork found (i + 1) gmcs (matches + 1) in
    let matched = (do
      reaction ← found i
      sent ← react (fork i) reaction gmc
      (rest, n) ← if gmc.break_if_match then some (gmcs, matches + 1) else more
      some (sent ∷ rest, n)) in
    if gmc.is_nomatch || is_none (found i) then passed else matched

-- `_program_file_read_buffer` and `_program_process_stdout_read` for one line.
unfoldable pub read_line : (ℕ → ℕ) → (ℕ → Option (List ℕ)) → ℕ → ℕ → Collection → Option Collection
unfolding exec_line
read_line fork found p i gcol = do
  gprog ← get_elem? gcol.programs p
  ginput ← get_elem? gprog.inputs i
  (gmcs, n) ← exec_line fork found 0 gprog.matchconfigs ginput.instance_match_count
  some (record gcol {
    programs = set gcol.programs p (record {
      inputs = set gprog.inputs i (record ginput { instance_match_count = n });
      matchconfigs = gmcs;
    });
  })

abbrev pub matchconfig_close : Matchconf → Matchconf
matchconfig_close gmc = record gmc { shellinput = closed }

-- `PROCESS_SHOULD_RESTART`.
abbrev pub should_restart : Process → Bool
should_restart p = p.restart_on_death || not (p.run_interval == 0)

-- The switch of `grok_input_eof_handler`: the input goes on, or is done.
abbrev pub goes_on : Source → Bool
goes_on (file opened follow) = follow
goes_on (process p) = should_restart p

unfoldable pub at_eof : Input → Input
at_eof ginput =
    if goes_on ginput.source
    then record ginput { instance_match_count = 0 }
    else record ginput { done = true }

-- With all inputs done the shells are closed.
unfoldable pub close_shells : Program → Program
close_shells gprog =
    if open_inputs gprog.inputs == 0
    then record gprog { matchconfigs = map matchconfig_close gprog.matchconfigs }
    else gprog

-- The reactions to an input without a match.
unfoldable pub nomatch : (ℕ → ℕ) → Input → List Matchconf → Option (List Matchconf × ℕ)
nomatch fork ginput gmcs =
    let matches = ginput.instance_match_count in
    let executed = exec_nomatch fork 0 gmcs matches in
    if matches == 0 then executed else some (gmcs, matches)

unfoldable pub end_input : (ℕ → ℕ) → Program → ℕ → Input → Option Program
unfolding nomatch at_eof close_shells
end_input fork gprog i ginput = do
  (gmcs, matches) ← nomatch fork ginput gprog.matchconfigs
  some (
      close_shells (record {
        inputs = set gprog.inputs i (at_eof (record ginput { instance_match_count = matches }));
        matchconfigs = gmcs;
      }))

-- `grok_input_eof_handler` for the i-th input of the p-th program.
unfoldable pub eof_handler : (ℕ → ℕ) → ℕ → ℕ → Collection → Option Collection
unfolding end_input
eof_handler fork p i gcol = do
  gprog ← get_elem? gcol.programs p
  ginput ← get_elem? gprog.inputs i
  after ← end_input fork gprog i ginput
  let next = record gcol { programs = set gcol.programs p after } in
      some (if open_inputs after.inputs == 0 then check_end_state next else next)

-- `timersub` and `timercmp` on signed times.
abbrev pub time_diff : ℕ → ℕ → ℤ
time_diff a b = if leb b a then pos (a - b) else negsuc (b - a - 1)

abbrev pub earlier : ℤ → ℤ → Bool
earlier a b = ltb (pos_part a + neg_part b) (pos_part b + neg_part a)

-- The interval less the time that the process has run.
abbrev pub interval_delay : ℕ → Process → ℤ
interval_delay now p =
    if p.run_interval == 0 then pos 0 else time_diff (p.run_interval * 1000000 + p.start_time) now

unfoldable pub process_delay : ℕ → Process → ℤ
process_delay now p =
    let fixed = pos (p.min_restart_delay * 1000000) in
    if not (p.min_restart_delay == 0) && earlier (interval_delay now p) fixed
    then fixed
    else interval_delay now p

-- `_collection_sigchld` for one dead child.
abbrev pub reap_shell : ℕ → Matchconf → Matchconf
reap_shell pid gmc = if gmc.pid == pid then record gmc { pid = 0 } else gmc

abbrev pub reap_process : ℕ → ℕ → Input → Process → Input
reap_process now pid ginput p =
    if p.pid == pid && should_restart p
    then record ginput { restart_delay = process_delay now p }
    else ginput

abbrev pub reap_source : ℕ → ℕ → Input → Source → Input
reap_source now pid ginput (file opened follow) = ginput
reap_source now pid ginput (process p) = reap_process now pid ginput p

unfoldable pub reap_input : ℕ → ℕ → Input → Input
unfolding process_delay
reap_input now pid ginput = reap_source now pid ginput ginput.source

unfoldable pub reap : ℕ → ℕ → Program → Program
unfolding reap_input
reap now pid gprog = record {
  inputs = map (reap_input now pid) gprog.inputs;
  matchconfigs = map (reap_shell pid) gprog.matchconfigs;
}

-- `waitpid` gives the dead children one by one.
unfoldable pub reap_all : ℕ → List ℕ → List Program → List Program
unfolding reap
reap_all now [] programs = programs
reap_all now (pid ∷ pids) programs = reap_all now pids (map (reap now pid) programs)

unfoldable pub sigchld : ℕ → List ℕ → Collection → Collection
unfolding reap_all
sigchld now pids gcol = check_end_state (record gcol { programs = reap_all now pids gcol.programs })

-- `_program_process_start`, in the parent.
abbrev pub started : ℕ → ℕ → Input → Source → Option Input
started now pid ginput (file opened follow) = none
started now pid ginput (process p) = some (record ginput {
  source = process (record p { pid = pid; start_time = now });
  instance_match_count = 0;
})

unfoldable pub process_start : ℕ → ℕ → ℕ → ℕ → Collection → Option Collection
process_start now pid p i gcol = do
  gprog ← get_elem? gcol.programs p
  ginput ← get_elem? gprog.inputs i
  running ← started now pid ginput ginput.source
  some (record gcol {
    programs = set gcol.programs p (record gprog { inputs = set gprog.inputs i running });
  })

-- `grok_program_add_input`; `open_file` is whether the i-th input, if a file, could be opened.
abbrev pub add_source : Bool → Source → Source
add_source can_open (file opened follow) = file can_open follow
add_source can_open (process p) = process p

abbrev pub add_input : Bool → Input → Input
add_input can_open ginput = record ginput {
  source = add_source can_open ginput.source;
  instance_match_count = 0;
  done = false;
}

unfoldable pub add_inputs : (ℕ → Bool) → ℕ → List Input → List Input
add_inputs open_file i [] = []
add_inputs open_file i (ginput ∷ ginputs) =
    add_input (open_file i) ginput ∷ add_inputs open_file (i + 1) ginputs

-- `grok_collection_add`: the array of programs is doubled when it is full.
unfoldable pub collection_add : (ℕ → Bool) → Collection → Program → Collection
unfolding add_inputs
collection_add open_file gcol gprog =
    let programs =
      gcol.programs ++ record gprog { inputs = add_inputs open_file 0 gprog.inputs } ∷ [] in
    record gcol {
      programs = programs;
      program_size =
          if length programs == gcol.program_size then gcol.program_size * 2 else gcol.program_size;
    }

abbrev pub collection_init : Collection
collection_init = record { programs = []; program_size = 10; ended = false }
