-- ===== src/Grok/Program/Examples.antt =====
-- The end of a collection at concrete programs.
use semicomplete_googlecode.Common.{
  ℕ, ◌+◌, ◌*◌, ◌≡◌, ◌≢◌, ◌⊎◌, refl, Bool, true, false, none, some, [], ◌∷◌, arith, codes, ◌==◌,
  get_elem?,
}
use semicomplete_googlecode.Common.Int.{pos}
use semicomplete_googlecode.Grok.Database.{same_key}
use semicomplete_googlecode.Grok.Program.{
  collection_init, collection_add, eof_handler, exec_nomatch, exec_line, read_line, sigchld,
  process_delay, interval_delay,
}
use semicomplete_googlecode.Grok.Program.State.{
  Process, Input, file, Matchconf, pipe, Program, Collection, closed, still_alive, open_inputs,
  open_shells, check_end_state,
}
use semicomplete_googlecode.Grok.Program.Ending.{here, later, dies, reads}
use semicomplete_googlecode.Grok.Program.Unopened.{unopened_never_ends}
use semicomplete_googlecode.Grok.Program.Delays.{Reaches, process_delay_bounds}

abbrev log_file : Bool → Input
log_file done = record {
  source = file true false;
  instance_match_count = 0;
  restart_delay = pos 0;
  done = done;
}

-- A reaction for inputs without a match, to a shell of its own.
abbrev alarm : Matchconf
alarm = record {
  reaction = codes "none";
  shell = some (codes "cat");
  is_nomatch = true;
  break_if_match = false;
  shellinput = closed;
  pid = 0;
  sent = [];
}

abbrev watcher : Program
watcher = record { inputs = log_file false ∷ []; matchconfigs = alarm ∷ [] }

abbrev all_open : ℕ → Bool
all_open i = true

abbrev none_open : ℕ → Bool
none_open i = false

abbrev running : Collection
running = record { programs = watcher ∷ []; program_size = 10; ended = false }

-- The file ends with no match: the shell is started, told, and closed.
abbrev alarmed : Collection
alarmed = record {
  programs =
      record {
        inputs = record (log_file true) { instance_match_count = 1 } ∷ [];
        matchconfigs = record alarm { pid = 7; sent = codes "none" ∷ [] } ∷ [];
      }
      ∷ [];
  program_size = 10;
  ended = false;
}

-- Then the shell dies, and the loop is told to exit.
abbrev over : Collection
over = sigchld 0 (7 ∷ []) alarmed

over_ended : over.ended ≡ true
unfolding sigchld process_delay open_inputs check_end_state still_alive open_shells
over_ended = refl

-- A matchconf without a shell.
abbrev no_shell : Program
no_shell = record watcher { matchconfigs = record alarm { shell = none } ∷ [] }

null_shell : eof_handler (λ i. 7) 0 0 (record running { programs = no_shell ∷ [] }) ≡ none
unfolding eof_handler exec_nomatch
null_shell = refl

-- A line of the file matches, and the shell is started for the filtered reaction.
abbrev pager : Matchconf
pager = record alarm { is_nomatch = false; break_if_match = true }

abbrev paging : Collection
paging = record running { programs = record watcher { matchconfigs = pager ∷ pager ∷ [] } ∷ [] }

abbrev paged : Collection
paged = record paging {
  programs =
      record {
        inputs = record (log_file false) { instance_match_count = 1 } ∷ [];
        matchconfigs =
            record pager { shellinput = pipe; pid = 7; sent = codes "page" ∷ [] } ∷ pager ∷ [];
      }
      ∷ [];
}

line_read : read_line (λ i. 7) (λ i. some (codes "page")) 0 0 paging ≡ some paged
unfolding read_line exec_line same_key
line_read = refl

abbrev seven : ℕ → ℕ
seven i = 7

never_zero : (k : ℕ) → seven k ≢ 0
never_zero k e = absurd (omega arith)

-- Beside the file that cannot be opened another is read, and ends.
abbrev two_files : Program
two_files = record { inputs = log_file false ∷ log_file false ∷ []; matchconfigs = pager ∷ [] }

abbrev first_open : ℕ → Bool
first_open i = i == 0

abbrev begun : Collection
begun = collection_add first_open collection_init two_files

abbrev half_open : Program
half_open = record two_files {
  inputs = log_file false ∷ record (log_file false) { source = file false false } ∷ [];
}

abbrev line_seen : Program
line_seen = record {
  inputs =
      record (log_file false) { instance_match_count = 1 }
      ∷ record (log_file false) { source = file false false }
      ∷ [];
  matchconfigs = record pager { shellinput = pipe; pid = 7; sent = codes "page" ∷ [] } ∷ [];
}

abbrev seen : Collection
seen = record begun { programs = line_seen ∷ [] }

line_of_first : read_line (λ i. 7) (λ i. some (codes "page")) 0 0 begun ≡ some seen
unfolding read_line exec_line same_key collection_add
line_of_first = refl

begun_program : get_elem? begun.programs 0 ≡ some half_open
unfolding collection_add
begun_program = refl

begun_runs : begun.ended ≡ false
unfolding collection_add
begun_runs = refl

seen_runs : seen.ended ≡ false
unfolding collection_add
seen_runs = refl

unopened_never_ends_example : (sigchld 0 (7 ∷ []) seen).ended ≡ false
unopened_never_ends_example =
    unopened_never_ends first_open collection_init two_files 1 (log_file false) true false refl refl
      refl refl
      (later
        (later here (
          reads (λ i. 7) (λ i. some (codes "page")) 0 0 half_open (log_file false) never_zero
            begun_runs begun_program refl refl line_of_first))
        (dies 0 (7 ∷ []) seen_runs refl))

abbrev cron : Process
cron = record {
  pid = 5;
  start_time = 3000000;
  restart_on_death = true;
  min_restart_delay = 2;
  run_interval = 60;
}

process_delay_bounds_example :
    (cron.run_interval ≢ 0
      → Reaches 10000000
          (process_delay 10000000 cron)
          (cron.start_time + cron.run_interval * 1000000))
    × (cron.min_restart_delay ≢ 0
        → Reaches 10000000
            (process_delay 10000000 cron)
            (10000000 + cron.min_restart_delay * 1000000))
    × ((process_delay 10000000 cron ≡ interval_delay 10000000 cron)
        ⊎ (process_delay 10000000 cron ≡ pos (cron.min_restart_delay * 1000000)))
process_delay_bounds_example = process_delay_bounds 10000000 cron
