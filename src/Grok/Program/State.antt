-- ===== src/Grok/Program/State.antt =====
-- The state of a running grok, tags/grok/20090928/grok_program.h, grok_input.h and grok_matchconf.h,
-- and when its event loop ends.
use semicomplete_googlecode.Common.{
  ℕ, ◌+◌, Bool, true, false, not, Option, List, [], ◌∷◌, ◌==◌, if◌then◌else◌,
}
use semicomplete_googlecode.Common.Int.{ℤ}

-- `grok_input_process`, what its restarts need.
pub record Process : Type 0 where
  pub pid : ℕ
  pub start_time : ℕ
  pub restart_on_death : Bool
  pub min_restart_delay : ℕ
  pub run_interval : ℕ

-- A file that could not be opened has no event.
pub data Source : Type 0 where
  file : (opened follow : Bool) → Source
  process : Process → Source

-- `grok_input`.
pub record Input : Type 0 where
  pub source : Source
  pub instance_match_count : ℕ
  pub restart_delay : ℤ
  pub done : Bool

-- `shellinput`; `closed` is NULL.
pub data Sink : Type 0 where
  closed stdout pipe : Sink

-- `grok_matchconf`, with the lines that were sent to its shell.
pub record Matchconf : Type 0 where
  pub reaction : List ℕ
  pub shell : Option (List ℕ)
  pub is_nomatch : Bool
  pub break_if_match : Bool
  pub shellinput : Sink
  pub pid : ℕ
  pub sent : List (List ℕ)

pub record Program : Type 0 where
  pub inputs : List Input
  pub matchconfigs : List Matchconf

-- `grok_collection`; `ended` is whether the event loop was told to exit.
pub record Collection : Type 0 where
  pub programs : List Program
  pub program_size : ℕ
  pub ended : Bool

abbrev pub count : Bool → ℕ
count true = 1
count false = 0

unfoldable pub open_inputs : List Input → ℕ
open_inputs [] = 0
open_inputs (i ∷ is) = count (not i.done) + open_inputs is

unfoldable pub open_shells : List Matchconf → ℕ
open_shells [] = 0
open_shells (m ∷ ms) = count (not (m.pid == 0)) + open_shells ms

unfoldable pub still_alive : List Program → ℕ
still_alive [] = 0
still_alive (p ∷ ps) = open_inputs p.inputs + open_shells p.matchconfigs + still_alive ps

unfoldable pub check_end_state : Collection → Collection
check_end_state gcol = if still_alive gcol.programs == 0 then record gcol { ended = true } else gcol
