-- ===== src/Grok/Callout.antt =====
-- `grok_pcre_callout` of tags/grok/20090928/grok.c, which PCRE calls in the middle of a search,
-- where a group with a predicate has matched. The functions that `dlsym` finds are a parameter.
pub mod Runs
mod Examples
use semicomplete_googlecode.Common.{ℕ, ◌+◌, ◌*◌, Option, none, some, List, ◌>>=◌, get_elem?}
use semicomplete_googlecode.Common.Int.{ℤ, pos}
use semicomplete_googlecode.Grok.Capture.{
  Capture, Xdr, capture_init, capture_get_by_capture_number, not_empty,
}
use semicomplete_googlecode.Grok.Capture.Tables.{Table}

-- What is used of `pcre_callout_block`.
pub record Block : Type 0 where
  pub capture_last : ℕ
  pub offset_vector : List ℤ
  pub subject : List ℕ

-- A predicate is given the capture, the subject, and the start and the end of the group; a fault
-- in it is `none`.
abbrev pub Predicate : Type 0
Predicate = Capture → List ℕ → ℤ → ℤ → Option ℤ

module _ (X : Xdr) (T : Table (Xdr.Bytes X))
    (dlsym : Option (List ℕ) → List ℕ → Option Predicate) where
  abbrev pub called : Option Predicate → Capture → List ℕ → ℤ → ℤ → Option ℤ
  called none gct subject start end = some (pos 0)
  called (some predicate) gct subject start end = predicate gct subject start end

  -- By `predicate_func_name`; an empty `predicate_lib` is the program itself.
  abbrev pub run_predicate : Option (List ℕ) → Capture → Block → Option ℤ
  run_predicate none gct pcb = some (pos 0)
  run_predicate (some func) gct pcb = do
    start ← get_elem? pcb.offset_vector (pcb.capture_last * 2)
    end ← get_elem? pcb.offset_vector (pcb.capture_last * 2 + 1)
    called (dlsym (not_empty X gct.predicate_lib) func) gct pcb.subject start end

  -- A capture that is not found leaves `gct` as it was.
  abbrev pub found_or_init : Option Capture → Capture
  found_or_init none = capture_init
  found_or_init (some gct) = gct

  unfoldable pub pcre_callout : Table.Db T → Block → Option ℤ
  pcre_callout db pcb =
      let gct = found_or_init (capture_get_by_capture_number X T db (pos pcb.capture_last)) in
      run_predicate gct.predicate_func_name gct pcb
