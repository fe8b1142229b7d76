-- ===== src/Grok/Reaction.antt =====
-- The filters of a reaction, `grok_match_reaction_apply_filter` of
-- tags/grok/20090928/grok_matchconf.c. The table of the filters, made by gperf, is a parameter.
pub mod Filtering
mod Examples
use semicomplete_googlecode.Common.{
  ℕ, zero, suc, ◌+◌, Option, none, some, List, ltb, ◌==◌, if◌then◌else◌, ◌>>=◌, get_elem?,
}
use semicomplete_googlecode.Grok.Buffer.{Str, read, string_ndup}

-- `func` of a filter, whose result is only logged; `none` is a fault in it.
abbrev pub Filter : Type 0
Filter = Str → Option Str

-- `value` and `value_len`; the value points into a block, of which this is the rest.
pub record Value : Type 0 where
  pub bytes : List ℕ
  pub len : ℕ

-- With no filter the value is returned as it was given.
pub data Filtered : Type 0 where
  given : Value → Filtered
  copied : Str → Filtered

module _ (string_filter_lookup : List ℕ → Option Filter) where
  -- A filter that is not known leaves the value as it is.
  abbrev pub run_filter : Option Filter → Str → Option Str
  run_filter none value = some value
  run_filter (some func) value = func value

  -- The filter whose name has `len` bytes from `offset` on.
  unfoldable pub run_named : List ℕ → ℕ → ℕ → Str → Option Str
  run_named filter offset len value = do
    name ← read filter offset len
    run_filter (string_filter_lookup name) value

  -- The loop, and the filter that is left over behind it. At a '|' the name in front of it is run,
  -- and the next one starts with a length of one.
  unfoldable pub filter_loop : ℕ → List ℕ → ℕ → ℕ → ℕ → Str → Option Str
  unfolding run_named
  filter_loop zero filter filter_len offset len value = none
  filter_loop (suc fuel) filter filter_len offset len value =
      let next = (do
        filtered ← run_named filter offset len value
        filter_loop fuel filter filter_len (offset + (len + 1)) 1 filtered) in
      let longer = filter_loop fuel filter filter_len offset (len + 1) value in
      let round = (do c ← get_elem? filter (offset + len); if c == b'|' then next else longer) in
      if ltb (offset + len) filter_len then round else run_named filter offset len value

  -- The result is the value, and the block it points to with its allocated size.
  unfoldable pub apply_filters : List ℕ → ℕ → Value → Option Str
  unfolding filter_loop
  apply_filters filter filter_len value = do
    copy ← string_ndup value.bytes value.len
    filter_loop (filter_len + 1) filter filter_len 1 0
        (record { mem = copy; len = value.len; size = value.len + 1 })

  unfoldable pub reaction_apply_filter : List ℕ → ℕ → Value → Option Filtered
  unfolding apply_filters
  reaction_apply_filter filter filter_len value =
      let filtered = (do s ← apply_filters filter filter_len value; some (copied s)) in
      if filter_len == 0 then some (given value) else filtered
