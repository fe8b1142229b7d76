-- ===== src/Grok/Callout/Runs.antt =====
-- Which predicate the callout of tags/grok/20090928/grok.c runs.
use semicomplete_googlecode.Common.{
  ℕ, zero, suc, ◌+◌, ◌*◌, ◌≡◌, ◌≢◌, refl, ap, ◌∙◌, Option, some, List, get_elem?, Option-cases, inl,
  inr,
}
use semicomplete_googlecode.Common.Int.{ℤ, pos, negsuc}
use semicomplete_googlecode.Grok.Capture.{
  Capture, Xdr, capture_get_by_capture_number, captures_by_capture_number, set_number_key,
  number_key, not_empty,
}
use semicomplete_googlecode.Grok.Capture.Tables.{Table}
use semicomplete_googlecode.Grok.Callout.{Block, Predicate, pcre_callout}

set_number_key-number_key :
    (X : Xdr) (z : ℤ) (n : ℕ) → set_number_key X z ≡ some (number_key X (pos n)) → z ≡ pos n
set_number_key-number_key X (pos m) n h = cc
set_number_key-number_key X (negsuc zero) n h = cc
set_number_key-number_key X (negsuc (suc m)) n h = cc

module _ (X : Xdr) (T : Table (Xdr.Bytes X)) where
  open X use {Bytes, decode}
  open T use {Db, get, secondary, secondary_sound, secondary_complete}

  -- Each record of the table with the number of a group is this capture.
  abbrev pub Only : Db → ℕ → Capture → Type 0
  Only db n gct =
      (id : List ℕ) (bytes : Bytes)
      → get db id ≡ some bytes
      → (decode bytes).pcre_capture_number ≡ pos n
      → decode bytes ≡ gct

  found_by_number :
      (db : Db) (n : ℕ) (gct : Capture) (id : List ℕ) (bytes : Bytes)
      → get db id ≡ some bytes
      → decode bytes ≡ gct
      → gct.pcre_capture_number ≡ pos n
      → Only db n gct
      → capture_get_by_capture_number X T db (pos n) ≡ some gct
  unfolding capture_get_by_capture_number
  found_by_number db n gct id bytes there same number only =
      let index = captures_by_capture_number X in
      let key = number_key X (pos n) in
      let indexed : index bytes ≡ some key =
        ap (λ (c : Capture). set_number_key X c.pcre_capture_number) same
        ∙ ap (set_number_key X) number in
      elim (Option-cases (secondary index db key)) [
        | inl missing ↦ absurd (secondary_complete index db id key bytes there indexed missing)
        | inr (other, found) ↦
            let ((at, got), keyed) = secondary_sound index db key other found in
            rw found (
              ap some (
                only at other got
                  (set_number_key-number_key X (decode other).pcre_capture_number n keyed)))
      ]

  module _ (dlsym : Option (List ℕ) → List ℕ → Option Predicate) where
    -- Where a table has a capture with the number of the group and no other one, and that names a
    -- function that `dlsym` finds, the callout gives the capture, the subject and the bounds of
    -- the group to that function and returns what it returns.
    pub pcre_callout_runs :
        (db : Db) (pcb : Block) (gct : Capture) (id : List ℕ) (bytes : Bytes) (func : List ℕ)
        (predicate : Predicate) (start end : ℤ)
        → get db id ≡ some bytes
        → decode bytes ≡ gct
        → gct.pcre_capture_number ≡ pos pcb.capture_last
        → Only db pcb.capture_last gct
        → gct.predicate_func_name ≡ some func
        → dlsym (not_empty X gct.predicate_lib) func ≡ some predicate
        → get_elem? pcb.offset_vector (pcb.capture_last * 2) ≡ some start
        → get_elem? pcb.offset_vector (pcb.capture_last * 2 + 1) ≡ some end
        → pcre_callout X T dlsym db pcb ≡ predicate gct pcb.subject start end
    unfolding pcre_callout
    pcre_callout_runs db pcb gct id bytes func predicate start end there same number only named
          found from to =
        rw
          (
            found_by_number db pcb.capture_last gct id bytes there same number only,
            named,
            from,
            to,
            found,
          )
          refl

    -- Where no capture has the number of the group, the callout accepts the match: no predicate is run.
    pub pcre_callout_skips :
        (db : Db) (pcb : Block)
        → ((id : List ℕ) (bytes : Bytes)
            → get db id ≡ some bytes
            → (decode bytes).pcre_capture_number ≢ pos pcb.capture_last)
        → pcre_callout X T dlsym db pcb ≡ some (pos 0)
    unfolding pcre_callout capture_get_by_capture_number
    pcre_callout_skips db pcb absent =
        let index = captures_by_capture_number X in
        let key = number_key X (pos pcb.capture_last) in
        elim (Option-cases (secondary index db key)) [
          | inl missing ↦ rw missing refl
          | inr (other, found) ↦
              let ((at, got), keyed) = secondary_sound index db key other found in
              absurd (
                absent at other got (
                  set_number_key-number_key X (decode other).pcre_capture_number pcb.capture_last
                    keyed))
        ]
