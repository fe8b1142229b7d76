-- ===== src/Grok/Capture/Examples.antt =====
-- The captures at a concrete table.

use semicomplete_googlecode.Grok.Database.{find}
use semicomplete_googlecode.Common.{◌≡◌, refl, some, codes, true, arith}
use semicomplete_googlecode.Grok.Capture.{Capture, capture_init, capture_add}
use semicomplete_googlecode.Grok.Capture.Plain.{plain}
use semicomplete_googlecode.Grok.Capture.Tables.{Table, assoc_table}
use semicomplete_googlecode.Grok.Capture.Lookup.{Kept, capture_add_found, Alone}

abbrev word : Capture
word = record capture_init { id = some 1; name = some (codes "WORD") }

abbrev empty_table : Table.Db (assoc_table Capture)
empty_table = Table.empty (assoc_table Capture)

word-Alone : Alone plain (assoc_table Capture) empty_table 1 word
unfolding find
word-Alone other u there differs = cc

capture_add_found_example :
    (after : Table.Db (assoc_table Capture)) × (capture_add plain
        (assoc_table Capture)
        empty_table
        word
      ≡ some (after, true))
    × Kept plain (assoc_table Capture) empty_table after word 1 (codes "WORD")
capture_add_found_example =
    capture_add_found plain (assoc_table Capture) empty_table word 1 (codes "WORD") refl refl
      (omega arith) word-Alone
