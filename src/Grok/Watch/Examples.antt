-- ===== src/Grok/Watch/Examples.antt =====
-- The following of a file at concrete inputs.
use Prim.Native.Nat.{◌^◌}
use semicomplete_googlecode.Common.{
  ℕ, ◌≤◌, ◌≡◌, refl, true, some, List, [], ◌++◌, arith, codes, if◌then◌else◌, min, ◌||◌, ◌==◌, [],
}
use semicomplete_googlecode.Grok.Watch.{
  Watch, Stat, repair_event, read_real, exits, at_eof, read_after,
}
use semicomplete_googlecode.Grok.Watch.Following.{
  Follows, reads, replaced, reads_all, repair_event-Follows,
}
use semicomplete_googlecode.Grok.Watch.Backoff.{looks, repair_event_backoff}

abbrev lines : List ℕ
lines = codes "one two"

abbrev stat_of : ℕ → Stat
stat_of size = record { st_ino = 5; st_size = size }

-- Before the first read.
abbrev opened : Watch
opened = record {
  position = 0;
  offset = 0;
  st = stat_of 7;
  waittime = 0;
  piped = [];
  is_open = true;
}

opened-Follows : Follows [] lines opened
opened-Follows = record {
  is_open = refl;
  in_step = refl;
  inside = omega arith;
  copied = refl;
  size = omega arith;
}

reads_all_example :
    (t : Watch) × (k : ℕ) × (k ≤ 8)
    × (reads true 3 4 (omega arith) k lines (opened, read_after 0) ≡ (t, at_eof true 3))
    × (t.piped ≡ [] ++ lines)
    × Follows [] lines t
reads_all_example =
    reads_all true 3 4 (omega arith) 8 [] lines opened (read_after 0) opened-Follows (omega arith)

repair_event-Follows_example :
    (t : Watch) × (repair_event true (some (stat_of 2)) opened ≡ some (t, read_after t.waittime))
    × (if replaced (stat_of 2) opened
        then (if true || 5 == 5
            then Follows [] (codes "ab") t
            else (read_real true 3 4 (codes "ab") t ≡ (t, exits)))
        else Follows [] lines t)
repair_event-Follows_example =
    repair_event-Follows true true 3 4 [] lines (codes "ab") (stat_of 2) opened opened-Follows

repair_event_backoff_example :
    (t : Watch) × (looks true 8 (some (stat_of 7)) (opened, read_after 0)
      ≡ some (t, read_after (min 60 (2 ^ 7))))
repair_event_backoff_example =
    repair_event_backoff true 7 (stat_of 7) opened (read_after 0) refl refl
