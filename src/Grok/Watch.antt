-- ===== src/Grok/Watch.antt =====
-- How a file is followed in tags/grok/20090928/grok_input.c: `_program_file_read_real`,
-- `_program_file_repair_event`, and the part of `grok_input_eof_handler` for one file. Times are
-- in seconds; the microseconds are always 0. What the kernel answers is an argument.
pub mod Backoff
pub mod Following
mod Examples
use semicomplete_googlecode.Common.{
  ℕ, ◌+◌, ◌*◌, Bool, Option, none, some, List, ◌++◌, ltb, ◌==◌, if◌then◌else◌, length, take, drop,
}

-- `struct stat`, and `grok_input_file_t` with the offset of its `fd`; `piped` is what was written
-- to the pipe, and `is_open` whether `fd` is not -1.
pub record Stat : Type 0 where
  pub st_ino : ℕ
  pub st_size : ℕ

pub record Watch : Type 0 where
  pub position : ℕ
  pub offset : ℕ
  pub st : Stat
  pub waittime : ℕ
  pub piped : List ℕ
  pub is_open : Bool

-- What is scheduled next, and when.
pub data Next : Type 0 where
  read_after repair_after : ℕ → Next
  closed exits : Next

-- `grok_input_eof_handler` for a file: with `follow` it is repaired after the restart delay.
abbrev pub at_eof : Bool → ℕ → Next
at_eof follow restart_delay = if follow then repair_after restart_delay else closed

-- The size is that of the last `stat`, or the offset where more has been read since.
abbrev pub grown : Stat → ℕ → Stat
grown st offset = if ltb st.st_size offset then record st { st_size = offset } else st

-- A read of `bytes` that were passed on. With none of them the file is at its end.
unfoldable pub after_read : Bool → ℕ → List ℕ → Watch → Watch × Next
after_read follow restart_delay bytes gift =
    let count = length bytes in
    let read = record gift {
      position = gift.position + count;
      offset = gift.offset + count;
      st = grown gift.st (gift.offset + count);
      piped = gift.piped ++ bytes;
    } in
    if count == 0
    then (read, at_eof follow restart_delay)
    else (record read { waittime = 0 }, read_after 0)

-- `read(2)` of at most `blksize` bytes of what the open file holds. With no open file it gives -1, and
-- so many bytes `write(2)` refuses: `exit(1)`.
unfoldable pub read_real : Bool → ℕ → ℕ → List ℕ → Watch → Watch × Next
unfolding after_read
read_real follow restart_delay blksize content gift =
    if gift.is_open
    then after_read follow restart_delay (take blksize (drop gift.position content)) gift
    else (gift, exits)

-- The wait is doubled, up to a minute.
abbrev pub doubled : ℕ → ℕ
doubled waittime = if waittime == 0 then 1 else if ltb 60 (waittime * 2) then 60 else waittime * 2

-- Another inode is opened, from its start, which `opens` tells the success of; a file that shrank is
-- read from the start.
abbrev pub repaired : Bool → Stat → Watch → Watch
repaired opens st gift =
    if st.st_ino == gift.st.st_ino
    then (if ltb st.st_size gift.st.st_size
        then record gift { offset = 0; position = 0; waittime = 0; st = st }
        else record gift { waittime = doubled gift.waittime; st = st })
    else record gift { position = 0; offset = 0; waittime = 0; st = st; is_open = opens }

-- `stat` may fail, and the file is given up.
unfoldable pub repair_event : Bool → Option Stat → Watch → Option (Watch × Next)
repair_event opens none gift = none
repair_event opens (some st) gift =
    let next = repaired opens st gift in some (next, read_after next.waittime)
