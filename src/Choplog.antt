-- ===== src/Choplog.antt =====
-- choplog/choplog.c, which cuts a file into pieces. A name is the number that is printed in it.
-- The disk is a parameter: whether the next file can be opened, how many bytes of a block `fwrite`
-- takes for the open one, and what of them is on the disk once `fclose` has written them out.
pub mod Pieces
pub mod Steps
pub mod Whole
pub mod Works
mod Examples
use semicomplete_googlecode.Common.{
  ℕ, zero, suc, ◌+◌, ◌*◌, Bool, true, Option, none, some, List, [], ◌∷◌, ◌++◌, ltb, ◌==◌,
  if◌then◌else◌, length, take, drop, ◌%◌, ◌&&◌,
}

-- `READSIZE`
abbrev pub readsize : ℕ
readsize = 64 * 1024

-- The static variables and `ofp`, with the bytes that `fwrite` took; `bytes_written` is the 32 bits
-- of an `int`; the files that are closed, and the names that are printed.
pub record Split : Type 0 where
  pub closed : List (List ℕ)
  pub ofp : Option (List ℕ)
  pub bytes_written : ℕ
  pub split_count : ℕ
  pub current_output_file : Option ℕ
  pub printed : List ℕ

-- `exit(1)` keeps what is on the disk.
pub data Run : Type 0 where
  running exited : Split → Run

abbrev pub if_running : Run → (Split → Run) → Run
if_running (running s) next = next s
if_running (exited s) next = exited s

-- `fread` of a block: its bytes, and what is left.
abbrev pub fread : List ℕ → List ℕ × List ℕ
fread input = (take readsize input, drop readsize input)

abbrev pub start : Split
start = record {
  closed = [];
  ofp = none;
  bytes_written = 0;
  split_count = 0;
  current_output_file = none;
  printed = [];
}

module _ (xargs : Bool) where
  -- The name of a file that is closed is printed with `-x`.
  abbrev pub named : Option ℕ → List ℕ → List ℕ
  named none printed = printed
  named (some n) printed = if xargs then printed ++ n ∷ [] else printed

module _ (xargs : Bool) (fclose : Split → List ℕ → List ℕ) where
  -- With no open file nothing is called. Whether `fclose` succeeds is not looked at.
  unfoldable pub close_output : Split → Split
  close_output s = elim s.ofp [
    | none ↦ s
    | some content ↦ record s {
      closed = s.closed ++ fclose s content ∷ [];
      ofp = none;
      printed = named xargs s.current_output_file s.printed;
    }
  ]

  module _ (opens : Split → Bool) (fwrite : Split → List ℕ → ℕ) (byte_size : ℕ) where
    -- `newfile` behind the call of `close_output`.
    abbrev pub open_next : Split → Run
    open_next t =
        if opens t
        then running (record t {
          ofp = some [];
          split_count = t.split_count + 1;
          bytes_written = 0;
          current_output_file = some t.split_count;
        })
        else exited t

    unfoldable pub newfile : Split → Run
    unfolding close_output
    newfile s = open_next (close_output s)

    abbrev pub put_bytes : ℕ → List ℕ → List ℕ → Split → Run
    put_bytes bytes buf content s =
        if ltb bytes (length buf)
        then exited (record s { ofp = some (content ++ take bytes buf) })
        else running (record s {
          ofp = some (content ++ take bytes buf);
          bytes_written = (s.bytes_written + bytes) % 4294967296;
        })

    unfoldable pub write_out : List ℕ → Split → Run
    write_out buf s = elim s.ofp [
      | none ↦ exited s
      | some content ↦ put_bytes (fwrite s buf) buf content s
    ]

    abbrev pub must_open : Option (List ℕ) → ℕ → Bool
    must_open none bytes_written = true
    must_open (some content) bytes_written =
        ltb byte_size bytes_written && ltb bytes_written 2147483648

    unfoldable pub output : List ℕ → Split → Run
    unfolding newfile write_out
    output buf s =
        let fresh = newfile s in
        if must_open s.ofp s.bytes_written
        then if_running fresh (write_out buf)
        else write_out buf s

    -- What follows the loop: an error of `fread`, the bytes that are left, and the last file.
    unfoldable pub finish : Bool → List ℕ → Split → Run
    unfolding close_output
    finish feof buf s =
        let last = output buf s in
        if feof
        then if_running (if length buf == 0 then running s else last)
            (λ t. running (close_output t))
        else exited s

    unfoldable pub split_loop : ℕ → Bool → List ℕ → Split → Option Run
    split_loop zero feof input s = none
    split_loop (suc fuel) feof input s =
        let buf = (fread input).0 in
        if length buf == readsize
        then (elim (output buf s) [
          | running t ↦ split_loop fuel feof (fread input).1 t
          | exited t ↦ some (exited t)
        ])
        else some (finish feof buf s)

    -- `split` of a file that can be opened, or not; each full block makes the input shorter.
    unfoldable pub split : Bool → Option (List ℕ) → Option Run
    unfolding split_loop
    split feof none = some (exited start)
    split feof (some input) = split_loop (length input + 1) feof input start
