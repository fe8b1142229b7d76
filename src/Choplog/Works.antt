-- ===== src/Choplog/Works.antt =====
-- On a disk that takes everything, `split` of choplog/choplog.c runs to its end.
use semicomplete_googlecode.Common.{
  ℕ, zero, suc, ◌<◌, ◌≡◌, refl, Bool, true, false, some, List, [], arith, length, take, drop,
  Bool-cases, inl, inr, ltb, ltb-false, ◌==◌, ◌≤◌, ◌+◌, ap, ==_iff, Option-cases, length-append,
  take-append-drop,
}
use semicomplete_googlecode.Choplog.{
  Split, Run, running, readsize, output, write_out, if_running, close_output, split, split_loop,
  open_next, must_open, start, finish,
}
use semicomplete_googlecode.Choplog.Whole.{Cut, split-Ends}
use semicomplete_googlecode.Choplog.Steps.{output_stays, write_out_open, output_opens}

module _ (xargs : Bool) (byte_size : ℕ) (opens : Split → Bool) (fwrite : Split → List ℕ → ℕ)
    (always : (s : Split) → opens s ≡ true)
    (everything : (s : Split) (buf : List ℕ) → fwrite s buf ≡ length buf)
    (fclose : Split → List ℕ → List ℕ)
    (keeps : (s : Split) (content : List ℕ) → fclose s content ≡ content)
    (bounded : byte_size + readsize < 2147483648) where
  count : (t : Split) (b : List ℕ) → fwrite t b ≤ length b
  count t b = omega (arith, everything t b)

  abbrev Runs : Run → Type 0
  Runs r = (t : Split) × (r ≡ running t)

  write_out-Runs :
      (buf : List ℕ) (s : Split) (content : List ℕ)
      → s.ofp ≡ some content
      → Runs (write_out xargs fclose opens fwrite byte_size buf s)
  write_out-Runs buf s content e =
      let all : ltb (fwrite s buf) (length buf) ≡ false =
        ltb-false _ _ (omega (arith, everything s buf)) in
      rw
        (
          write_out_open xargs byte_size opens fwrite count fclose keeps bounded s content buf e,
          all,
        )
        (_, refl)

  open_next-Runs :
      (buf : List ℕ) (t : Split)
      → Runs (
          if_running
            (open_next xargs fclose opens fwrite byte_size t)
            (write_out xargs fclose opens fwrite byte_size buf))
  open_next-Runs buf t = rw (always t) (write_out-Runs buf _ [] refl)

  output-Runs : (buf : List ℕ) (s : Split) → Runs (output xargs fclose opens fwrite byte_size buf s)
  output-Runs buf s =
      elim (Bool-cases (must_open xargs fclose opens fwrite byte_size s.ofp s.bytes_written)) [
        | inl full ↦
            rw (output_opens xargs byte_size opens fwrite count fclose keeps bounded buf s full)
              (open_next-Runs buf (close_output xargs fclose s))
        | inr room ↦
            rw (output_stays xargs byte_size opens fwrite count fclose keeps bounded buf s room)
              (elim (Option-cases s.ofp) [
                | inl none_open ↦ absurd (let clash = rw none_open at room in cc)
                | inr (content, e) ↦ write_out-Runs buf s content e
              ])
      ]

  finish-Runs :
      (buf : List ℕ) (s : Split) → Runs (finish xargs fclose opens fwrite byte_size true buf s)
  unfolding finish
  finish-Runs buf s =
      let (t, done) = output-Runs buf s in
      elim (Bool-cases (length buf == 0)) [
        | inl nothing ↦ rw nothing (_, refl)
        | inr some_bytes ↦ rw (some_bytes, done) (_, refl)
      ]

  split_loop-Runs :
      (fuel : ℕ) (input : List ℕ) (s : Split)
      → length input < fuel
      → (t : Split) × (split_loop xargs fclose opens fwrite byte_size fuel true input s
          ≡ some (running t))
  unfolding split_loop
  split_loop-Runs zero input s lt = absurd (omega arith)
  split_loop-Runs (suc fuel) input s lt =
      let (t, done) = output-Runs (take readsize input) s in
      elim (Bool-cases (length (take readsize input) == readsize)) [
        | inl full ↦
            rw (full, done)
              (split_loop-Runs fuel (drop readsize input) t (
                let size = (==_iff (length (take readsize input)) readsize).0 full in
                omega (
                  arith,
                  lt,
                  size,
                  length-append (take readsize input) (drop readsize input),
                  ap length (take-append-drop readsize input),
                )))
        | inr short ↦ rw short (
            let (last, ended) = finish-Runs (take readsize input) s in
            (last, ap (λ r. some r) ended))
      ]

  -- Where the size and a block fit an `int`, every file opens, every block is taken and closing
  -- loses nothing of them, `split` of a file that is read to its end returns, and the closed files
  -- are the input in pieces.
  pub split_cuts :
      (input : List ℕ)
      → (t : Split) × (split xargs fclose opens fwrite byte_size true (some input)
          ≡ some (running t))
        × Cut xargs byte_size t input
  split_cuts input =
      let (r, made, ends) =
        split-Ends xargs byte_size opens fwrite count fclose keeps bounded true (some input) in
      let (t, runs) = split_loop-Runs (length input + 1) input start (omega arith) in
      let same : split xargs fclose opens fwrite byte_size true (some input) ≡ some (running t) =
        unfold split in runs in
      let is_running : r ≡ running t = cc in (t, same, rw is_running at ends)
