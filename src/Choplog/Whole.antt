-- ===== src/Choplog/Whole.antt =====
-- The run of `split` of choplog/choplog.c as a whole: what is on the disk when it ends.
use semicomplete_googlecode.Common.{
  ℕ, zero, suc, ◌≤◌, ◌<◌, ◌≡◌, Bool, true, false, none, List, [], ◌∷◌, ◌++◌, append-nil, arith,
  if◌then◌else◌, length, take, drop, All, Bool-cases, inl, inr, Option-cases, take-append-drop,
  ◌==◌, refl, ap, some, length-append, sym, ◌∙◌, Option, append_assoc, ==_iff, length-take, ◌+◌,
  ◌≢◌, take_all,
}
use semicomplete_googlecode.Choplog.{
  Split, Run, running, exited, readsize, output, if_running, close_output, finish, split_loop,
  start, split,
}
use semicomplete_googlecode.Choplog.Pieces.{
  join, Small, Large, Kept, Part, Outcome, numbers, Kept-Part, Opened, named-listed,
  close_output_open, pieces, close_output-none,
}
use semicomplete_googlecode.Choplog.Steps.{output-Outcome}
use semicomplete_googlecode.Common.Returns.{Returns}

-- All but the last.
abbrev pub AllButLast : (List ℕ → Type 0) → List (List ℕ) → Type 0
AllButLast P [] = Unit
AllButLast P (p ∷ []) = Unit
AllButLast P (p ∷ q ∷ ps) = P p × AllButLast P (q ∷ ps)

AllButLast-append :
    (P : List ℕ → Type 0) (ps : List (List ℕ)) (q : List ℕ) → All P ps → AllButLast P (ps ++ q ∷ [])
AllButLast-append P [] q h = tt
AllButLast-append P (p ∷ []) q (h, _) = (h, tt)
AllButLast-append P (p ∷ p' ∷ ps) q (h, hs) = (h, AllButLast-append P (p' ∷ ps) q hs)

All-AllButLast : (P : List ℕ → Type 0) (ps : List (List ℕ)) → All P ps → AllButLast P ps
All-AllButLast P [] h = tt
All-AllButLast P (p ∷ []) h = tt
All-AllButLast P (p ∷ q ∷ ps) (h, hs) = (h, All-AllButLast P (q ∷ ps) hs)

module _ (xargs : Bool) (byte_size : ℕ) where
  -- The closed files are the input in pieces.
  pub record Cut (s : Split) (content : List ℕ) : Type 0 where
    pub whole : join s.closed ≡ content
    pub all_closed : s.ofp ≡ none
    pub counted : s.split_count ≡ length s.closed
    pub small : All (Small xargs byte_size) s.closed
    pub large : AllButLast (Large xargs byte_size) s.closed
    pub listed : s.printed ≡ (if xargs then numbers (length s.closed) else [])

  abbrev pub Ends : Run → List ℕ → Type 0
  Ends (running t) content = Cut t content
  Ends (exited t) content = Part xargs byte_size t content

  module _ (opens : Split → Bool) (fwrite : Split → List ℕ → ℕ)
      (fwrite_count : (s : Split) (buf : List ℕ) → fwrite s buf ≤ length buf)
      (fclose : Split → List ℕ → List ℕ)
      (keeps : (s : Split) (content : List ℕ) → fclose s content ≡ content)
      (bounded : byte_size + readsize < 2147483648) where
    close_output-Cut :
        (s : Split) (content : List ℕ)
        → Kept xargs byte_size s content
        → Cut (close_output xargs fclose s) content
    close_output-Cut s content k = elim (Option-cases s.ofp) [
      | inl e ↦ rw (close_output-none xargs fclose keeps s e) (record {
        whole = rw (e, append-nil s.closed) at k.whole;
        all_closed = e;
        counted = rw (e, append-nil s.closed) at k.counted;
        small = rw (e, append-nil s.closed) at k.small;
        large = All-AllButLast (Large xargs byte_size) s.closed k.large;
        listed = k.listed;
      })
      | inr (last, e) ↦
          let known : Opened xargs byte_size (length s.closed) s (some last) = rw e at k.opened in
          let longer : length (s.closed ++ last ∷ []) ≡ suc (length s.closed) =
            omega (arith, length-append s.closed (last ∷ [])) in
          rw (close_output_open xargs fclose keeps s last e) (record {
            whole = rw e at k.whole;
            all_closed = refl;
            counted = rw e at k.counted;
            small = rw e at k.small;
            large = AllButLast-append (Large xargs byte_size) s.closed last k.large;
            listed = rw longer (
                named-listed xargs byte_size (length s.closed) s.current_output_file s.printed
                  known.1 k.listed);
          })
    ]

    finish_last :
        (r : Run) (content : List ℕ)
        → Outcome xargs byte_size r content
        → Ends (if_running r (λ t. running (close_output xargs fclose t))) content
    finish_last (running t) content k = close_output-Cut t content k
    finish_last (exited t) content p = p

    finish-Ends :
        (feof : Bool) (buf read : List ℕ) (s : Split)
        → Kept xargs byte_size s read
        → length buf ≤ readsize
        → Ends (finish xargs fclose opens fwrite byte_size feof buf s) (read ++ buf)
    unfolding finish
    finish-Ends false buf read s k few = Kept-Part xargs byte_size s read buf k
    finish-Ends true [] read s k few = rw (append-nil read) (close_output-Cut s read k)
    finish-Ends true (c ∷ cs) read s k few =
        let some_bytes : (suc (length cs) == 0) ≡ false = ground arith in
        rw some_bytes (
          finish_last (output xargs fclose opens fwrite byte_size (c ∷ cs) s) (read ++ c ∷ cs) (
            output-Outcome xargs byte_size opens fwrite fwrite_count fclose keeps bounded s (c ∷ cs)
              read k few))

    -- The loop behind one block.
    next_block :
        (fuel : ℕ) (feof : Bool) (rest read : List ℕ) (r : Run)
        → Outcome xargs byte_size r read
        → ((t : Split)
            → Kept xargs byte_size t read
            → Returns
                (λ q. Ends q (read ++ rest))
                (split_loop xargs fclose opens fwrite byte_size fuel feof rest t))
        → Returns
            (λ q. Ends q (read ++ rest))
            (elim r as (λ x. Option Run) [
              | running t ↦ split_loop xargs fclose opens fwrite byte_size fuel feof rest t
              | exited t ↦ some (exited t)
            ])
    next_block fuel feof rest read (running t) k again = again t k
    next_block fuel feof rest read (exited t) p again = (
      _,
      refl,
      record {
        more = p.more ++ rest;
        front = sym (append_assoc (join (pieces t)) p.more rest) ∙ ap (λ l. l ++ rest) p.front;
        pieces_small = p.pieces_small;
      },
    )

    split_loop-Ends :
        (fuel : ℕ) (feof : Bool) (input read : List ℕ) (s : Split)
        → Kept xargs byte_size s read
        → length input < fuel
        → Returns
            (λ r. Ends r (read ++ input))
            (split_loop xargs fclose opens fwrite byte_size fuel feof input s)
    unfolding split_loop
    split_loop-Ends zero feof input read s k lt = absurd (omega arith)
    split_loop-Ends (suc fuel) feof input read s k lt =
        let buf = take readsize input in
        let rest = drop readsize input in
        let together : buf ++ rest ≡ input = take-append-drop readsize input in
        let whole : read ++ input ≡ (read ++ buf) ++ rest =
          ap (λ l. read ++ l) (sym together) ∙ sym (append_assoc read buf rest) in
        elim (Bool-cases (length buf == readsize)) [
          | inl full ↦
              let size : length buf ≡ readsize = (==_iff (length buf) readsize).0 full in
              let shorter : length rest < fuel =
                omega (arith, lt, length-append buf rest, ap length together) in
              let out =
                output-Outcome xargs byte_size opens fwrite fwrite_count fclose keeps bounded s buf
                  read k (omega (arith, size)) in
              rw (full, whole)
                (next_block fuel feof rest (read ++ buf)
                  (output xargs fclose opens fwrite byte_size buf s) out
                  (λ t kept. split_loop-Ends fuel feof rest (read ++ buf) t kept shorter))
          | inr short ↦
              let one_block : length buf ≤ readsize = omega (arith, length-take readsize input) in
              let differ : length buf ≢ readsize =
                λ e. (let equal = (==_iff (length buf) readsize).1 e in cc) in
              let all : take readsize input ≡ input =
                take_all readsize input (omega (arith, differ, length-take readsize input)) in
              rw short
                (_, refl, rw (ap (λ l. read ++ l) all) at (finish-Ends feof buf read s k one_block))
        ]

    start-Kept : Kept xargs byte_size start []
    unfolding join numbers
    start-Kept = record {
      whole = refl;
      counted = refl;
      small = tt;
      large = tt;
      listed = elim (Bool-cases xargs) [ inl on ↦ rw on refl | inr off ↦ rw off refl ];
      opened = tt;
    }

    -- The text of a file that cannot be opened is empty.
    abbrev pub content_of : Option (List ℕ) → List ℕ
    content_of none = []
    content_of (some input) = input

    -- Where the size and a block fit an `int`, and closing a file, by `fclose` or at an exit, loses
    -- nothing that `fwrite` took, `split` ends: whether or not the input and the outputs open, each
    -- block is taken whole, and the input is read to its end. Where it returns, the closed files
    -- are the input in pieces, as many as were opened: each is at most `byte_size` and one block
    -- long, each but the last is longer than `byte_size`, and with `-x` their names were printed in
    -- order. Where it exits, the files put together are a front part of the input, or empty if that
    -- did not open.
    pub split-Ends :
        (feof : Bool) (input : Option (List ℕ))
        → Returns
            (λ r. Ends r (content_of input))
            (split xargs fclose opens fwrite byte_size feof input)
    unfolding split
    split-Ends feof none =
        (_, refl, record { more = []; front = unfold join in refl; pieces_small = tt })
    split-Ends feof (some input) =
        split_loop-Ends (length input + 1) feof input [] start start-Kept (omega arith)
