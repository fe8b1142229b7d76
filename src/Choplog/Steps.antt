-- ===== src/Choplog/Steps.antt =====
-- What `close_output`, `newfile` and `output` of choplog/choplog.c do to the pieces.
use semicomplete_googlecode.Common.{
  ℕ, suc, ◌≤◌, ◌<◌, ◌≡◌, refl, ap, ◌∙◌, Bool, true, false, Option, none, some, List, [], ◌∷◌, ◌++◌,
  append-nil, append_assoc, arith, length, length-append, take, drop, All, All-append, Bool-cases,
  inl, inr, ltb, Option-cases, All-append_left, length-take_le, take-append-drop, take_all, ◌+◌,
  ◌&&◌, All-append_right,
}
use semicomplete_googlecode.Choplog.{
  Split, Run, exited, readsize, put_bytes, write_out, output, if_running, close_output, open_next,
  must_open,
}
use semicomplete_googlecode.Choplog.Pieces.{
  join, open_piece, Small, Large, Opened, Kept, Outcome, join_more, join-append, Kept-Part,
  named-listed, close_output_open, close_output-none,
}

module _ (xargs : Bool) (byte_size : ℕ) (opens : Split → Bool) (fwrite : Split → List ℕ → ℕ)
    (fwrite_count : (s : Split) (buf : List ℕ) → fwrite s buf ≤ length buf)
    (fclose : Split → List ℕ → List ℕ)
    (keeps : (s : Split) (content : List ℕ) → fclose s content ≡ content)
    (bounded : byte_size + readsize < 2147483648) where
  written-Small :
      (closed : List (List ℕ)) (o : Option (List ℕ)) (content added : List ℕ)
      → All (Small xargs byte_size) (closed ++ open_piece o)
      → length content ≤ byte_size
      → length added ≤ readsize
      → All (Small xargs byte_size) (closed ++ (content ++ added) ∷ [])
  written-Small closed o content added h le few =
      All-append (Small xargs byte_size) closed ((content ++ added) ∷ [])
        (All-append_left (Small xargs byte_size) closed (open_piece o) h)
        (omega (arith, length-append content added), tt)

  pub write_out_open :
      (s : Split) (content buf : List ℕ)
      → s.ofp ≡ some content
      → write_out xargs fclose opens fwrite byte_size buf s
        ≡ put_bytes xargs fclose opens fwrite byte_size (fwrite s buf) buf content s
  unfolding write_out
  write_out_open s content buf e =
      ap
        (λ o. elim o as (λ x. Run) [
          | none ↦ exited s
          | some old ↦ put_bytes xargs fclose opens fwrite byte_size (fwrite s buf) buf old s
        ])
        e

  write_out-Outcome :
      (s : Split) (content buf read : List ℕ)
      → Kept xargs byte_size s read
      → s.ofp ≡ some content
      → length content ≤ byte_size
      → length buf ≤ readsize
      → Outcome xargs byte_size (write_out xargs fclose opens fwrite byte_size buf s) (read ++ buf)
  write_out-Outcome s content buf read k e le few =
      let bytes = fwrite s buf in
      let at_most : bytes ≤ length buf = fwrite_count s buf in
      let before : join (s.closed ++ content ∷ []) ≡ read = rw e at k.whole in
      let opened : Opened xargs byte_size (length s.closed) s (some content) = rw e at k.opened in
      let count : s.split_count ≡ length (s.closed ++ content ∷ []) = rw e at k.counted in
      rw (write_out_open s content buf e) (elim (Bool-cases (ltb bytes (length buf))) [
        | inl short ↦ rw short (record {
          more = drop bytes buf;
          front =
              rw
                (
                  join_more s.closed content (take bytes buf),
                  before,
                  append_assoc read (take bytes buf) (drop bytes buf),
                  take-append-drop bytes buf,
                )
                refl;
          pieces_small =
              written-Small s.closed s.ofp content (take bytes buf) k.small le
                (omega (arith, length-take_le bytes buf at_most));
        })
        | inr all ↦
            let same : bytes ≡ length buf = ground arith in
            rw (all, take_all bytes buf (omega arith))
              (record {
                whole = join_more s.closed content buf ∙ ap (λ l. l ++ buf) before;
                counted =
                    count
                    ∙ omega (
                      arith,
                      length-append s.closed (content ∷ []),
                      length-append s.closed ((content ++ buf) ∷ []),
                    );
                small = written-Small s.closed s.ofp content buf k.small le few;
                large = k.large;
                listed = k.listed;
                opened = (omega (arith, length-append content buf, opened.0), opened.1);
              })
      ])

  -- The next file, with a block in it.
  open_next-Outcome :
      (t : Split) (buf read : List ℕ)
      → Kept xargs byte_size t read
      → t.ofp ≡ none
      → length buf ≤ readsize
      → Outcome xargs byte_size
          (if_running
            (open_next xargs fclose opens fwrite byte_size t)
            (write_out xargs fclose opens fwrite byte_size buf))
          (read ++ buf)
  open_next-Outcome t buf read k e few =
      let before : join t.closed ≡ read = rw (e, append-nil) at k.whole in
      let count : t.split_count ≡ length t.closed = rw (e, append-nil) at k.counted in
      elim (Bool-cases (opens t)) [
        | inr fails ↦ rw fails (Kept-Part xargs byte_size t read buf k)
        | inl opened ↦ rw opened (
            write_out-Outcome _ [] buf read
              (record {
                whole =
                    rw (join-append t.closed ([] ∷ []), before) (unfold join in append-nil read);
                counted = omega (arith, count, length-append t.closed ([] ∷ []));
                small =
                    All-append (Small xargs byte_size) t.closed ([] ∷ [])
                      (All-append_left (Small xargs byte_size) t.closed (open_piece t.ofp) k.small)
                      (omega arith, tt);
                large = k.large;
                listed = k.listed;
                opened = (refl, ap some count);
              })
              refl (omega arith) few)
      ]

  pub close_output-Kept :
      (s : Split) (content read : List ℕ)
      → Kept xargs byte_size s read
      → s.ofp ≡ some content
      → byte_size < length content
      → Kept xargs byte_size (close_output xargs fclose s) read
        × ((close_output xargs fclose s).ofp ≡ none)
  close_output-Kept s content read k e long =
      let known : Opened xargs byte_size (length s.closed) s (some content) = rw e at k.opened in
      let count : s.split_count ≡ length (s.closed ++ content ∷ []) = rw e at k.counted in
      let shut : List (List ℕ) = s.closed ++ content ∷ [] in
      let longer : length shut ≡ suc (length s.closed) =
        omega (arith, length-append s.closed (content ∷ [])) in
      rw (close_output_open xargs fclose keeps s content e) (
        record {
          whole = rw append-nil (rw e at k.whole);
          counted = rw append-nil count;
          small = rw append-nil (rw e at k.small);
          large = All-append (Large xargs byte_size) s.closed (content ∷ []) k.large (long, tt);
          listed = rw longer (
              named-listed xargs byte_size (length s.closed) s.current_output_file s.printed known.1
                k.listed);
          opened = tt;
        },
        refl,
      )

  module _ (buf : List ℕ) (s : Split) where
    pub output_opens :
        must_open xargs fclose opens fwrite byte_size s.ofp s.bytes_written ≡ true
        → output xargs fclose opens fwrite byte_size buf s
          ≡ if_running
              (open_next xargs fclose opens fwrite byte_size (close_output xargs fclose s))
              (write_out xargs fclose opens fwrite byte_size buf)
    unfolding output
    output_opens h = rw h refl

    pub output_stays :
        must_open xargs fclose opens fwrite byte_size s.ofp s.bytes_written ≡ false
        → output xargs fclose opens fwrite byte_size buf s
          ≡ write_out xargs fclose opens fwrite byte_size buf s
    unfolding output
    output_stays h = rw h refl

  open_small :
      (s : Split) (content read : List ℕ)
      → Kept xargs byte_size s read
      → s.ofp ≡ some content
      → length content ≤ byte_size + readsize
  open_small s content read k e =
      (All-append_right (Small xargs byte_size) s.closed (content ∷ []) (rw e at k.small)).0

  pub output-Outcome :
      (s : Split) (buf read : List ℕ)
      → Kept xargs byte_size s read
      → length buf ≤ readsize
      → Outcome xargs byte_size (output xargs fclose opens fwrite byte_size buf s) (read ++ buf)
  output-Outcome s buf read k few = elim (Option-cases s.ofp) [
    | inl e ↦
        rw (output_opens buf s (rw e refl), close_output-none xargs fclose keeps s e)
          (open_next-Outcome s buf read k e few)
    | inr (content, e) ↦
        let known : Opened xargs byte_size (length s.closed) s (some content) = rw e at k.opened in
        elim (Bool-cases (ltb byte_size s.bytes_written && ltb s.bytes_written 2147483648)) [
          | inl full ↦
              let (kept, none_open) =
                close_output-Kept s content read k e (ground (arith, known.0)) in
              rw (output_opens buf s (rw e full))
                (open_next-Outcome (close_output xargs fclose s) buf read kept none_open few)
          | inr room ↦ rw (output_stays buf s (rw e room)) (
              write_out-Outcome s content buf read k e
                (ground (arith, known.0, open_small s content read k e)) few)
        ]
  ]
