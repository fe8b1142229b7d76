-- ===== src/Grok/Watch/Following.antt =====
-- What reaches the pipe from a file that is followed, tags/grok/20090928/grok_input.c.
use semicomplete_googlecode.Common.{
  ℕ, ◌+◌, ◌≤◌, ◌<◌, ◌≡◌, sym, ap, ◌∙◌, Bool, true, List, ◌++◌, arith, ◌⊎◌, length, take, drop,
  length-append, take-append_le, zero, suc, ◌-◌, min, refl, inl, inr, [], ◌∷◌, append_assoc, ltb,
  ◌==◌, ==_iff, Bool-cases, length-take, length-drop, not, ◌||◌, some, append-nil, if◌then◌else◌,
  take_all,
}
use semicomplete_googlecode.Grok.Watch.{
  Watch, read_real, at_eof, read_after, Stat, Next, grown, after_read, repair_event, exits,
}

-- A file is open, and of it the first `offset` bytes are in the pipe, behind what was there before.
pub record Follows (before content : List ℕ) (gift : Watch) : Type 0 where
  pub is_open : gift.is_open ≡ true
  pub in_step : gift.position ≡ gift.offset
  pub inside : gift.offset ≤ length content
  pub copied : gift.piped ≡ before ++ take gift.offset content
  pub size : gift.offset ≤ gift.st.st_size

take-plus : (xs : List ℕ) (m n k : ℕ) → k ≡ m + n → take k xs ≡ take m xs ++ take n (drop m xs)
take-plus xs zero n k e = let same : k ≡ n = omega arith in rw same refl
take-plus xs (suc m) n zero e = absurd (omega arith)
take-plus [] (suc m) zero (suc k) e = refl
take-plus [] (suc m) (suc n) (suc k) e = refl
take-plus (x ∷ xs) (suc m) n (suc k) e = ap (λ l. x ∷ l) (take-plus xs m n k (omega arith))

take-length-take : (n : ℕ) (xs : List ℕ) → take (length (take n xs)) xs ≡ take n xs
take-length-take zero xs = refl
take-length-take (suc n) [] = refl
take-length-take (suc n) (x ∷ xs) = ap (λ l. x ∷ l) (take-length-take n xs)

grown_lem : (st : Stat) (offset : ℕ) → offset ≤ (grown st offset).st_size
grown_lem st offset = elim (Bool-cases (ltb st.st_size offset)) [
  | inl less ↦ rw less (omega arith)
  | inr not_less ↦ rw not_less (ground arith)
]

-- A file that grows is followed on.
pub Follows-append :
    (before content more : List ℕ) (gift : Watch)
    → Follows before content gift
    → Follows before (content ++ more) gift
Follows-append before content more gift f = record {
  is_open = f.is_open;
  in_step = f.in_step;
  inside = omega (arith, f.inside, length-append content more);
  copied =
      f.copied ∙ ap (λ l. before ++ l) (sym (take-append_le gift.offset content more f.inside));
  size = f.size;
}

module _ (follow : Bool) (restart_delay blksize : ℕ) (block : 1 ≤ blksize) where
  -- The file is at its end, or more of it is in the pipe.
  abbrev pub Progress : List ℕ → Watch → Watch × Next → Type 0
  Progress content gift r =
      ((r.0.offset ≡ length content) × (r.1 ≡ at_eof follow restart_delay))
      ⊎ ((gift.offset < r.0.offset) × (r.1 ≡ read_after 0))

  after_read-Follows :
      (before content bytes : List ℕ) (gift : Watch)
      → Follows before content gift
      → take (gift.offset + length bytes) content ≡ take gift.offset content ++ bytes
      → length bytes ≡ min blksize (length content - gift.offset)
      → Follows before content (after_read follow restart_delay bytes gift).0
        × Progress content gift (after_read follow restart_delay bytes gift)
  unfolding after_read
  after_read-Follows before content bytes gift f more counted =
      let inside = f.inside in
      let together : gift.piped ++ bytes ≡ before ++ take (gift.offset + length bytes) content =
        ap (λ l. l ++ bytes) f.copied
        ∙ append_assoc before (take gift.offset content) bytes
        ∙ ap (λ l. before ++ l) (sym more) in
      let size : gift.offset + length bytes ≤ (grown gift.st (gift.offset + length bytes)).st_size =
        grown_lem gift.st (gift.offset + length bytes) in
      let room : gift.offset + length bytes ≤ length content = omega (arith, inside, counted) in
      elim (Bool-cases (length bytes == 0)) [
        | inl none_left ↦
            let empty : length bytes ≡ 0 = (==_iff _ _).0 none_left in
            rw none_left (
              record {
                is_open = f.is_open;
                in_step = omega (arith, f.in_step);
                inside = room;
                copied = together;
                size = size;
              },
              inl (omega (arith, counted, inside, empty), refl),
            )
        | inr some_bytes ↦
            let positive : 1 ≤ length bytes = ground arith in
            rw some_bytes (
              record {
                is_open = f.is_open;
                in_step = omega (arith, f.in_step);
                inside = room;
                copied = together;
                size = size;
              },
              inr (omega (arith, positive), refl),
            )
      ]

  read_open :
      (content : List ℕ) (gift : Watch)
      → gift.is_open ≡ true
      → read_real follow restart_delay blksize content gift
        ≡ after_read follow restart_delay (take blksize (drop gift.position content)) gift
  unfolding read_real
  read_open content gift h =
      ap
        (λ there.
          if there
          then after_read follow restart_delay (take blksize (drop gift.position content)) gift
          else (gift, exits))
        h

  pub read_real-Follows :
      (before content : List ℕ) (gift : Watch)
      → Follows before content gift
      → Follows before content (read_real follow restart_delay blksize content gift).0
        × Progress content gift (read_real follow restart_delay blksize content gift)
  read_real-Follows before content gift f = rw (read_open content gift f.is_open) (
      after_read-Follows before content (take blksize (drop gift.position content)) gift f
        (rw f.in_step (
          take-plus content gift.offset (length (take blksize (drop gift.offset content))) _ refl
          ∙ ap (λ l. take gift.offset content ++ l)
              (take-length-take blksize (drop gift.offset content))))
        (length-take blksize (drop gift.position content)
          ∙ ap (λ l. min blksize l)
              (length-drop gift.position content ∙ ap (λ i. length content - i) f.in_step)))

  -- So many reads of the file as it is.
  unfoldable pub reads : ℕ → List ℕ → Watch × Next → Watch × Next
  reads zero content s = s
  reads (suc n) content s = reads n content (read_real follow restart_delay blksize content s.0)

  -- With one read more than there are bytes left, the whole of the file is in the pipe, once and in
  -- order, and the end of the file is found.
  pub reads_all :
      (n : ℕ) (before content : List ℕ) (gift : Watch) (next : Next)
      → Follows before content gift
      → length content < gift.offset + n
      → (t : Watch) × (k : ℕ) × (k ≤ n)
        × (reads k content (gift, next) ≡ (t, at_eof follow restart_delay))
        × (t.piped ≡ before ++ content)
        × Follows before content t
  unfolding reads
  reads_all zero before content gift next f room = absurd (let inside = f.inside in omega arith)
  reads_all (suc n) before content gift next f room =
      let (follows, progress) = read_real-Follows before content gift f in
      let r = read_real follow restart_delay blksize content gift in
      elim progress [
        | inl (all, ended) ↦ (
          r.0,
          1,
          omega arith,
          ap (λ x. (r.0, x)) ended,
          follows.copied ∙ ap (λ l. before ++ l) (take_all r.0.offset content (omega (arith, all))),
          follows,
        )
        | inr (further, again) ↦
            let (t, k, few, made, piped, kept) =
              reads_all n before content r.0 r.1 follows (omega (arith, further)) in
            (t, suc k, omega arith, made, piped, kept)
      ]

from_start :
    {before content : List ℕ} (gift : Watch) (fresh : List ℕ) (st : Stat)
    → Follows before content gift
    → Follows gift.piped fresh (record gift { offset = 0; position = 0; waittime = 0; st = st })
from_start gift fresh st f = record {
  is_open = f.is_open;
  in_step = refl;
  inside = omega arith;
  copied = sym (append-nil gift.piped);
  size = omega arith;
}

-- The file under the name is another one, or it shrank.
abbrev pub replaced : Stat → Watch → Bool
replaced st gift = not (st.st_ino == gift.st.st_ino) || ltb st.st_size gift.st.st_size

-- A look with `stat` either leaves the file as it is, followed on from the same place, or, where it has
-- shrunk or another file has its name and that is opened, begins to follow what is there now from its
-- first byte, behind what is in the pipe. Where another file has its name and cannot be opened,
-- the next read ends the program.
pub repair_event-Follows :
    (opens follow : Bool) (restart_delay blksize : ℕ) (before content fresh : List ℕ) (st : Stat)
    (gift : Watch)
    → Follows before content gift
    → (t : Watch) × (repair_event opens (some st) gift ≡ some (t, read_after t.waittime))
      × (if replaced st gift
          then (if opens || st.st_ino == gift.st.st_ino
              then Follows gift.piped fresh t
              else (read_real follow restart_delay blksize fresh t ≡ (t, exits)))
          else Follows before content t)
unfolding repair_event read_real
repair_event-Follows opens follow restart_delay blksize before content fresh st gift f =
    elim (Bool-cases (st.st_ino == gift.st.st_ino)) [
      | inr other ↦ elim (Bool-cases opens) [
        | inl opened ↦
            rw (other, opened)
              (
                _,
                refl,
                record {
                  is_open = refl;
                  in_step = refl;
                  inside = omega arith;
                  copied = sym (append-nil gift.piped);
                  size = omega arith;
                },
              )
        | inr failed ↦ rw (other, failed) (_, refl, refl)
      ]
      | inl same ↦ elim (Bool-cases (ltb st.st_size gift.st.st_size)) [
        | inl shrank ↦
            rw (same, shrank)
              (
                _,
                refl,
                elim (Bool-cases opens) [
                  | inl opened ↦ rw opened (from_start gift fresh st f)
                  | inr failed ↦ rw failed (from_start gift fresh st f)
                ],
              )
        | inr kept ↦
            let longer : gift.st.st_size ≤ st.st_size = ground arith in
            rw (same, kept)
              (
                _,
                refl,
                record {
                  is_open = f.is_open;
                  in_step = f.in_step;
                  inside = f.inside;
                  copied = f.copied;
                  size = omega (arith, f.size);
                },
              )
      ]
    ]
