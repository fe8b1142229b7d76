-- ===== src/Grok/Buffer/Splice.antt =====
-- What `substr_replace` promises: the buffer holds the old text with one range replaced, it is
-- closed by a NUL, and no access leaves its block.
use semicomplete_googlecode.Grok.Buffer.Blocks.{
  moved, take-moved, drop-moved, length-write, Holds, IsClosed, grow-Grown, read_lem, splice,
  write_lem,
}
use semicomplete_googlecode.Common.{
  ℕ, ◌+◌, ◌-◌, ◌≤◌, ◌<◌, ◌≡◌, refl, ap, ◌∙◌, Option, some, List, [], ◌∷◌, ◌++◌, append_assoc, arith,
  length, length-append, take, drop, length-drop, take-append_le, drop-append_le, take-append_at,
  drop-append_at, drop-drop, length-take_le, get_elem?, get_elem?-append_at,
}
use semicomplete_googlecode.Grok.Buffer.{
  Str, read, write, grow, replace_range, substr_replace, len_or_strlen, end_or,
}

module _ (mem xs rest : List ℕ) (size start end rlen : ℕ) (replace : List ℕ)
    (content : mem ≡ xs ++ rest) (order : start ≤ end) (inside : end ≤ length xs)
    (given : rlen ≤ length replace) (room : start + (length xs - end) + rlen < length mem) where
  abbrev new : List ℕ
  new = take rlen replace

  abbrev tail : List ℕ
  tail = drop end xs

  abbrev total : ℕ
  total = start + (length xs - end) + rlen

  abbrev behind : List ℕ
  behind = drop (start + rlen + length tail) mem

  length-tail : length tail ≡ length xs - end
  length-tail = length-drop end xs

  length-new : length new ≡ rlen
  length-new = length-take_le rlen replace given

  length-splice : length (splice xs start end new) ≡ total
  unfolding splice
  length-splice = omega (
    arith,
    length-append (take start xs) (new ++ tail),
    length-append new tail,
    length-take_le start xs (omega arith),
    length-tail,
    length-new,
  )

  read-tail : read mem end (length xs - end) ≡ some tail
  read-tail =
      rw
        (
          content,
          read_lem (xs ++ rest) end (length xs - end) (omega (arith, length-append xs rest)),
          drop-append_le end xs rest inside,
        )
        (ap some (take-append_at (length xs - end) tail rest (omega (arith, length-tail))))

  write-tail : write mem (start + rlen) tail ≡ some (moved mem tail start rlen)
  write-tail = write_lem mem (start + rlen) tail (omega (arith, length-tail))

  read-new : read replace 0 rlen ≡ some new
  read-new = read_lem replace 0 rlen (omega arith)

  length-moved : length (moved mem tail start rlen) ≡ length mem
  length-moved = length-write mem (start + rlen) tail (omega (arith, length-tail))

  write-new : write (moved mem tail start rlen) start new ≡ some (splice xs start end new ++ behind)
  unfolding splice
  write-new =
      write_lem (moved mem tail start rlen) start new (omega (arith, length-moved, length-new))
      ∙ rw
          (
            length-new,
            take-moved mem tail start rlen (omega (arith, length-tail)),
            drop-moved mem tail start rlen (omega (arith, length-tail)),
            content,
            take-append_le start xs rest (omega arith),
          )
          (simp append_assoc)

  length-copied : length (splice xs start end new ++ behind) ≡ length mem
  length-copied = omega (
    arith,
    length-append (splice xs start end new) behind,
    length-splice,
    length-drop (start + rlen + length tail) mem,
    length-tail,
  )

  write_nul :
      write (splice xs start end new ++ behind) total (0 ∷ [])
      ≡ some (splice xs start end new ++ 0 ∷ drop 1 behind)
  write_nul =
      write_lem (splice xs start end new ++ behind) total (0 ∷ []) (omega (arith, length-copied))
      ∙ let whole = splice xs start end new ++ behind in
        let end_at : total ≡ length (splice xs start end new) = omega (arith, length-splice) in
        rw (
          ← drop-drop 1 total (total + 1) whole (omega arith),
          drop-append_at total (splice xs start end new) behind end_at,
          take-append_at total (splice xs start end new) behind end_at,
        )

  -- The buffer after the three writes.
  abbrev result : Str
  result = record { mem = splice xs start end new ++ 0 ∷ drop 1 behind; len = total; size = size }

  pub replace_range_lem : replace_range mem size (length xs) start end replace rlen ≡ some result
  unfolding replace_range
  replace_range_lem = rw (read-tail, write-tail, read-new, write-new, write_nul) (ground arith)

  pub result-IsClosed : size ≡ length mem → IsClosed result (splice xs start end new)
  result-IsClosed sized = record {
    rest = drop 1 behind;
    content = refl;
    counted = omega (arith, length-splice);
    sized = omega (
      arith,
      length-append (splice xs start end new) (0 ∷ drop 1 behind),
      length-append (splice xs start end new) behind,
      length-copied,
      length-drop 1 behind,
      length-drop (start + rlen + length tail) mem,
      length-tail,
    );
  }

-- `substr_replace` on a buffer that holds `xs`, with a range inside of `xs` and a replacement as
-- long as stated, meets no fault and yields `xs` with the range replaced, closed by a NUL; a
-- negative `end` is `start`, a negative length of the replacement is its `strlen`.
pub substr_replace_correct :
    (junk : ℕ) {s : Str} {xs : List ℕ} (start : ℕ) (end : Option ℕ) (new : List ℕ)
    (new_len : Option ℕ) (n : ℕ)
    → Holds s xs
    → start ≤ end_or end start
    → end_or end start ≤ length xs
    → len_or_strlen new_len new ≡ some n
    → n ≤ length new
    → (t : Str) × (substr_replace junk s.mem (some s.len) s.size start end new new_len ≡ some t)
      × IsClosed t (splice xs start (end_or end start) (take n new))
unfolding substr_replace
substr_replace_correct junk {s} {xs} start end new new_len n h order inside known given =
    let e = end_or end start in
    let total = s.len + n + start - e in
    let g = grow-Grown junk s.mem s.size total h.sized in
    let block = grow junk s.mem s.size total in
    let room : start + (length xs - e) + n < length block.0 =
      omega (arith, g.room, h.counted, order, inside) in
    let content : block.0 ≡ xs ++ (h.rest ++ g.more) =
      g.content ∙ ap (λ m. m ++ g.more) h.content ∙ append_assoc xs h.rest g.more in
    let at =
      replace_range_lem block.0 xs (h.rest ++ g.more) block.1 start e n new content order inside
        given room in
    (
      result block.0 xs (h.rest ++ g.more) block.1 start e n new content order inside given room,
      rw known (ap (λ k. replace_range block.0 block.1 k start e new n) h.counted ∙ at),
      result-IsClosed block.0 xs (h.rest ++ g.more) block.1 start e n new content order inside given
          room g.sized,
    )

pub splice-append :
    (pre ys new : List ℕ) (i j k : ℕ)
    → i ≡ length pre
    → j ≡ i + k
    → splice (pre ++ ys) i j new ≡ pre ++ (new ++ drop k ys)
unfolding splice
splice-append pre ys new i j k hi hj = rw (
  take-append_at i pre ys hi,
  ← drop-drop k i j (pre ++ ys) (omega arith),
  drop-append_at i pre ys hi,
)

-- The buffer `o` was computed with no fault, and holds `xs`.
abbrev pub Yields : Option Str → List ℕ → Type 0
Yields o xs = (t : Str) × (o ≡ some t) × IsClosed t xs

pub IsClosed-Holds : {s : Str} {xs : List ℕ} → IsClosed s xs → Holds s xs
IsClosed-Holds h = record {
  rest = 0 ∷ h.rest;
  content = h.content;
  counted = h.counted;
  sized = h.sized;
}

-- The byte at the position behind a prefix; behind the whole text it is the NUL.
pub get_elem?-IsClosed :
    {s : Str} (pre : List ℕ) (x : ℕ) (xs : List ℕ) (i : ℕ)
    → IsClosed s (pre ++ x ∷ xs)
    → i ≡ length pre
    → get_elem? s.mem i ≡ some x
get_elem?-IsClosed pre x xs i h e =
    rw (h.content, append_assoc pre (x ∷ xs) (0 ∷ h.rest))
      (get_elem?-append_at i pre x (xs ++ 0 ∷ h.rest) e)
