-- ===== src/Grok/Buffer/Blocks.antt =====
-- What a buffer of tags/grok/20090928/stringhelper.c holds, its reads and writes, and its growth.
use semicomplete_googlecode.Common.{
  ℕ, ◌+◌, ◌-◌, ◌≤◌, ◌<◌, ◌≡◌, refl, ◌∙◌, inl, inr, some, List, [], ◌∷◌, ◌++◌, append-nil, arith,
  leb, Bool-cases, length, length-append, take, drop, replicate, length-drop, length-replicate,
  take-append_le, drop-append_at, take-take, take_all, length-take_le,
}
use semicomplete_googlecode.Grok.Buffer.{Str, read, write, grow}

-- The buffer holds `xs`, and its size is known.
pub record Holds (s : Str) (xs : List ℕ) : Type 0 where
  pub rest : List ℕ
  pub content : s.mem ≡ xs ++ rest
  pub counted : s.len ≡ length xs
  pub sized : s.size ≡ length s.mem

-- It also has its NUL.
pub record IsClosed (s : Str) (xs : List ℕ) : Type 0 where
  pub rest : List ℕ
  pub content : s.mem ≡ xs ++ 0 ∷ rest
  pub counted : s.len ≡ length xs
  pub sized : s.size ≡ length s.mem

unfoldable pub splice : List ℕ → ℕ → ℕ → List ℕ → List ℕ
splice xs start end new = take start xs ++ (new ++ drop end xs)

pub read_lem :
    (mem : List ℕ) (off n : ℕ)
    → off + n ≤ length mem
    → read mem off n ≡ some (take n (drop off mem))
unfolding read
read_lem mem off n h = ground arith

pub write_lem :
    (mem : List ℕ) (off : ℕ) (bs : List ℕ)
    → off + length bs ≤ length mem
    → write mem off bs ≡ some (take off mem ++ (bs ++ drop (off + length bs) mem))
unfolding write
write_lem mem off bs h = ground arith

pub length-write :
    (mem : List ℕ) (off : ℕ) (bs : List ℕ)
    → off + length bs ≤ length mem
    → length (take off mem ++ (bs ++ drop (off + length bs) mem)) ≡ length mem
length-write mem off bs h = omega (
  arith,
  length-append (take off mem) (bs ++ drop (off + length bs) mem),
  length-append bs (drop (off + length bs) mem),
  length-take_le off mem (omega arith),
  length-drop (off + length bs) mem,
)

-- A write behind `start` leaves what is before `start`.
abbrev pub moved : List ℕ → List ℕ → ℕ → ℕ → List ℕ
moved mem tail start rlen =
    take (start + rlen) mem ++ (tail ++ drop (start + rlen + length tail) mem)

pub take-moved :
    (mem tail : List ℕ) (start rlen : ℕ)
    → start + rlen + length tail ≤ length mem
    → take start (moved mem tail start rlen) ≡ take start mem
take-moved mem tail start rlen room =
    take-append_le start (take (start + rlen) mem) (tail ++ drop (start + rlen + length tail) mem)
      (omega (arith, length-take_le (start + rlen) mem (omega arith)))
    ∙ take-take start (start + rlen) mem (omega arith)

pub drop-moved :
    (mem tail : List ℕ) (start rlen : ℕ)
    → start + rlen + length tail ≤ length mem
    → drop (start + rlen) (moved mem tail start rlen)
      ≡ tail ++ drop (start + rlen + length tail) mem
drop-moved mem tail start rlen room =
    drop-append_at (start + rlen) (take (start + rlen) mem)
      (tail ++ drop (start + rlen + length tail) mem)
      (omega (arith, length-take_le (start + rlen) mem (omega arith)))

-- A block `p` with its size starts with the old bytes and has room for the new text and its NUL.
pub record Grown (mem : List ℕ) (total : ℕ) (p : List ℕ × ℕ) : Type 0 where
  pub more : List ℕ
  pub content : p.0 ≡ mem ++ more
  pub sized : p.1 ≡ length p.0
  pub room : total < length p.0

pub grow-Grown :
    (junk : ℕ) (mem : List ℕ) (size total : ℕ)
    → size ≡ length mem
    → Grown mem total (grow junk mem size total)
unfolding grow
grow-Grown junk mem size total h = elim (Bool-cases (leb size total)) [
  | inl big ↦
      let fresh = replicate (total + 4096 - length mem) junk in
      let kept = take_all (total + 4096) mem (ground arith) in
      let long : length (mem ++ fresh) ≡ total + 4096 =
        ground
          (arith, length-append mem fresh, length-replicate (total + 4096 - length mem) junk) in
      rw (big, kept)
        (record { more = fresh; content = refl; sized = omega arith; room = omega arith })
  | inr fits ↦
      rw fits (record { more = []; content = rw append-nil; sized = h; room = ground arith })
]
