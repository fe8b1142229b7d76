-- ===== src/Grok/Buffer.antt =====
-- The growing string buffers of tags/grok/20090928/stringhelper.c: `substr_replace`, `string_ndup`.
-- A buffer is a block of bytes; reading or writing outside of a block is the fault `none`.
pub mod Blocks
pub mod Splice
pub mod Texts
use semicomplete_googlecode.Common.{
  ℕ, ◌+◌, ◌-◌, Option, none, some, List, [], ◌∷◌, ◌++◌, ltb, leb, ◌==◌, if◌then◌else◌, ◌>>=◌,
  length, take, drop, replicate,
}

-- `*strp`, `*strp_len` and `*strp_alloc_size`.
pub record Str : Type 0 where
  pub mem : List ℕ
  pub len : ℕ
  pub size : ℕ

-- The bytes from `off`, `n` of them.
unfoldable pub read : List ℕ → ℕ → ℕ → Option (List ℕ)
read mem off n = if leb (off + n) (length mem) then some (take n (drop off mem)) else none

unfoldable pub write : List ℕ → ℕ → List ℕ → Option (List ℕ)
write mem off bs =
    if leb (off + length bs) (length mem)
    then some (take off mem ++ (bs ++ drop (off + length bs) mem))
    else none

-- The bytes in front of the first NUL; without a NUL the scan leaves the block.
unfoldable pub strlen : List ℕ → Option ℕ
strlen [] = none
strlen (c ∷ cs) = let rest = strlen cs in if c == 0 then some 0 else (do n ← rest; some (n + 1))

-- A length that is given, or computed where the argument is negative (`none`).
unfoldable pub len_or_strlen : Option ℕ → List ℕ → Option ℕ
len_or_strlen (some n) mem = some n
len_or_strlen none mem = strlen mem

abbrev pub end_or : Option ℕ → ℕ → ℕ
end_or (some e) start = e
end_or none start = start

-- The three writes of `substr_replace`: the tail moves, the new text is copied, the NUL is set.
-- A negative count for `memmove` is a fault.
unfoldable pub replace_range : List ℕ → ℕ → ℕ → ℕ → ℕ → List ℕ → ℕ → Option Str
replace_range mem size len start end replace rlen = if ltb len end then none else do
  tail ← read mem end (len - end)
  moved ← write mem (start + rlen) tail
  new ← read replace 0 rlen
  copied ← write moved start new
  closed ← write copied (start + (len - end) + rlen) (0 ∷ [])
  some (record { mem = closed; len = start + (len - end) + rlen; size = size })

module _ (junk : ℕ) where
  -- The bytes that `realloc` adds are indeterminate; `junk` stands for them.
  unfoldable pub realloc : List ℕ → ℕ → List ℕ
  realloc mem n = take n mem ++ replicate (n - length mem) junk

  unfoldable pub grow : List ℕ → ℕ → ℕ → List ℕ × ℕ
  unfolding realloc
  grow mem size total =
      if leb size total then (realloc mem (total + 4096), total + 4096) else (mem, size)

  unfoldable pub substr_replace :
      List ℕ → Option ℕ → ℕ → ℕ → Option ℕ → List ℕ → Option ℕ → Option Str
  unfolding grow replace_range len_or_strlen
  substr_replace strp strp_len size start end_arg replace replace_len = do
    rlen ← len_or_strlen replace_len replace
    len ← len_or_strlen strp_len strp
    let end = end_or end_arg start
    let grown = grow strp size (len + rlen + start - end)
    replace_range grown.0 grown.1 len start end replace rlen

-- `while (src[len] != '\0' && len < size) len++` reads `src[len]` first.
unfoldable pub ndup_scan : List ℕ → ℕ → ℕ → Option ℕ
ndup_scan [] len size = none
ndup_scan (c ∷ cs) len size =
    let more = ndup_scan cs (len + 1) size in
    if c == 0 then some len else if ltb len size then more else some len

unfoldable pub string_ndup : List ℕ → ℕ → Option (List ℕ)
unfolding ndup_scan read
string_ndup src size = do len ← ndup_scan src 0 size; bs ← read src 0 len; some (bs ++ 0 ∷ [])
