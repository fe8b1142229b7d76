-- ===== src/Grok/Escape/Pass.antt =====
-- One pass of `string_escape` and the loop of `string_unescape`, as functions of the text.
use semicomplete_googlecode.Common.{
  ℕ, zero, suc, ◌+◌, ◌<◌, ◌≡◌, refl, inl, inr, true, false, List, [], ◌∷◌, ◌++◌, append_assoc,
  arith, ltb, if◌then◌else◌, Bool-cases, length, length-append, ◌∙◌, Option, some, take,
  drop-append_at, take_all, ◌-◌, none, ◌==◌, ◌>>=◌, append-nil, Option-cases, get_elem?,
  get_elem?-append_at,
}
use semicomplete_googlecode.Grok.Buffer.{Str, substr_replace, len_or_strlen}
use semicomplete_googlecode.Grok.Buffer.Splice.{
  Yields, get_elem?-IsClosed, substr_replace_correct, splice-append, IsClosed-Holds,
}
use semicomplete_googlecode.Grok.Buffer.Blocks.{IsClosed, splice}
use semicomplete_googlecode.Grok.Escape.{
  insert, same_char, escape_char, unescape_code, unescape_from,
}

-- A backslash in front of each `c`.
unfoldable pub insert_pass : ℕ → List ℕ → List ℕ
insert_pass c [] = []
insert_pass c (x ∷ xs) =
    let rest = insert_pass c xs in if same_char x c then b'\\' ∷ x ∷ rest else x ∷ rest

-- The text in front of a position, and the position itself.
pub record At (s : Str) (pre xs : List ℕ) (j : ℕ) : Type 0 where
  pub closed : IsClosed s (pre ++ xs)
  pub place : j ≡ length pre

pub At-len : {s : Str} {pre xs : List ℕ} {j : ℕ} → At s pre xs j → s.len ≡ j + length xs
At-len {pre = pre} {xs} h = omega (arith, h.closed.counted, h.place, length-append pre xs)

pub get_elem?_end : {s : Str} {pre : List ℕ} {i : ℕ} → At s pre [] i → get_elem? s.mem i ≡ some 0
get_elem?_end {pre = pre} {i} h =
    rw (h.closed.content, append-nil) (get_elem?-append_at i pre 0 h.closed.rest h.place)

-- Moving `ys` over to the text in front.
pub At-move :
    {s : Str} {j : ℕ} (k : ℕ) (pre ys xs : List ℕ)
    → At s pre (ys ++ xs) j
    → k ≡ j + length ys
    → At s (pre ++ ys) xs k
At-move {s} k pre ys xs h e = record {
  closed = rw (append_assoc pre ys xs) h.closed;
  place = omega (arith, h.place, length-append pre ys);
}

pub Yields-move :
    {o : Option Str} (pre ys zs : List ℕ)
    → Yields o ((pre ++ ys) ++ zs)
    → Yields o (pre ++ (ys ++ zs))
Yields-move pre ys zs h = rw (← append_assoc pre ys zs) h

-- One edit at the position: `old` is replaced by `new`.
pub replace_here :
    (junk : ℕ) (pre old xs new : List ℕ) (i j : ℕ) {s : Str}
    → At s pre (old ++ xs) i
    → j ≡ i + length old
    → Yields
        (substr_replace junk s.mem (some s.len) s.size i (some j) new (some (length new)))
        (pre ++ (new ++ xs))
unfolding len_or_strlen
replace_here junk pre old xs new i j {s} h e =
    let (t, made, closed) =
      substr_replace_correct junk i (some j) new (some (length new)) (length new)
        (IsClosed-Holds h.closed) (omega arith)
        (omega (arith, h.place, length-append pre (old ++ xs), length-append old xs)) refl
        (omega arith) in
    let text : splice (pre ++ (old ++ xs)) i j (take (length new) new) ≡ pre ++ (new ++ xs) =
      splice-append pre (old ++ xs) (take (length new) new) i j (length old) h.place e
      ∙ rw (take_all (length new) new (omega arith), drop-append_at (length old) old xs refl) in
    (t, made, rw (← text) closed)

pub escape_char_insert :
    (junk fuel c j : ℕ) (pre xs : List ℕ) {s : Str}
    → At s pre xs j
    → length xs < fuel
    → Yields (escape_char junk fuel c (insert, b'\\' ∷ []) j s) (pre ++ insert_pass c xs)
unfolding escape_char insert_pass
escape_char_insert junk zero c j pre xs h f = absurd (omega arith)
escape_char_insert junk (suc fuel) c j pre [] {s} h f =
    let at_end : ltb j s.len ≡ false = ground (arith, At-len h) in rw at_end (s, refl, h.closed)
escape_char_insert junk (suc fuel) c j pre (x ∷ xs) {s} h f =
    let inside : ltb j s.len ≡ true = ground (arith, At-len h) in
    rw (inside, get_elem?-IsClosed pre x xs j h.closed h.place)
      (elim (Bool-cases (same_char x c)) [
        | inl hit ↦
            let (t, made, closed) =
              replace_here junk pre [] (x ∷ xs) (b'\\' ∷ []) j j h (omega arith) in
            let here : At t pre (b'\\' ∷ x ∷ xs) j = record { closed = closed; place = h.place } in
            rw (hit, made)
              (Yields-move pre (b'\\' ∷ x ∷ []) (insert_pass c xs) (
                escape_char_insert junk fuel c (j + 1 + 1) (pre ++ b'\\' ∷ x ∷ []) xs
                  (At-move (j + 1 + 1) pre (b'\\' ∷ x ∷ []) xs here (omega arith)) (omega arith)))
        | inr miss ↦ rw miss (
            Yields-move pre (x ∷ []) (insert_pass c xs) (
              escape_char_insert junk fuel c (j + 1) (pre ++ x ∷ []) xs
                (At-move (j + 1) pre (x ∷ []) xs h (omega arith)) (omega arith)))
      ])

-- The bytes that come next are dropped (`swallow`), then kept unread (`keep`).
unfoldable pub replace_pass : ℕ → List ℕ → ℕ → ℕ → List ℕ → Option (List ℕ)
replace_pass c r zero keep [] = some []
replace_pass c r (suc n) keep [] = none
replace_pass c r (suc n) keep (x ∷ xs) = replace_pass c r n keep xs
replace_pass c r zero (suc k) (x ∷ xs) = do rest ← replace_pass c r zero k xs; some (x ∷ rest)
replace_pass c r zero zero (x ∷ xs) =
    let hit = (do rest ← replace_pass c r (length r - 2) 1 xs; some (r ++ rest)) in
    let miss = (do rest ← replace_pass c r 0 0 xs; some (x ∷ rest)) in
    if same_char x c then hit else miss

-- What `string_unescape` makes of a text.
unfoldable pub unescaped : List ℕ → List ℕ
unescaped [] = []
unescaped (x ∷ []) = x ∷ []
unescaped (x ∷ y ∷ zs) =
    let keep = x ∷ unescaped (y ∷ zs) in
    let known : List ℕ = elim (unescape_code y) [ some r ↦ r ∷ unescaped zs | none ↦ keep ] in
    if x == b'\\' then known else keep

pub unescape_from-unescaped :
    (junk fuel i : ℕ) (pre xs : List ℕ) {s : Str}
    → At s pre xs i
    → length xs < fuel
    → Yields (unescape_from junk fuel i s) (pre ++ unescaped xs)
unfolding unescape_from unescaped
unescape_from-unescaped junk zero i pre xs h f = absurd (omega arith)
unescape_from-unescaped junk (suc fuel) i pre [] {s} h f =
    let at_end : ltb i s.len ≡ false = ground (arith, At-len h) in rw at_end (s, refl, h.closed)
unescape_from-unescaped junk (suc fuel) i pre (x ∷ []) {s} h f =
    let inside : ltb i s.len ≡ true = ground (arith, At-len h) in
    let moved = At-move (i + 1) pre (x ∷ []) [] h (omega arith) in
    let next = unescape_from-unescaped junk fuel (i + 1) (pre ++ x ∷ []) [] moved (omega arith) in
    let rest = Yields-move pre (x ∷ []) [] next in
    let nul : get_elem? s.mem (i + 1) ≡ some 0 = get_elem?_end moved in
    rw (inside, get_elem?-IsClosed pre x [] i h.closed h.place)
      (elim (Bool-cases (x == b'\\')) [ inl hit ↦ rw (hit, nul) rest | inr miss ↦ rw miss rest ])
unescape_from-unescaped junk (suc fuel) i pre (x ∷ y ∷ zs) {s} h f =
    let inside : ltb i s.len ≡ true = ground (arith, At-len h) in
    let moved = At-move (i + 1) pre (x ∷ []) (y ∷ zs) h (omega arith) in
    let next =
      unescape_from-unescaped junk fuel (i + 1) (pre ++ x ∷ []) (y ∷ zs) moved (omega arith) in
    let rest = Yields-move pre (x ∷ []) (unescaped (y ∷ zs)) next in
    let second = get_elem?-IsClosed (pre ++ x ∷ []) y zs (i + 1) moved.closed moved.place in
    rw (inside, get_elem?-IsClosed pre x (y ∷ zs) i h.closed h.place)
      (elim (Bool-cases (x == b'\\')) [
        | inr miss ↦ rw miss rest
        | inl hit ↦
            rw (hit, second)
              (elim (Option-cases (unescape_code y)) [
                | inl unknown ↦ rw unknown rest
                | inr (r, code) ↦
                    let (t, made, closed) =
                      replace_here junk pre (x ∷ y ∷ []) zs (r ∷ []) i (i + 2) h (omega arith) in
                    let here : At t pre (r ∷ zs) i = record { closed = closed; place = h.place } in
                    rw (code, made)
                      (Yields-move pre (r ∷ []) (unescaped zs) (
                        unescape_from-unescaped junk fuel (i + 1) (pre ++ r ∷ []) zs
                          (At-move (i + 1) pre (r ∷ []) zs here (omega arith)) (omega arith)))
              ])
      ])
