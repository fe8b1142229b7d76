-- ===== src/Grok/Escape/Replace.antt =====
-- The pass of `string_escape` that replaces a character by two bytes or more.
use semicomplete_googlecode.Common.{
  ℕ, zero, suc, ◌+◌, ◌≤◌, ◌<◌, ◌≡◌, refl, true, false, Option, none, some, List, [], ◌∷◌, ◌++◌,
  arith, ltb, ◌>>=◌, length, drop, ◌-◌, ap, inl, inr, append_assoc, Bool-cases, length-append, take,
  take-append-drop, length-drop, length-take_le,
}
use native.Mathlib.Decide.{dec_le}
use semicomplete_googlecode.Grok.Buffer.{Str, substr_replace}
use semicomplete_googlecode.Grok.Buffer.Splice.{Yields, get_elem?-IsClosed}
use semicomplete_googlecode.Grok.Buffer.Blocks.{IsClosed}
use semicomplete_googlecode.Grok.Escape.{replace, escape_char, same_char, edit}
use semicomplete_googlecode.Grok.Escape.Pass.{
  replace_pass, At, Yields-move, At-len, At-move, replace_here,
}

-- A run and the text that it should leave: a fault, or a buffer.
abbrev pub Agrees : Option Str → List ℕ → Option (List ℕ) → Type 0
Agrees o pre none = o ≡ none
Agrees o pre (some ys) = Yields o (pre ++ ys)

-- An edit whose range ends behind the text is a fault.
substr_replace-none :
    (junk : ℕ) (s : Str) (i j : ℕ) (new : List ℕ)
    → s.len < j
    → substr_replace junk s.mem (some s.len) s.size i (some j) new (some (length new)) ≡ none
unfolding substr_replace
substr_replace-none junk s i j new h = let late : ltb s.len j ≡ true = ground arith in rw late

module _ (c : ℕ) (r : List ℕ) where
  pub replace_pass-none : (n k : ℕ) (zs : List ℕ) → length zs < n → replace_pass c r n k zs ≡ none
  unfolding replace_pass
  replace_pass-none zero k zs h = absurd (omega arith)
  replace_pass-none (suc n) k [] h = refl
  replace_pass-none (suc n) k (z ∷ zs) h = replace_pass-none n k zs (omega arith)

  replace_pass-drop :
      (n k : ℕ) (zs : List ℕ)
      → n ≤ length zs
      → replace_pass c r n k zs ≡ replace_pass c r 0 k (drop n zs)
  unfolding replace_pass
  replace_pass-drop zero k zs h = refl
  replace_pass-drop (suc n) k [] h = absurd (omega arith)
  replace_pass-drop (suc n) k (z ∷ zs) h = replace_pass-drop n k zs (omega arith)

  module _ (junk : ℕ) where
    escape_char_done :
        (fuel j : ℕ) (s : Str)
        → s.len ≤ j
        → 0 < fuel
        → escape_char junk fuel c (replace, r) j s ≡ some s
    unfolding escape_char
    escape_char_done zero j s h f = absurd (omega arith)
    escape_char_done (suc fuel) j s h f = let late : ltb j s.len ≡ false = ground arith in rw late

    Agrees-move :
        (o : Option Str) (pre ys : List ℕ) (q : Option (List ℕ))
        → Agrees o (pre ++ ys) q
        → Agrees o pre (do zs ← q; some (ys ++ zs))
    Agrees-move o pre ys none h = h
    Agrees-move o pre ys (some zs) h = Yields-move pre ys zs h

module _ (junk c a b : ℕ) (rs : List ℕ) where
  abbrev r : List ℕ
  r = a ∷ b ∷ rs

  regroup :
      (w : ℕ) (q : Option (List ℕ))
      → (do zs ← q; some ((r ++ w ∷ []) ++ zs))
        ≡ (do rest ← (do zs ← q; some (w ∷ zs)); some (r ++ rest))
  regroup w none = refl
  regroup w (some zs) = ap some (append_assoc r (w ∷ []) zs)

  -- What happens behind an edit: one byte is kept unread.
  escape_char_after :
      (fuel j : ℕ) (pre ws : List ℕ) (s : Str)
      → ((pre' xs : List ℕ) (k : ℕ)
          → At s pre' xs k
          → length xs ≤ length ws
          → Agrees (escape_char junk fuel c (replace, r) k s) pre' (replace_pass c r 0 0 xs))
      → At s pre (r ++ ws) j
      → 0 < fuel
      → Agrees
          (escape_char junk fuel c (replace, r) (j + length r + 1) s)
          pre
          (do rest ← replace_pass c r 0 1 ws; some (r ++ rest))
  unfolding replace_pass
  escape_char_after fuel j pre [] s ih h f =
      rw
        (escape_char_done c r junk fuel (j + length r + 1) s
          (omega (arith, At-len h, length-append r [])) f)
        (s, refl, h.closed)
  escape_char_after fuel j pre (w ∷ ws) s ih h f =
      let split : At s pre ((r ++ w ∷ []) ++ ws) j = rw (append_assoc r (w ∷ []) ws) h in
      let moved =
        At-move (j + length r + 1) pre (r ++ w ∷ []) ws split
          (omega (arith, length-append r (w ∷ []))) in
      rw (← regroup w (replace_pass c r 0 0 ws)) (
        Agrees-move c r junk (escape_char junk fuel c (replace, r) (j + length r + 1) s) pre
          (r ++ w ∷ []) (replace_pass c r 0 0 ws)
          (ih (pre ++ (r ++ w ∷ [])) ws (j + length r + 1) moved (omega arith)))

  -- The edit and what comes behind it, or the fault where the text is too short for it.
  escape_char_hit :
      (fuel j : ℕ) (pre zs : List ℕ) (x : ℕ) (s : Str)
      → ((pre' xs : List ℕ) (k : ℕ) (t : Str)
          → At t pre' xs k
          → length xs ≤ length zs
          → Agrees (escape_char junk fuel c (replace, r) k t) pre' (replace_pass c r 0 0 xs))
      → At s pre (x ∷ zs) j
      → length zs < fuel
      → Agrees
          (do
            t ← edit junk replace j r s
            escape_char junk fuel c (replace, r) (j + length r + 1) t)
          pre
          (do rest ← replace_pass c r (length r - 2) 1 zs; some (r ++ rest))
  unfolding edit
  escape_char_hit fuel j pre zs x s ih h f = elim (dec_le (length r - 2) (length zs)) [
    | yes fits ↦
        let n = length r - 2 in
        let split : At s pre ((x ∷ take n zs) ++ drop n zs) j = rw (take-append-drop n zs) h in
        let (t, made, closed) =
          replace_here junk pre (x ∷ take n zs) (drop n zs) r j (j + length r - 1) split
            (omega (arith, length-take_le n zs fits)) in
        let here : At t pre (r ++ drop n zs) j = record { closed = closed; place = h.place } in
        rw (made, replace_pass-drop c r n 1 zs fits)
          (escape_char_after fuel j pre (drop n zs) t
            (λ pre' xs k h' le. ih pre' xs k t h' (omega (arith, length-drop n zs))) here
            (omega arith))
    | no short ↦
        rw
          (
            substr_replace-none junk s j (j + length r - 1) r (omega (arith, At-len h)),
            replace_pass-none c r (length r - 2) 1 zs (omega arith),
          )
          refl
  ]

  pub escape_char_replace :
      (fuel j : ℕ) (pre xs : List ℕ) (s : Str)
      → At s pre xs j
      → length xs < fuel
      → Agrees (escape_char junk fuel c (replace, r) j s) pre (replace_pass c r 0 0 xs)
  unfolding escape_char replace_pass
  escape_char_replace zero j pre xs s h f = absurd (omega arith)
  escape_char_replace (suc fuel) j pre [] s h f =
      let at_end : ltb j s.len ≡ false = ground (arith, At-len h) in rw at_end (s, refl, h.closed)
  escape_char_replace (suc fuel) j pre (x ∷ xs) s h f =
      let inside : ltb j s.len ≡ true = ground (arith, At-len h) in
      rw (inside, get_elem?-IsClosed pre x xs j h.closed h.place)
        (elim (Bool-cases (same_char x c)) [
          | inl hit ↦ rw hit (
              escape_char_hit fuel j pre xs x s
                (λ pre' ys k t h' le. escape_char_replace fuel k pre' ys t h' (omega arith)) h
                (omega arith))
          | inr miss ↦
              let moved = At-move (j + 1) pre (x ∷ []) xs h (omega arith) in
              rw miss (
                Agrees-move c r junk _ pre (x ∷ []) (replace_pass c r 0 0 xs)
                  (escape_char_replace fuel (j + 1) (pre ++ x ∷ []) xs s moved (omega arith)))
        ])

pub Agrees-bind :
    (o : Option Str) (f : Str → Option Str) (q : Option (List ℕ)) (g : List ℕ → Option (List ℕ))
    → Agrees o [] q
    → ((t : Str) (ys : List ℕ) → IsClosed t ys → Agrees (f t) [] (g ys))
    → Agrees (do t ← o; f t) [] (do ys ← q; g ys)
Agrees-bind o f none g h k = rw h
Agrees-bind o f (some ys) g (t, e, closed) k = rw e (k t ys closed)

pub Agrees-pure :
    (o : Option Str) (q : Option (List ℕ)) → Agrees o [] q → Agrees (do t ← o; some t) [] q
Agrees-pure o none h = rw h
Agrees-pure o (some ys) (t, e, closed) = rw e (t, refl, closed)
