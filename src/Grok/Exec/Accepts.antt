-- ===== src/Grok/Exec/Accepts.antt =====
-- What `grok_predicate_regexp` of tags/grok/20090928/predicates.c returns.
use semicomplete_googlecode.Common.{
  ℕ, zero, suc, ◌≤◌, ◌≡◌, Bool, true, false, some, none, List, length, refl, ◌-◌, ap, inl, inr,
  arith, ◌==◌, Bool-cases, take, drop, Option,
}
use semicomplete_googlecode.Common.Int.{ℤ, pos, negsuc}
use semicomplete_googlecode.Grok.Capture.{Xdr}
use semicomplete_googlecode.Grok.Capture.Tables.{Table}
use semicomplete_googlecode.Grok.Compile.{Regexes, Grok}
use semicomplete_googlecode.Grok.Exec.{
  Regexp, predicate_regexp, execn, executed, executed_by, is_negative, negated, fill_match,
}
use semicomplete_googlecode.Grok.Buffer.Blocks.{read_lem}

module _ (X : Xdr) (T : Table (Xdr.Bytes X)) (R : Regexes) where
  -- With no `gm`, `grok_execn` meets no fault, and its code is not negative.
  executed_code :
      (ret : ℤ) (grok : Grok X T R) (text : List ℕ)
      → (n : ℕ) × (after : Grok X T R) × (executed X T R ret grok text none
          ≡ some (pos n, after, none))
  unfolding fill_match
  executed_code (pos n) grok text = (0, grok, refl)
  executed_code (negsuc zero) grok text = (7, grok, refl)
  executed_code (negsuc (suc n)) grok text = (6, record grok { pcre_errno = negsuc (suc n) }, refl)

  executed_by_code :
      (re : Option (Regexes.Regex R)) (grok : Grok X T R) (text : List ℕ)
      → (n : ℕ) × (after : Grok X T R) × (executed_by X T R re grok text none
          ≡ some (pos n, after, none))
  executed_by_code none grok text = (5, grok, refl)
  executed_by_code (some re) grok text = executed_code _ _ text

  execn_code :
      (grok : Grok X T R) (text : List ℕ)
      → (n : ℕ) × (after : Grok X T R) × (execn X T R grok text none ≡ some (pos n, after, none))
  unfolding execn
  execn_code grok text = executed_by_code grok.re grok text

  negated_positive :
      (n : ℕ) (negative : Bool) → is_negative X T R (negated X T R (pos n) negative) ≡ 0
  negated_positive n true = elim (Bool-cases (n == 7)) [
    | inl seven ↦ rw seven refl
    | inr other ↦ rw other refl
  ]
  negated_positive n false = elim (Bool-cases (n == 7)) [
    | inl seven ↦ rw seven refl
    | inr other ↦ rw other refl
  ]

  -- On a range inside of the subject the predicate of a regular expression meets no fault and
  -- returns 0, for success, whatever the expression, its match and the negation are.
  pub predicate_regexp_accepts :
      (gprt : Regexp X T R) (subject : List ℕ) (start end : ℕ)
      → start ≤ end
      → end ≤ length subject
      → (after : Regexp X T R) × (predicate_regexp X T R gprt subject start end ≡ some (0, after))
  unfolding predicate_regexp
  predicate_regexp_accepts gprt subject start end order inside =
      let text = take (end - start) (drop start subject) in
      let (n, after, ran) = execn_code gprt.gre text in
      (
        record gprt { gre = after },
        rw (read_lem subject start (end - start) (omega arith), ran)
            (ap (λ code. some (code, record gprt { gre = after }))
              (negated_positive n gprt.negative_match)),
      )
