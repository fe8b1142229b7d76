-- ===== src/Grok/Compile/Inits.antt =====
-- `grok_predicate_regexp_init` of tags/grok/20090928/predicates.c, up to the capture, which
-- `capture_add_predicate` of Grok/Expand.antt adds. What PCRE finds in the arguments is a
-- parameter: where the operation stands, and the bounds of the expression.
use semicomplete_googlecode.Common.{
  ℕ, zero, suc, ◌-◌, ◌<◌, ◌≤◌, ◌≡◌, refl, Bool, Option, some, none, List, [], arith, ◌==◌, ◌>>=◌,
  get_elem?, length,
}
use semicomplete_googlecode.Common.Int.{ℤ, pos, negsuc}
use semicomplete_googlecode.Grok.Buffer.{read}
use semicomplete_googlecode.Grok.Buffer.Blocks.{read_lem}
use semicomplete_googlecode.Grok.Buffer.Texts.{IsText}
use semicomplete_googlecode.Grok.Database.{Database}
use semicomplete_googlecode.Grok.Capture.{Xdr}
use semicomplete_googlecode.Grok.Capture.Tables.{Table}
use semicomplete_googlecode.Grok.Predicate.Choice.{Choice}
use semicomplete_googlecode.Grok.Expand.{Pcre}
use semicomplete_googlecode.Grok.Expand.Percents.{percents}
use semicomplete_googlecode.Grok.Expand.Rewrites.{Rewrites, rounds, slice, labels}
use semicomplete_googlecode.Grok.Compile.{Regexes, Grok, init, compilen, compiled}
use semicomplete_googlecode.Grok.Exec.{Regexp}
use semicomplete_googlecode.Grok.Compile.Compiles.{compilen_correct}
use semicomplete_googlecode.Grok.Expand.Captures.{Distinct, empty-Tame}

pub record Parts : Type 0 where
  pub op : ℕ
  pub start : ℕ
  pub end : ℕ

-- The search by `REGEXP_PREDICATE_RE`: the groups that it needs lie in the text.
pub record RegexpOp : Type 0 where
  pub exec : List ℕ → Option Parts
  pub exec_inside :
      (args : List ℕ) (p : Parts)
      → exec args ≡ some p
      → (p.start ≤ p.end) × (p.end ≤ length args) × ((c : ℕ) × (get_elem? args p.op ≡ some c))

module _ (junk stale : ℕ) (B : Database (List ℕ)) (X : Xdr) (T : Table (Xdr.Bytes X)) (P : Pcre)
    (R : Regexes) (made : Choice → List ℕ → Option (List ℕ)) (O : RegexpOp) where
  -- Only a pattern that compiles is kept.
  abbrev pub kept : Bool → ℤ × Grok X T R → Option (Regexp X T R)
  kept negative (pos zero, gre) = some (record { gre = gre; negative_match = negative })
  kept negative (pos (suc n), gre) = none
  kept negative (negsuc n, gre) = none

  abbrev pub compile_parts :
      ℕ → Database.Db B → ℤ → List ℕ → Option Parts → Option (Option (Regexp X T R))
  compile_parts fuel patterns errno args none = some none
  compile_parts fuel patterns errno args (some p) = do
    pattern ← read args p.start (p.end - p.start)
    r ← compilen X T R junk stale B P made fuel patterns (init X T R errno) pattern
    c ← get_elem? args p.op
    some (kept (c == b'!') r)

  -- The clone has the patterns of the original and no captures. `args` has no NUL.
  unfoldable pub regexp_init : ℕ → Database.Db B → ℤ → List ℕ → Option (Option (Regexp X T R))
  regexp_init fuel patterns errno args =
      compile_parts fuel patterns errno args (RegexpOp.exec O args)

  module _ (patterns : Database.Db B)
      (texts : (name regex : List ℕ) → Database.get B patterns name ≡ some regex → IsText regex)
      (pointers : (c : Choice) (args extra : List ℕ)
        → made c args ≡ some extra
        → length extra ≤ 8) where
    -- Where the arguments have an operation and an expression, and that rewrites and compiles to an
    -- expression with no named groups, and the names with their subnames are short and no subname is there twice, the init makes a predicate of it, which is negated if
    -- the operation begins with '!'.
    pub regexp_init_lem :
        {ys : List ℕ} {names : List (ℕ × List ℕ)} (fuel : ℕ) (errno : ℤ) (args : List ℕ) (p : Parts)
        (c : ℕ) (re : Regexes.Regex R)
        (r : Rewrites B P patterns (slice args p.start p.end) 0 0 names ys)
        → RegexpOp.exec O args ≡ some p
        → get_elem? args p.op ≡ some c
        → rounds B P patterns r < fuel
        → IsText (slice args p.start p.end)
        → Regexes.compile R (percents ys) ≡ some re
        → Regexes.name_count R re ≡ 0
        → Distinct X T (labels B P patterns r)
        → (gprt : Regexp X T R) × (regexp_init fuel patterns errno args ≡ some (some gprt))
          × (gprt.gre.re ≡ some re)
          × (gprt.negative_match ≡ (c == b'!'))
    unfolding regexp_init init
    regexp_init_lem fuel errno args p c re r parted at_op enough text accepted unnamed apart =
        let (order, inside, rest) = RegexpOp.exec_inside O args p parted in
        let (gre, compiled, has_re, sized, numbered) =
          compilen_correct B P patterns texts junk stale X T R made pointers r fuel
            (init X T R errno) re (λ k. 0) (λ k. 0) (λ k. []) enough text accepted
            (λ k h. absurd (omega (arith, unnamed)))
            (λ j k hj hk e. absurd (omega (arith, unnamed)))
            (λ j k hj hk e. absurd (omega (arith, unnamed)))
            (λ k h. absurd (omega (arith, unnamed))) (empty-Tame X T)
            (λ other u there. let none_there = Table.get-empty T other in cc) apart in
        (
          record { gre = gre; negative_match = c == b'!' },
          rw (parted, read_lem args p.start (p.end - p.start) (omega arith), compiled, at_op) refl,
          has_re,
          refl,
        )
