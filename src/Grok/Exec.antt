-- ===== src/Grok/Exec.antt =====
-- `grok_execn` of tags/grok/20090928/grokre.c, and the regular expression predicate of predicates.c.
pub mod Accepts
use semicomplete_googlecode.Grok.Compile.{
  Regexes, Grok, grok_ok, error_nomatch, error_pcre, error_uninitialized,
}
use semicomplete_googlecode.Common.{
  ℕ, zero, suc, ◌+◌, ◌-◌, ◌*◌, ◌%◌, Option, none, some, List, ◌==◌, if◌then◌else◌, ◌>>=◌, get_elem?,
  Bool, true, false,
}
use semicomplete_googlecode.Common.Int.{ℤ, pos, negsuc}
use semicomplete_googlecode.Grok.Buffer.{read}
use semicomplete_googlecode.Grok.Capture.{Xdr}
use semicomplete_googlecode.Grok.Capture.Tables.{Table}

module _ (X : Xdr) (T : Table (Xdr.Bytes X)) (R : Regexes) where
  open R use {Regex, match}

  -- `grok_match_t`
  pub record Match : Type 0 where
    pub subject : List ℕ
    pub start : ℤ
    pub end : ℤ

  -- `gm` is filled in unless it is NULL.
  unfoldable pub fill_match : Option Match → List ℕ → List ℤ → Option (Option Match)
  fill_match none text vector = some none
  fill_match (some gm) text vector = do
    start ← get_elem? vector 0
    end ← get_elem? vector 1
    some (some (record { subject = text; start = start; end = end }))

  abbrev pub executed :
      ℤ → Grok X T R → List ℕ → Option Match → Option (ℤ × Grok X T R × Option Match)
  executed (negsuc zero) grok text gm = some (error_nomatch, grok, gm)
  executed (negsuc (suc n)) grok text gm =
      some (error_pcre, record grok { pcre_errno = negsuc (suc n) }, gm)
  executed (pos n) grok text gm = do
    filled ← fill_match gm text grok.pcre_capture_vector
    some (grok_ok, grok, filled)

  abbrev pub executed_by :
      Option Regex → Grok X T R → List ℕ → Option Match → Option (ℤ × Grok X T R × Option Match)
  executed_by none grok text gm = some (error_uninitialized, grok, gm)
  executed_by (some re) grok text gm =
      let r = match re text (grok.pcre_num_captures * 3) in
      executed r.0 (record grok { pcre_capture_vector = r.1 }) text gm

  unfoldable pub execn : Grok X T R → List ℕ → Option Match → Option (ℤ × Grok X T R × Option Match)
  unfolding fill_match
  execn grok text gm = executed_by grok.re grok text gm

  -- `grok_predicate_regexp_t`, less the text that is only logged.
  pub record Regexp : Type 0 where
    pub gre : Grok X T R
    pub negative_match : Bool

  -- `^` with 0 or 1.
  abbrev pub xor_one : ℕ → ℕ
  xor_one n = if n % 2 == 0 then n + 1 else n - 1

  abbrev pub xor : ℤ → Bool → ℤ
  xor ret false = ret
  xor (pos n) true = pos (xor_one n)
  xor (negsuc n) true = negsuc (xor_one n)

  abbrev pub is_negative : ℤ → ℕ
  is_negative (pos n) = 0
  is_negative (negsuc n) = 1

  abbrev pub negated : ℤ → Bool → ℤ
  negated (pos n) negative_match = if n == 7 then xor (pos n) negative_match else pos n
  negated (negsuc n) negative_match = negsuc n

  -- The `return` of `grok_predicate_regexp`, and its data afterwards.
  unfoldable pub predicate_regexp : Regexp → List ℕ → ℕ → ℕ → Option (ℕ × Regexp)
  unfolding execn
  predicate_regexp gprt subject start end = do
    text ← read subject start (end - start)
    r ← execn gprt.gre text none
    some (is_negative (negated r.0 gprt.negative_match), record gprt { gre = r.1 })
