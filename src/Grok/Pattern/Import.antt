-- ===== src/Grok/Pattern/Import.antt =====
-- `grok_patterns_import_from_string`: the table after an import of written lines.
use semicomplete_googlecode.Common.{
  ℕ, ◌≡◌, refl, ◌≢◌, false, List, [], ◌∷◌, ◌++◌, append-nil, append_assoc, arith, ◌==◌, All,
  All-append, ap, ◌∙◌, Option, some, if◌then◌else◌, sym, inl, inr, Option-cases,
}
use semicomplete_googlecode.Grok.Pattern.{
  close_token, tokens, is_comment, import_line, pattern_find, import_lines, import_from_string,
}
use semicomplete_googlecode.Grok.Pattern.Parse.{
  IsNotBlank, StartsPlain, skip_blanks-append, parse_string_complete,
}
use semicomplete_googlecode.Grok.Database.{Database, same_key}

pub record Entry : Type 0 where
  pub name : List ℕ
  pub regexp : List ℕ

-- A byte that ends no line and no text.
abbrev InLine : ℕ → Type 0
InLine c = (c ≢ 10) × (c ≢ 0)

pub record IsEntry (e : Entry) : Type 0 where
  pub named : e.name ≢ []
  pub name_line : All InLine e.name
  pub name_plain : All IsNotBlank e.name
  pub not_comment : is_comment e.name ≡ false
  pub regexp_line : All InLine e.regexp
  pub regexp_plain : StartsPlain e.regexp

pub line_of : Entry → List ℕ
line_of e = e.name ++ 32 ∷ e.regexp

-- One line for each entry.
pub render : List Entry → List ℕ
unfolding line_of
render [] = []
render (e ∷ es) = line_of e ++ 10 ∷ render es

tokens-line :
    (cur line rest : List ℕ)
    → All InLine line
    → tokens cur (line ++ 10 ∷ rest) ≡ close_token (cur ++ line) ++ tokens [] rest
unfolding tokens
tokens-line cur [] rest h = rw append-nil
tokens-line cur (c ∷ line) rest (hc, h) =
    let no_nul : (c == 0) ≡ false = ground arith in
    let no_end : (c == 10) ≡ false = ground arith in
    rw (no_nul, no_end, tokens-line (cur ++ c ∷ []) line rest h, append_assoc cur (c ∷ []) line)
      refl

line_of-InLine : (e : Entry) → IsEntry e → All InLine (line_of e)
unfolding line_of
line_of-InLine e v =
    All-append InLine e.name (32 ∷ e.regexp) v.name_line ((omega arith), v.regexp_line)

-- Facts on a text with something in front.
close_token-append : (n xs : List ℕ) → n ≢ [] → close_token (n ++ xs) ≡ (n ++ xs) ∷ []
close_token-append [] xs h = absurd (h refl)
close_token-append (c ∷ n) xs h = refl

StartsPlain-append : (n xs : List ℕ) → n ≢ [] → All IsNotBlank n → StartsPlain (n ++ xs)
StartsPlain-append [] xs h p = absurd (h refl)
StartsPlain-append (c ∷ n) xs h p = p.0

is_comment-append : (n xs : List ℕ) → n ≢ [] → is_comment (n ++ xs) ≡ is_comment n
is_comment-append [] xs h = absurd (h refl)
is_comment-append (c ∷ n) xs h = refl

tokens-render :
    (e : Entry) (es : List Entry)
    → IsEntry e
    → tokens [] (render (e ∷ es) ++ 0 ∷ []) ≡ line_of e ∷ tokens [] (render es ++ 0 ∷ [])
unfolding render
tokens-render e es v =
    rw
      (
        append_assoc (line_of e) (10 ∷ render es) (0 ∷ []),
        tokens-line [] (line_of e) (render es ++ 0 ∷ []) (line_of-InLine e v),
      )
      (unfold line_of in
        ap (λ l. l ++ tokens [] (render es ++ 0 ∷ []))
          (close_token-append e.name (32 ∷ e.regexp) v.named))

-- The expression of the last entry for a name.
pub latest : List Entry → List ℕ → Option (List ℕ) → Option (List ℕ)
latest [] k old = old
latest (e ∷ es) k old = latest es k (if same_key e.name k then some e.regexp else old)

module _ (B : Database (List ℕ)) where
  open B use {Db, put, get}

  -- The table after all entries.
  put_all : Db → List Entry → Db
  put_all db [] = db
  put_all db (e ∷ es) = put_all (put db e.name e.regexp) es

  import_line-entry :
      (db : Db) (e : Entry) → IsEntry e → import_line B db (line_of e) ≡ put db e.name e.regexp
  unfolding import_line line_of
  import_line-entry db e v =
      rw
        (
          skip_blanks-append [] (e.name ++ 32 ∷ e.regexp) tt
              (StartsPlain-append e.name (32 ∷ e.regexp) v.named v.name_plain),
          is_comment-append e.name (32 ∷ e.regexp) v.named,
          v.not_comment,
          parse_string_complete [] e.name [] e.regexp 32 tt v.named v.name_plain refl tt
              v.regexp_plain,
        )
        refl

  import_lines-render :
      (db : Db) (es : List Entry)
      → All IsEntry es
      → import_lines B db (tokens [] (render es ++ 0 ∷ [])) ≡ put_all db es
  unfolding import_lines put_all
  import_lines-render db [] h = unfold render tokens in refl
  import_lines-render db (e ∷ es) (v, h) =
      ap (import_lines B db) (tokens-render e es v)
      ∙ ap (λ d. import_lines B d (tokens [] (render es ++ 0 ∷ []))) (import_line-entry db e v)
      ∙ import_lines-render (put db e.name e.regexp) es h

  get-put_all :
      (db : Db) (es : List Entry) (k : List ℕ) → get (put_all db es) k ≡ latest es k (get db k)
  unfolding put_all latest
  get-put_all db [] k = refl
  get-put_all db (e ∷ es) k =
      get-put_all (put db e.name e.regexp) es k ∙ ap (latest es k) (B.get-put db e.name k e.regexp)

  pattern_find-get : (db : Db) (k : List ℕ) → (pattern_find B db k).0 ≡ get db k
  unfolding pattern_find
  pattern_find-get db k = elim (Option-cases (get db k)) [
    | inl absent ↦ rw absent
    | inr (v, there) ↦ rw there
  ]

  -- After an import of written lines, each followed by a newline, `grok_pattern_find` gives for every
  -- name the expression of the last line for it, and without one what it gave before.
  pub pattern_find-import :
      (db : Db) (es : List Entry) (k : List ℕ)
      → All IsEntry es
      → (pattern_find B (import_from_string B db (render es ++ 0 ∷ [])).0 k).0
        ≡ latest es k (pattern_find B db k).0
  unfolding import_from_string
  pattern_find-import db es k h =
      pattern_find-get _ k
      ∙ ap (λ d. get d k) (import_lines-render db es h)
      ∙ get-put_all db es k
      ∙ ap (latest es k) (sym (pattern_find-get db k))
