-- ===== src/Grok/Escape/Backslashes.antt =====
-- `string_escape` with printable characters: a backslash in front of each.
use semicomplete_googlecode.Common.{
  ℕ, ◌+◌, ◌≡◌, refl, ap, ◌∙◌, ◌≢◌, inl, inr, true, false, some, List, [], ◌∷◌, arith, if◌then◌else◌,
  Bool-cases, All, length, length-append, take, take-append_at, ◌<◌, Bool, ◌==◌, ◌||◌, sym, ◌⊎◌,
  Option, ◌++◌,
}
use semicomplete_googlecode.Grok.Buffer.{Str, read, len_or_strlen}
use semicomplete_googlecode.Grok.Buffer.Splice.{Yields}
use semicomplete_googlecode.Grok.Buffer.Blocks.{IsClosed, read_lem}
use semicomplete_googlecode.Grok.Escape.{
  insert, Options, isprint, replacement, hits, escape_chars, string_escape, Op, same_char, or_try,
}
use semicomplete_googlecode.Grok.Escape.Pass.{At, insert_pass, escape_char_insert}

-- The passes in order; a character that the first text lacks has none.
unfoldable pub insert_passes : List ℕ → List ℕ → List ℕ → List ℕ
insert_passes text [] acc = acc
insert_passes text (c ∷ cs) acc =
    insert_passes text cs (if hits text c then insert_pass c acc else acc)

abbrev pub IsPrintable : ℕ → Type 0
IsPrintable c = isprint c ≡ true

-- What the options must say: the style of C, not only for unprintable characters.
pub record StyleOfC (o : Options) : Type 0 where
  pub c_style : o.like_c ≡ true
  pub printable_too : o.nonprintable ≡ false

-- A replacement that is found is kept.
or_try_found :
    (b u : Bool) (f g : Op × List ℕ → Op × List ℕ)
    → or_try b (or_try u (insert, b'\\' ∷ []) f) g ≡ (insert, b'\\' ∷ [])
or_try_found false false f g = refl
or_try_found false true f g = refl
or_try_found true false f g = refl
or_try_found true true f g = refl

replacement-printable :
    (o : Options) (c : ℕ) → StyleOfC o → IsPrintable c → replacement o c ≡ (insert, b'\\' ∷ [])
unfolding replacement
replacement-printable o c style h = rw (style.c_style, h) (or_try_found o.hex o.unicode _ _)

escape_chars_insert :
    (junk : ℕ) (o : Options) (text cs xs : List ℕ) (s : Str)
    → StyleOfC o
    → All IsPrintable cs
    → IsClosed s xs
    → Yields (escape_chars junk o (hits text) cs s) (insert_passes text cs xs)
unfolding escape_chars insert_passes
escape_chars_insert junk o text [] xs s style print h = (s, refl, h)
escape_chars_insert junk o text (c ∷ cs) xs s style (p, print) h = elim (Bool-cases (hits text c)) [
  | inr absent ↦ rw absent (escape_chars_insert junk o text cs xs s style print h)
  | inl there ↦
      let start : At s [] xs 0 = record { closed = h; place = refl } in
      let (t, made, closed) =
        escape_char_insert junk (s.len + 1) c 0 [] xs start (omega (arith, h.counted)) in
      rw (there, replacement-printable o c style p, style.printable_too, made)
        (escape_chars_insert junk o text cs (insert_pass c xs) t style print closed)
]

pub read_text : {s : Str} {xs : List ℕ} → IsClosed s xs → read s.mem 0 s.len ≡ some xs
read_text {s} {xs} h =
    read_lem s.mem 0 s.len
      (omega (arith, h.counted, ap length h.content, length-append xs (0 ∷ h.rest)))
    ∙ ap some (ap (take s.len) h.content ∙ take-append_at s.len xs (0 ∷ h.rest) h.counted)

-- `string_escape` with printable characters in the style of C meets no fault: for each character in
-- turn that the given text has, a backslash is put in front of each of its occurrences.
pub string_escape_inserts :
    (junk : ℕ) (cs tail : List ℕ) (chars_len : Option ℕ) (o : Options) (s : Str) (xs : List ℕ)
    → IsClosed s xs
    → StyleOfC o
    → All IsPrintable cs
    → len_or_strlen chars_len (cs ++ tail) ≡ some (length cs)
    → cs ≢ []
    → Yields (string_escape junk (cs ++ tail) chars_len o s) (insert_passes xs cs xs)
unfolding string_escape
string_escape_inserts junk [] tail chars_len o s xs h style print known some_char =
    absurd (some_char refl)
string_escape_inserts junk (c ∷ cs) tail chars_len o s xs h style print known some_char =
    let some_chars : (length (c ∷ cs) == 0) ≡ false = ground arith in
    let wanted : read (c ∷ cs ++ tail) 0 (length (c ∷ cs)) ≡ some (c ∷ cs) =
      read_lem (c ∷ cs ++ tail) 0 (length (c ∷ cs)) (omega (arith, length-append (c ∷ cs) tail))
      ∙ ap some (take-append_at (length (c ∷ cs)) (c ∷ cs) tail refl) in
    rw (known, read_text h, some_chars, wanted)
      (escape_chars_insert junk o xs (c ∷ cs) xs s style print h)

-- One backslash in front of each character of the set `cs`.
unfoldable pub escape_each : List ℕ → List ℕ → List ℕ
escape_each cs [] = []
escape_each cs (x ∷ xs) =
    let rest = escape_each cs xs in if hits cs x then b'\\' ∷ x ∷ rest else x ∷ rest

-- A character that is escaped once is found once; here `x` is the character that is looked at.
pub hits_other : (done : List ℕ) (x c : ℕ) → hits done c ≡ false → hits done x ≡ true → x ≢ c
hits_other done x c absent there e = cc (ap (hits done) e)

-- A pass for a new character that is no backslash adds it to the set.
insert_pass-escape_each :
    (c : ℕ) (done xs : List ℕ)
    → c < 128
    → c ≢ b'\\'
    → hits done c ≡ false
    → insert_pass c (escape_each done xs) ≡ escape_each (c ∷ done) xs
unfolding insert_pass escape_each hits same_char
insert_pass-escape_each c done [] small other new = refl
insert_pass-escape_each c done (x ∷ xs) small other new =
    ground (arith, insert_pass-escape_each c done xs small other new, hits_other done x c new)

-- The first pass may be one for the backslash.
insert_pass-single : (c : ℕ) (xs : List ℕ) → c < 128 → insert_pass c xs ≡ escape_each (c ∷ []) xs
unfolding insert_pass escape_each hits same_char
insert_pass-single c [] small = refl
insert_pass-single c (x ∷ xs) small = ground (arith, insert_pass-single c xs small)

escape_each-nil : (xs : List ℕ) → escape_each [] xs ≡ xs
unfolding escape_each hits
escape_each-nil [] = refl
escape_each-nil (x ∷ xs) = ap (λ l. x ∷ l) (escape_each-nil xs)

-- A character that the text lacks adds nothing.
pub escape_each-absent :
    (c : ℕ) (done xs : List ℕ) → hits xs c ≡ false → escape_each (c ∷ done) xs ≡ escape_each done xs
unfolding escape_each hits
escape_each-absent c done [] absent = refl
escape_each-absent c done (x ∷ xs) absent = ground (arith, escape_each-absent c done xs)

escape_each-congr :
    (ys bs xs : List ℕ) → ((x : ℕ) → hits ys x ≡ hits bs x) → escape_each ys xs ≡ escape_each bs xs
unfolding escape_each
escape_each-congr ys bs [] same = refl
escape_each-congr ys bs (x ∷ xs) same = rw (same x, escape_each-congr ys bs xs same)

-- Characters that differ from one another, from those of `done` and from the backslash.
abbrev pub AreNew : List ℕ → List ℕ → Type 0
AreNew done [] = Unit
AreNew done (c ∷ cs) = (c ≢ b'\\') × (hits done c ≡ false) × AreNew (c ∷ done) cs

add_all : List ℕ → List ℕ → List ℕ
add_all [] done = done
add_all (c ∷ cs) done = add_all cs (c ∷ done)

hits-add_all : (cs done : List ℕ) (x : ℕ) → hits (add_all cs done) x ≡ (hits cs x || hits done x)
unfolding add_all hits
hits-add_all [] done x = refl
hits-add_all (c ∷ cs) done x = ground (arith, hits-add_all cs (c ∷ done) x)

pub printable_small : (c : ℕ) → isprint c ≡ true → c < 128
unfolding isprint
printable_small c h = ground arith

insert_passes-add_all :
    (text cs done : List ℕ)
    → All IsPrintable cs
    → AreNew done cs
    → insert_passes text cs (escape_each done text) ≡ escape_each (add_all cs done) text
unfolding insert_passes add_all
insert_passes-add_all text [] done print new = refl
insert_passes-add_all text (c ∷ cs) done (p, print) (other, fresh, new) =
    elim (Bool-cases (hits text c)) [
      | inl there ↦
          rw (there, insert_pass-escape_each c done text (printable_small c p) other fresh)
            (insert_passes-add_all text cs (c ∷ done) print new)
      | inr absent ↦
          rw (absent, ← escape_each-absent c done text absent)
            (insert_passes-add_all text cs (c ∷ done) print new)
    ]

pub insert_passes-backslash :
    (text cs : List ℕ)
    → All IsPrintable cs
    → AreNew (b'\\' ∷ []) cs
    → insert_passes text (b'\\' ∷ cs) text ≡ escape_each (b'\\' ∷ cs) text
unfolding insert_passes
insert_passes-backslash text cs print new = rw (first (Bool-cases (hits text b'\\'))) (
    insert_passes-add_all text cs (b'\\' ∷ []) print new
    ∙ escape_each-congr (add_all cs (b'\\' ∷ [])) (b'\\' ∷ cs) text (λ x. same x))
  where
    first :
        (hits text b'\\' ≡ true) ⊎ (hits text b'\\' ≡ false)
        → (if hits text b'\\' then insert_pass b'\\' text else text) ≡ escape_each (b'\\' ∷ []) text
    first (inl there) = rw there (insert_pass-single b'\\' text (omega arith))
    first (inr absent) = rw (absent, escape_each-absent b'\\' [] text absent, escape_each-nil text)

    same : (x : ℕ) → hits (add_all cs (b'\\' ∷ [])) x ≡ hits (b'\\' ∷ cs) x
    same x = hits-add_all cs (b'\\' ∷ []) x ∙ unfold hits in ground arith

pub insert_passes-distinct :
    (text cs : List ℕ)
    → All IsPrintable cs
    → AreNew [] cs
    → insert_passes text cs text ≡ escape_each cs text
insert_passes-distinct text cs print new =
    ap (insert_passes text cs) (sym (escape_each-nil text))
    ∙ insert_passes-add_all text cs [] print new
    ∙ escape_each-congr (add_all cs []) cs text
        (λ x. hits-add_all cs [] x ∙ unfold hits in ground arith)
