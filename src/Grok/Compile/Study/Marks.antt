-- ===== src/Grok/Compile/Study/Marks.antt =====
-- Numbers of groups and sizes of captures that a study compares, tags/grok/20090928/grok_capture.c.
use semicomplete_googlecode.Common.{
  ℕ, zero, suc, ◌-◌, ◌%◌, ◌≤◌, ◌<◌, ◌≡◌, refl, sym, ap, ◌∙◌, ◌≢◌, ◌⊎◌, inl, inr, false, Option,
  none, some, List, [], ◌∷◌, arith, ltb, if◌then◌else◌, ltb-false, Bool-cases, Option-cases,
}
use semicomplete_googlecode.Grok.Capture.{
  Capture, with_strings, not_null, Xdr, set_number_key, same_set, size_of, text_size,
  capture_get_by_id,
}
use semicomplete_googlecode.Grok.Capture.Tables.{Table}
use semicomplete_googlecode.Grok.Database.{same_key}
use semicomplete_googlecode.Common.Int.{ℤ, pos, negsuc, minus}

-- The number of a group as the code reads it: the low byte counts as a signed one.
abbrev pub signed_number : ℕ → ℤ
signed_number n = minus n (if ltb (n % 256) 128 then 0 else 256)

signed_number_cases :
    (n : ℕ)
    → ((signed_number n ≡ pos n) × (n % 256 < 128))
      ⊎ (((signed_number n ≡ negsuc (255 - n)) × (128 ≤ n) × (n < 256))
          ⊎ ((signed_number n ≡ pos (n - 256)) × (256 ≤ n) × (128 ≤ n % 256)))
signed_number_cases n = elim (Bool-cases (ltb (n % 256) 128)) [
  | inl low ↦
      let above : ltb n 0 ≡ false = ltb-false _ _ (omega arith) in
      let same : n - 0 ≡ n = omega arith in inl (rw (low, above, same) refl, ground arith)
  | inr high ↦ elim (Bool-cases (ltb n 256)) [
    | inl few ↦
        let same : 256 - n - 1 ≡ 255 - n = omega arith in
        inr (inl (rw (high, few, same) refl, ground arith, ground arith))
    | inr many ↦ inr (inr (rw (high, many) refl, ground arith, ground arith))
  ]
]

pub signed_number_inj : (a b : ℕ) → signed_number a ≡ signed_number b → a ≡ b
signed_number_inj a b h = elim (signed_number_cases a) [
  | inl (ea, la) ↦ elim (signed_number_cases b) [
    | inl (eb, lb) ↦ let e : pos a ≡ pos b = sym ea ∙ h ∙ eb in cc
    | inr (inl (eb, lb, mb)) ↦ let e : pos a ≡ negsuc (255 - b) = sym ea ∙ h ∙ eb in cc
    | inr (inr (eb, lb, mb)) ↦
        let e : pos a ≡ pos (b - 256) = sym ea ∙ h ∙ eb in
        let f : a ≡ b - 256 = cc in absurd (omega (arith, lb, mb, la, f))
  ]
  | inr (inl (ea, la, ma)) ↦ elim (signed_number_cases b) [
    | inl (eb, lb) ↦ let e : negsuc (255 - a) ≡ pos b = sym ea ∙ h ∙ eb in cc
    | inr (inl (eb, lb, mb)) ↦
        let e : negsuc (255 - a) ≡ negsuc (255 - b) = sym ea ∙ h ∙ eb in
        let f : 255 - a ≡ 255 - b = cc in omega (arith, la, ma, lb, mb, f)
    | inr (inr (eb, lb, mb)) ↦ let e : negsuc (255 - a) ≡ pos (b - 256) = sym ea ∙ h ∙ eb in cc
  ]
  | inr (inr (ea, la, ma)) ↦ elim (signed_number_cases b) [
    | inl (eb, lb) ↦
        let e : pos (a - 256) ≡ pos b = sym ea ∙ h ∙ eb in
        let f : a - 256 ≡ b = cc in absurd (omega (arith, la, ma, lb, f))
    | inr (inl (eb, lb, mb)) ↦ let e : pos (a - 256) ≡ negsuc (255 - b) = sym ea ∙ h ∙ eb in cc
    | inr (inr (eb, lb, mb)) ↦
        let e : pos (a - 256) ≡ pos (b - 256) = sym ea ∙ h ∙ eb in
        let f : a - 256 ≡ b - 256 = cc in omega (arith, la, lb, f)
  ]
]

size_of-not_null : (o : Option (List ℕ)) → size_of (not_null o) ≡ size_of o
size_of-not_null none = refl
size_of-not_null (some s) = refl

pub text_size-with_strings : (gct : Capture) → text_size (with_strings gct) ≡ text_size gct
text_size-with_strings gct =
    rw
      (
        size_of-not_null gct.name,
        size_of-not_null gct.subname,
        size_of-not_null gct.pattern,
        size_of-not_null gct.predicate_lib,
        size_of-not_null gct.predicate_func_name,
        size_of-not_null gct.extra,
      )
      refl

module _ (X : Xdr) (T : Table (Xdr.Bytes X)) where
  pub same_set-none : (o : Option (List ℕ)) → same_set X T o none ≡ false
  same_set-none none = refl
  same_set-none (some k) = refl

  pub number_apart :
      (a b : ℤ) → a ≢ b → same_set X T (set_number_key X a) (set_number_key X b) ≡ false
  unfolding same_key
  number_apart (negsuc zero) b h = refl
  number_apart (negsuc (suc n)) (negsuc zero) h = refl
  number_apart (pos n) (negsuc zero) h = refl
  number_apart (pos n) (pos m) h = let other : n ≢ m = λ e. h (ap (λ k. pos k) e) in ground arith
  number_apart (pos n) (negsuc (suc m)) h = ground arith
  number_apart (negsuc (suc n)) (pos m) h = ground arith
  number_apart (negsuc (suc n)) (negsuc (suc m)) h =
      let other : n ≢ m = λ e. h (ap (λ k. negsuc (suc k)) e) in ground arith

  pub record_of :
      (db : Table.Db T) (id : ℕ) (gct : Capture)
      → capture_get_by_id X T db id ≡ some gct
      → (u : Xdr.Bytes X) × (Table.get T db (id ∷ []) ≡ some u) × (Xdr.decode X u ≡ gct)
  unfolding capture_get_by_id
  record_of db id gct h = elim (Option-cases (Table.get T db (id ∷ []))) [
    | inl missing ↦ let e : none ≡ some gct = rw missing at h in cc
    | inr (u, there) ↦
        let e : some (Xdr.decode X u) ≡ some gct = rw there at h in
        (u, there, (let f : Xdr.decode X u ≡ gct = cc in f))
  ]
