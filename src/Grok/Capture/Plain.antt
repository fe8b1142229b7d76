-- ===== src/Grok/Capture/Plain.antt =====
-- An encoding of captures, for tags/grok/20090928/grok_capture.c, that has the laws of XDR: a capture
-- is its own encoding, and takes a hundred bytes more than its texts.
use semicomplete_googlecode.Common.{
  ℕ, ◌+◌, ◌≤◌, ◌≡◌, ◌≢◌, Option, some, none, leb, if◌then◌else◌, Bool-cases, inl, inr, arith,
}
use semicomplete_googlecode.Grok.Capture.{Capture, Xdr, text_size, with_strings}

abbrev pub stored : Capture → ℕ → Option Capture
stored gct size = if leb (100 + text_size gct) size then some gct else none

pub stored_same :
    (gct : Capture) (size : ℕ) (bytes : Capture) → stored gct size ≡ some bytes → bytes ≡ gct
stored_same gct size bytes h = elim (Bool-cases (leb (100 + text_size gct) size)) [
  | inl small ↦ let e : some gct ≡ some bytes = rw small at h in cc
  | inr large ↦ let e : none ≡ some bytes = rw large at h in cc
]

pub stored_small : (gct : Capture) (size : ℕ) → 100 + text_size gct ≤ size → stored gct size ≢ none
stored_small gct size h e = elim (Bool-cases (leb (100 + text_size gct) size)) [
  | inl small ↦ let no : some gct ≡ none = rw small at e in cc
  | inr large ↦ absurd (ground arith)
]

-- A capture that is stored as it is.
abbrev pub plain : Xdr
plain = record {
  Bytes = Capture;
  encode = stored;
  decode = λ gct. gct;
  decode-encode = λ gct size bytes h. stored_same (with_strings gct) size bytes h;
  encode_small = λ gct size h. stored_small (with_strings gct) size h;
}
