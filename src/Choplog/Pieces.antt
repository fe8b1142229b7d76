-- ===== src/Choplog/Pieces.antt =====
-- The pieces that are on the disk, and what each step of choplog/choplog.c does to them.
use semicomplete_googlecode.Common.{
  ℕ, zero, suc, ◌+◌, ◌≤◌, ◌<◌, ◌≡◌, refl, ap, Bool, Option, none, some, List, [], ◌∷◌, ◌++◌,
  append_assoc, if◌then◌else◌, length, All, inl, inr, Bool-cases, append-nil, ◌∙◌,
}
use semicomplete_googlecode.Choplog.{Split, Run, running, exited, named, readsize, close_output}

unfoldable pub join : List (List ℕ) → List ℕ
join [] = []
join (p ∷ ps) = p ++ join ps

pub join-append : (ps qs : List (List ℕ)) → join (ps ++ qs) ≡ join ps ++ join qs
unfolding join
join-append [] qs = refl
join-append (p ∷ ps) qs = rw (join-append ps qs, append_assoc p (join ps) (join qs)) refl

pub join_more :
    (closed : List (List ℕ)) (content added : List ℕ)
    → join (closed ++ (content ++ added) ∷ []) ≡ join (closed ++ content ∷ []) ++ added
unfolding join
join_more closed content added =
    rw (join-append closed ((content ++ added) ∷ []), join-append closed (content ∷ []))
      (rw
        (
          append-nil (content ++ added),
          append-nil content,
          append_assoc (join closed) content added,
        )
        refl)

-- With the piece that is being written.
abbrev pub open_piece : Option (List ℕ) → List (List ℕ)
open_piece none = []
open_piece (some content) = content ∷ []

abbrev pub pieces : Split → List (List ℕ)
pieces s = s.closed ++ open_piece s.ofp

-- The numbers from 0 on.
unfoldable pub numbers : ℕ → List ℕ
numbers zero = []
numbers (suc n) = numbers n ++ n ∷ []

module _ (xargs : Bool) (byte_size : ℕ) where
  abbrev pub Small : List ℕ → Type 0
  Small p = length p ≤ byte_size + readsize

  abbrev pub Large : List ℕ → Type 0
  Large p = byte_size < length p

  -- What is known of the open piece.
  abbrev pub Opened : ℕ → Split → Option (List ℕ) → Type 0
  Opened n s none = Unit
  Opened n s (some content) = (s.bytes_written ≡ length content) × (s.current_output_file ≡ some n)

  -- After the bytes `content` have been read and written.
  pub record Kept (s : Split) (content : List ℕ) : Type 0 where
    pub whole : join (pieces s) ≡ content
    pub counted : s.split_count ≡ length (pieces s)
    pub small : All Small (pieces s)
    pub large : All Large s.closed
    pub listed : s.printed ≡ (if xargs then numbers (length s.closed) else [])
    pub opened : Opened (length s.closed) s s.ofp

  -- After an `exit(1)`: what is on the disk is the front of the input.
  pub record Part (s : Split) (content : List ℕ) : Type 0 where
    pub more : List ℕ
    pub front : join (pieces s) ++ more ≡ content
    pub pieces_small : All Small (pieces s)

  abbrev pub Outcome : Run → List ℕ → Type 0
  Outcome (running t) content = Kept t content
  Outcome (exited t) content = Part t content

  pub Kept-Part : (s : Split) (content more : List ℕ) → Kept s content → Part s (content ++ more)
  Kept-Part s content more k = record {
    more = more;
    front = ap (λ l. l ++ more) k.whole;
    pieces_small = k.small;
  }

  pub named-listed :
      (n : ℕ) (o : Option ℕ) (printed : List ℕ)
      → o ≡ some n
      → printed ≡ (if xargs then numbers n else [])
      → named xargs o printed ≡ (if xargs then numbers (suc n) else [])
  unfolding numbers
  named-listed n o printed e h = rw e (elim (Bool-cases xargs) [
    | inl on ↦ rw on (ap (λ l. l ++ n ∷ []) (rw on at h))
    | inr off ↦ rw off (rw off at h)
  ])

-- Where `fclose` writes out all that was taken.
module _ (xargs : Bool) (fclose : Split → List ℕ → List ℕ)
    (keeps : (s : Split) (content : List ℕ) → fclose s content ≡ content) where
  pub close_output_open :
      (s : Split) (content : List ℕ)
      → s.ofp ≡ some content
      → close_output xargs fclose s ≡ record s {
        closed = s.closed ++ content ∷ [];
        ofp = none;
        printed = named xargs s.current_output_file s.printed;
      }
  unfolding close_output
  close_output_open s content e =
      ap
        (λ o. elim o as (λ x. Split) [
          | none ↦ s
          | some old ↦ record s {
            closed = s.closed ++ fclose s old ∷ [];
            ofp = none;
            printed = named xargs s.current_output_file s.printed;
          }
        ])
        e
      ∙ rw (keeps s content) refl

  pub close_output-none : (s : Split) → s.ofp ≡ none → close_output xargs fclose s ≡ s
  unfolding close_output
  close_output-none s e = rw e refl
