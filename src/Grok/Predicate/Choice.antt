-- ===== src/Grok/Predicate/Choice.antt =====
-- `grok_capture_add_predicate` of tags/grok/20090928/grokre.c: which predicate a text stands for.
use semicomplete_googlecode.Common.{
  ℕ, ◌≡◌, refl, Bool, true, ◌&&◌, ◌||◌, List, [], ◌∷◌, ◌++◌, ◌==◌, if◌then◌else◌, All, ◌∙◌, arith,
}
use semicomplete_googlecode.Grok.Predicate.Strtol.{is_space}
use semicomplete_googlecode.Grok.Predicate.Text.{op_text}
use semicomplete_googlecode.Grok.Predicate.{Operation, op_lt, op_gt, op_ge, op_le, op_eq, op_ne}

-- What is called; `invalid` is the message on standard error.
pub data Choice : Type 0 where
  regexp strcompare numcompare invalid : Choice

-- `strchr("!<>=", c) != NULL`; the NUL behind the characters is found too.
abbrev pub is_operation_char : ℕ → Bool
is_operation_char c = c == b'!' || c == b'<' || c == b'>' || c == b'=' || c == 0

unfoldable pub skip_space : List ℕ → List ℕ
skip_space [] = []
skip_space (c ∷ cs) = let rest = skip_space cs in if is_space c then rest else c ∷ cs

abbrev pub is_match : ℕ → ℕ → Bool
is_match a b = (a == b'=' || a == b'!') && b == b'~'

abbrev pub is_text : ℕ → ℕ → Bool
is_text a b = a == b'$' && is_operation_char b

-- The tests under `predicate_len > 1`.
abbrev pub number_or_invalid : ℕ → Choice
number_or_invalid a = if is_operation_char a then numcompare else invalid

-- The tests on the text behind its white space.
abbrev pub choose_at : List ℕ → Choice
choose_at [] = invalid
choose_at (a ∷ []) = invalid
choose_at (a ∷ b ∷ []) = number_or_invalid a
choose_at (a ∷ b ∷ c ∷ cs) =
    if is_match a b then regexp else if is_text a b then strcompare else number_or_invalid a

unfoldable pub choose : List ℕ → Choice
unfolding skip_space
choose predicate = choose_at (skip_space predicate)

-- White space in front makes no difference.
choose-space : (ws cs : List ℕ) → All (λ c. is_space c ≡ true) ws → choose (ws ++ cs) ≡ choose cs
unfolding choose
choose-space [] cs h = refl
choose-space (w ∷ ws) cs (hw, h) = rw hw (choose-space ws cs h)

choose_number : (op : Operation) (c : ℕ) (cs : List ℕ) → choose (op_text op ++ c ∷ cs) ≡ numcompare
unfolding op_text choose
choose_number op_lt c [] = refl
choose_number op_lt c (d ∷ cs) = ground arith
choose_number op_gt c [] = refl
choose_number op_gt c (d ∷ cs) = ground arith
choose_number op_ge c cs = refl
choose_number op_le c cs = refl
choose_number op_eq c cs = refl
choose_number op_ne c cs = refl

choose_text :
    (op : Operation) (c : ℕ) (cs : List ℕ) → choose (b'$' ∷ (op_text op ++ c ∷ cs)) ≡ strcompare
unfolding op_text choose
choose_text op_lt c cs = refl
choose_text op_gt c cs = refl
choose_text op_ge c cs = refl
choose_text op_le c cs = refl
choose_text op_eq c cs = refl
choose_text op_ne c cs = refl

-- Behind any white space, each of the six operations with an argument of a byte or more is a
-- comparison of numbers, and with a dollar sign in front a comparison of texts.
pub choose-op_text :
    (ws : List ℕ) (op : Operation) (c : ℕ) (cs : List ℕ)
    → All (λ w. is_space w ≡ true) ws
    → (choose (ws ++ (op_text op ++ c ∷ cs)) ≡ numcompare)
      × (choose (ws ++ b'$' ∷ (op_text op ++ c ∷ cs)) ≡ strcompare)
choose-op_text ws op c cs h =
    (choose-space ws _ h ∙ choose_number op c cs, choose-space ws _ h ∙ choose_text op c cs)
