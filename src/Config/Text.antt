-- ===== src/Config/Text.antt =====
-- ini_reader.h, `strip_inline_comment_`; config_types.h, `substitute_variables`.
use supervisorcpp.Prelude.{
  find_from, find_from-bound, ℕ, zero, suc, ◌+◌, ◌≤◌, Bool, false, ◌&&◌, ◌||◌, [], ◌∷◌, ◌++◌, none,
  some, ◌==◌, if◌then◌else◌, Bytes, codes, length, take, drop, ◌≡◌, refl, sym, ap, ◌∙◌, arith, inl,
  inr, Option-cases, append_assoc, length-drop,
}

abbrev is_blank : ℕ → Bool
is_blank c = c == b' ' || c == 9

-- `line.substr(0, find_last_not_of(" \t") + 1)` of a prefix: the blanks at its end are dropped.
unfoldable pub trim_blanks : Bytes → Bytes
trim_blanks [] = []
trim_blanks (c ∷ r) = elim (trim_blanks r) [
  | [] ↦ if is_blank c then [] else c ∷ []
  | x ∷ s ↦ c ∷ x ∷ s
]

-- The loop from `i = 1`: `seen` is the line up to `i`, whose last byte is `line[i - 1]`.
unfoldable pub strip_from : Bytes → Bytes → ℕ → Bytes → Bytes
unfolding trim_blanks
strip_from line seen previous [] = line
strip_from line seen previous (c ∷ r) =
    if c == b';' && is_blank previous
    then trim_blanks seen
    else strip_from line (seen ++ c ∷ []) c r

unfoldable pub strip_inline_comment : Bytes → Bytes
unfolding strip_from
strip_inline_comment [] = []
strip_inline_comment (c ∷ r) = strip_from (c ∷ r) (c ∷ []) c r

-- No semicolon stands behind a blank.
unfoldable pub has_comment : ℕ → Bytes → Bool
has_comment previous [] = false
has_comment previous (c ∷ r) = (c == b';' && is_blank previous) || has_comment c r

strip_from-none :
    (line seen : Bytes) (previous : ℕ) (r : Bytes)
    → has_comment previous r ≡ false
    → strip_from line seen previous r ≡ line
unfolding strip_from has_comment
strip_from-none line seen previous [] h = refl
strip_from-none line seen previous (c ∷ r) h =
    ground (arith, strip_from-none line (seen ++ c ∷ []) c r)

-- Up to a first semicolon that stands behind a blank, the text is passed.
strip_from-comment :
    (line seen : Bytes) (previous : ℕ) (text comment : Bytes)
    → has_comment previous text ≡ false
    → strip_from line seen previous (text ++ b' ' ∷ b';' ∷ comment)
      ≡ trim_blanks (seen ++ (text ++ b' ' ∷ []))
unfolding strip_from has_comment
strip_from-comment line seen previous [] comment h = ground arith
strip_from-comment line seen previous (c ∷ text) comment h = ground (
  arith,
  strip_from-comment line (seen ++ c ∷ []) c text comment,
  append_assoc seen (c ∷ []) (text ++ b' ' ∷ []),
)

-- A line is kept as it is if no semicolon stands behind a blank in it; and if such a line goes on
-- with a space, a semicolon and a comment, it is cut there, and the blanks before the cut go too.
-- The first byte never begins a comment.
strip_inline_comment_lem :
    (c : ℕ) (text comment : Bytes)
    → has_comment c text ≡ false
    → (strip_inline_comment (c ∷ text) ≡ c ∷ text)
      × (strip_inline_comment (c ∷ (text ++ b' ' ∷ b';' ∷ comment))
          ≡ trim_blanks (c ∷ (text ++ b' ' ∷ [])))
unfolding strip_inline_comment
strip_inline_comment_lem c text comment h = (
  strip_from-none (c ∷ text) (c ∷ []) c text h,
  strip_from-comment (c ∷ (text ++ b' ' ∷ b';' ∷ comment)) (c ∷ []) c text comment h,
)

abbrev pub variable : Bytes
variable = codes "%(program_name)s"

-- The loop: `pos` moves behind each replacement, so what is behind it is all that is left to
-- search. One unit of fuel is a round.
unfoldable pub substitute_from : ℕ → Bytes → Bytes → Bytes
unfolding find_from
substitute_from zero name text = text
substitute_from (suc fuel) name text = elim (find_from variable text) [
  | none ↦ text
  | some i ↦ take i text ++ (name ++ substitute_from fuel name (drop (i + 16) text))
]

-- Each round takes at least 16 bytes off, so the length of the text is fuel enough.
unfoldable pub substitute_variables : Bytes → Bytes → Bytes
unfolding substitute_from
substitute_variables name input = substitute_from (length input) name input

substitute_from_nil : (f : ℕ) (name : Bytes) → substitute_from f name [] ≡ []
unfolding substitute_from
substitute_from_nil zero name = refl
substitute_from_nil (suc f) name = refl

-- More fuel than the text is long changes nothing.
substitute_from-fuel :
    (f g : ℕ) (name text : Bytes)
    → length text ≤ f
    → length text ≤ g
    → substitute_from f name text ≡ substitute_from g name text
unfolding substitute_from
substitute_from-fuel f g name [] hf hg =
    substitute_from_nil f name ∙ sym (substitute_from_nil g name)
substitute_from-fuel zero g name (c ∷ r) hf hg = absurd (omega arith)
substitute_from-fuel (suc f) zero name (c ∷ r) hf hg = absurd (omega arith)
substitute_from-fuel (suc f) (suc g) name (c ∷ r) hf hg =
    elim (Option-cases (find_from variable (c ∷ r))) [
      | inl e ↦ rw (e, substitute_from)
      | inr (i, e) ↦
          let bound = find_from-bound variable (c ∷ r) i e in
          let shorter = length-drop (i + 16) (c ∷ r) in
          rw (e, substitute_from)
            (ap (λ t. take i (c ∷ r) ++ (name ++ t))
              (substitute_from-fuel f g name (drop (i + 16) (c ∷ r)) (omega (arith, bound, shorter))
                (omega (arith, bound, shorter))))
    ]

-- A text with no `%(program_name)s` is kept. In any other the first one is replaced by the name,
-- and the rest, behind it, is treated in the same way: the name itself is not searched.
substitute_variables_lem :
    (name text : Bytes)
    → (find_from variable text ≡ none → substitute_variables name text ≡ text)
      × ((i : ℕ)
          → find_from variable text ≡ some i
          → substitute_variables name text
            ≡ take i text ++ (name ++ substitute_variables name (drop (i + 16) text)))
unfolding substitute_variables
substitute_variables_lem name text = (substitute_none name text, substitute_some name text)
  where
    substitute_none :
        (name text : Bytes)
        → find_from variable text ≡ none
        → substitute_from (length text) name text ≡ text
    substitute_none name [] e = refl
    substitute_none name (c ∷ r) e = rw (e, substitute_from)

    substitute_some :
        (name text : Bytes) (i : ℕ)
        → find_from variable text ≡ some i
        → substitute_from (length text) name text
          ≡ take i text
            ++ (name ++ substitute_from (length (drop (i + 16) text)) name (drop (i + 16) text))
    substitute_some name [] i e = absurd (omega (arith, find_from-bound variable [] i e))
    substitute_some name (c ∷ r) i e =
        let bound = find_from-bound variable (c ∷ r) i e in
        let shorter = length-drop (i + 16) (c ∷ r) in
        rw (e, substitute_from)
          (ap (λ t. take i (c ∷ r) ++ (name ++ t))
            (substitute_from-fuel (length r) (length (drop (i + 16) (c ∷ r))) name
              (drop (i + 16) (c ∷ r)) (omega (arith, bound, shorter)) (omega arith)))
