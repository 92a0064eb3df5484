-- ===== src/Util/Escape.antt =====
-- util/string.cpp: `escape_str`, `escape_xml`, `glob_to_regex`.
use supervisorcpp.Prelude.{
  ℕ, ◌+◌, ◌-◌, Bool, true, not, ◌&&◌, ◌||◌, [], ◌∷◌, ◌++◌, Option, none, some, ◌==◌, if◌then◌else◌,
  length, take, drop, length-append, append_assoc, take_exact, drop_exact, Bytes, codes, ◌≡◌, refl,
  sym, ap, ◌∙◌, arith, bytes_eq, inl, inr, Option-cases,
}

-- The substitution of each byte; the C++ map is only searched.
abbrev pub Needles : Type 0
Needles = ℕ → Option Bytes

-- The loop: `i` counts the bytes passed, `last` is where the text not yet copied begins.
unfoldable pub escape_loop : Needles → Bytes → Bytes → ℕ → ℕ → Bytes → Bytes
escape_loop needles str [] i last out = out ++ drop last str
escape_loop needles str (c ∷ rest) i last out = elim (needles c) [
  | none ↦ escape_loop needles str rest (i + 1) last out
  | some s ↦
      escape_loop needles str rest (i + 1) (i + 1) (out ++ (take (i - last) (drop last str) ++ s))
]

unfoldable pub escape_str : Needles → Bytes → Bytes
unfolding escape_loop
escape_str needles str = escape_loop needles str str 0 0 []

unfoldable pub xml_needles : Needles
xml_needles c =
    if c == b'"'
    then some (codes "&quot;")
    else if c == 39
    then some (codes "&apos;")
    else if c == b'<'
    then some (codes "&lt;")
    else if c == b'>'
    then some (codes "&gt;")
    else if c == b'&'
    then some (codes "&amp;")
    else none

unfoldable pub escape_xml : Bytes → Bytes
escape_xml = escape_str xml_needles

abbrev backslashed : ℕ → Option Bytes
backslashed c = some (b'\\' ∷ c ∷ [])

abbrev is_regex_special : ℕ → Bool
is_regex_special c =
    c == b'.'
    || c == b'^'
    || c == b'$'
    || c == b'+'
    || c == b'('
    || c == b')'
    || c == b'['
    || c == b']'
    || c == b'{'
    || c == b'}'
    || c == b'\\'
    || c == b'|'

unfoldable pub glob_needles : Needles
glob_needles c =
    if is_regex_special c
    then backslashed c
    else if c == b'*'
    then some (codes ".*")
    else if c == b'?'
    then some (codes ".")
    else none

unfoldable pub glob_to_regex : Bytes → Bytes
glob_to_regex = escape_str glob_needles

-- Byte by byte, with no indices.
abbrev pub substitute : Needles → ℕ → Bytes
substitute needles c = elim (needles c) [ none ↦ c ∷ [] | some s ↦ s ]

unfoldable pub escaped_bytes : Needles → Bytes → Bytes
escaped_bytes needles [] = []
escaped_bytes needles (c ∷ r) = substitute needles c ++ escaped_bytes needles r

segment_lem :
    (done mid rest str : Bytes) (i last : ℕ)
    → str ≡ done ++ (mid ++ rest)
    → i ≡ length done + length mid
    → last ≡ length done
    → take (i - last) (drop last str) ≡ mid
segment_lem done mid rest str i last e ei el =
    let len : i - last ≡ length mid = omega arith in
    rw (len, el, e) (rw (drop_exact done (mid ++ rest)) (take_exact mid rest))

-- `mid` is the text that is not yet copied.
escape_loop_invariant :
    (needles : Needles) (rest done mid out str : Bytes) (i last : ℕ)
    → str ≡ done ++ (mid ++ rest)
    → i ≡ length done + length mid
    → last ≡ length done
    → escape_loop needles str rest i last out ≡ out ++ (mid ++ escaped_bytes needles rest)
unfolding escape_loop escaped_bytes
escape_loop_invariant needles [] done mid out str i last e ei el =
    ap (◌++◌ out) (rw (el, e) (drop_exact done (mid ++ [])))
escape_loop_invariant needles (c ∷ rest) done mid out str i last e ei el =
    let passed : str ≡ done ++ ((mid ++ c ∷ []) ++ rest) =
      e ∙ ap (◌++◌ done) (sym (append_assoc mid (c ∷ []) rest)) in
    elim (Option-cases (needles c)) [
      | inl n ↦
          rw (n, escape_loop)
            (escape_loop_invariant needles rest done (mid ++ c ∷ []) out str (i + 1) last passed
                (omega (arith, length-append mid (c ∷ []))) el
              ∙ ap (◌++◌ out) (append_assoc mid (c ∷ []) (escaped_bytes needles rest))
              ∙ ap (λ t. out ++ (mid ++ (t ++ escaped_bytes needles rest))) (sym (kept n)))
      | inr (s, n) ↦
          let whole = done ++ (mid ++ c ∷ []) in
          rw (n, escape_loop, segment_lem done mid (c ∷ rest) str i last e ei el)
            (escape_loop_invariant needles rest whole [] (out ++ (mid ++ s)) str (i + 1) (i + 1)
                (passed ∙ sym (append_assoc done (mid ++ c ∷ []) rest))
                (omega (arith, length-append done (mid ++ c ∷ []), length-append mid (c ∷ [])))
                (omega (arith, length-append done (mid ++ c ∷ []), length-append mid (c ∷ [])))
              ∙ (simp append_assoc)
              ∙ ap (λ t. out ++ (mid ++ (t ++ escaped_bytes needles rest))) (sym (replaced n)))
    ]
  where
    kept : needles c ≡ none → substitute needles c ≡ c ∷ []
    kept n = rw (n, substitute)

    replaced : {s : Bytes} → needles c ≡ some s → substitute needles c ≡ s
    replaced n = rw (n, substitute)

-- The loop with its two indices is the substitution byte by byte.
escape_str-escaped_bytes :
    (needles : Needles) (str : Bytes) → escape_str needles str ≡ escaped_bytes needles str
unfolding escape_str
escape_str-escaped_bytes needles str =
    escape_loop_invariant needles str [] [] [] str 0 0 refl (omega arith) refl

-- The predefined entities of XML.
unfoldable pub entity : Bytes → Bytes
unfolding bytes_eq
entity name =
    if bytes_eq name (codes "quot")
    then b'"' ∷ []
    else if bytes_eq name (codes "apos")
    then 39 ∷ []
    else if bytes_eq name (codes "lt")
    then b'<' ∷ []
    else if bytes_eq name (codes "gt")
    then b'>' ∷ []
    else if bytes_eq name (codes "amp")
    then b'&' ∷ []
    else []

-- What an XML reader makes of character data: outside of a reference, or inside with its name.
unfoldable pub decode_xml : Option Bytes → Bytes → Bytes
unfolding entity
decode_xml state [] = []
decode_xml none (c ∷ r) = if c == b'&' then decode_xml (some []) r else c ∷ decode_xml none r
decode_xml (some name) (c ∷ r) =
    if c == b';' then entity name ++ decode_xml none r else decode_xml (some (name ++ c ∷ [])) r

decode_xml-substitute :
    (c : ℕ) (rest : Bytes)
    → decode_xml none (substitute xml_needles c ++ rest) ≡ c ∷ decode_xml none rest
unfolding decode_xml xml_needles
decode_xml-substitute c rest = ground arith

decode_xml-escaped_bytes : (s : Bytes) → decode_xml none (escaped_bytes xml_needles s) ≡ s
unfolding escaped_bytes
decode_xml-escaped_bytes [] = unfold decode_xml in refl
decode_xml-escaped_bytes (c ∷ r) =
    decode_xml-substitute c (escaped_bytes xml_needles r) ∙ ap (◌∷◌ c) (decode_xml-escaped_bytes r)

-- No byte that opens or closes markup or a quoted value.
abbrev is_char_data : ℕ → Bool
is_char_data c = not (c == b'<' || c == b'>' || c == b'"' || c == 39)

unfoldable pub all_char_data : Bytes → Bool
all_char_data [] = true
all_char_data (c ∷ r) = is_char_data c && all_char_data r

substitute-all_char_data :
    (c : ℕ) (r : Bytes) → all_char_data (substitute xml_needles c ++ r) ≡ all_char_data r
unfolding all_char_data xml_needles
substitute-all_char_data c r = ground arith

escaped_bytes-all_char_data : (s : Bytes) → all_char_data (escaped_bytes xml_needles s) ≡ true
unfolding escaped_bytes
escaped_bytes-all_char_data [] = unfold all_char_data in refl
escaped_bytes-all_char_data (c ∷ r) =
    substitute-all_char_data c (escaped_bytes xml_needles r) ∙ escaped_bytes-all_char_data r

-- Escaped text holds no angle bracket and no quote, and an XML reader gets back what was escaped,
-- whatever bytes it holds.
pub escape_xml_lem :
    (s : Bytes) → (all_char_data (escape_xml s) ≡ true) × (decode_xml none (escape_xml s) ≡ s)
unfolding escape_xml
escape_xml_lem s =
    let bytewise = escape_str-escaped_bytes xml_needles s in
    (
      ap all_char_data bytewise ∙ escaped_bytes-all_char_data s,
      ap (decode_xml none) bytewise ∙ decode_xml-escaped_bytes s,
    )
