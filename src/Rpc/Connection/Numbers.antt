-- ===== src/Rpc/Connection/Numbers.antt =====
-- The `Content-Length` of headers that are made by printing a number: what `handle_read_` reads.
use supervisorcpp.Prelude.{
  ℕ, ◌+◌, ◌^◌, ◌<◌, Bool, true, false, not, ◌||◌, ◌==◌, ◌≤◌, [], ◌∷◌, ◌++◌, none, some, length,
  length-append, drop, drop_exact, take_exact, append_assoc, append-nil, Bytes, lower, lower-append,
  find_from, find_from-apart, apart, is_digit, is_space, trim_left, unsigned, all_digits,
  leading_digits, stoull, stoull-large, digits_value, ◌⊎◌, inl, inr, ◌&&◌, decimal,
  decimal-all_digits, decimal-not_nil, stoull-decimal, ◌≡◌, ◌≢◌, refl, sym, ap, ◌∙◌, arith,
}
use supervisorcpp.Rpc.Connection.{
  skip_blanks, up_to_line_end, header_number, content_length_name, content_length, blank_line,
  max_request_size, handle_headers, handle_request, handle_read, no_error, escapes,
}
use supervisorcpp.Rpc.Connection.Framing.{message, find_headers-message, handle_read-fits}

-- No digit begins a text whose first byte is none.
pub apart-digits :
    (x : ℕ) (p ds : Bytes) → is_digit x ≡ false → all_digits ds ≡ true → apart (x ∷ p) ds ≡ true
unfolding apart all_digits
apart-digits x p [] h k = refl
apart-digits x p (c ∷ ds) h k = ground (arith, apart-digits x p ds h)

up_to_line_end-digits : (ds s : Bytes) → all_digits ds ≡ true → up_to_line_end (ds ++ 13 ∷ s) ≡ ds
unfolding up_to_line_end all_digits
up_to_line_end-digits [] s h = refl
up_to_line_end-digits (c ∷ ds) s h = ground (arith, up_to_line_end-digits ds s)

header_number-digits :
    (ds s : Bytes)
    → ds ≢ []
    → all_digits ds ≡ true
    → header_number (b' ' ∷ (ds ++ 13 ∷ s)) ≡ stoull ds
unfolding header_number skip_blanks all_digits
header_number-digits [] s n h = absurd (n refl)
header_number-digits (c ∷ ds) s n h = ground (arith, up_to_line_end-digits (c ∷ ds) s h)

header_number-decimal :
    (n : ℕ) (s : Bytes) → n < 2 ^ 64 → header_number (b' ' ∷ (decimal n ++ 13 ∷ s)) ≡ some n
unfolding leading_digits
header_number-decimal n s small =
    header_number-digits (decimal n) s (decimal-not_nil n) (decimal-all_digits n)
    ∙ ap stoull (sym (append-nil (decimal n)))
    ∙ stoull-decimal n [] small refl

length-lower : (q : Bytes) → length (lower q) ≡ length q
unfolding lower
length-lower [] = refl
length-lower (c ∷ q) = omega (arith, length-lower q)

-- The first header of that name, in any case of its letters, is read.
content_length-found :
    (q name r : Bytes)
    → lower name ≡ content_length_name
    → length name ≡ 15
    → apart content_length_name (lower q) ≡ true
    → content_length (q ++ (name ++ r)) ≡ header_number r
unfolding content_length
content_length-found q name r named long one =
    let low : lower (q ++ (name ++ r)) ≡ lower q ++ (content_length_name ++ lower r) =
      lower-append q (name ++ r)
      ∙ ap (λ t. lower q ++ t) (lower-append name r ∙ ap (λ t. t ++ lower r) named) in
    let at =
      ap (find_from content_length_name) low
      ∙ find_from-apart content_length_name (lower q) (lower r) one in
    let behind : drop (length (lower q) + 15) (q ++ (name ++ r)) ≡ r =
      rw (length-lower q, ← long, ← length-append q name, ← append_assoc q name r)
        (drop_exact (q ++ name) r) in
    rw (at, behind, content_length)

-- A printed number with a line end behind it.
pub content_length-announced :
    (q name : Bytes) (n : ℕ) (s : Bytes)
    → lower name ≡ content_length_name
    → length name ≡ 15
    → apart content_length_name (lower q) ≡ true
    → n < 2 ^ 64
    → content_length (q ++ (name ++ b' ' ∷ (decimal n ++ 13 ∷ s))) ≡ some n
content_length-announced q name n s named long one small =
    content_length-found q name (b' ' ∷ (decimal n ++ 13 ∷ s)) named long one
    ∙ header_number-decimal n s small

-- Neither space nor the beginning of a number.
abbrev pub no_number : ℕ → Bool
no_number c = not (is_space c || (is_digit c || (c == b'-' || c == b'+')))

-- A text that begins with such a byte, or a line of digits that make up a number of 2 ^ 64 or more.
abbrev pub IsNoNumber : Bytes → Type 0
IsNoNumber v =
    ((c : ℕ) × (s : Bytes) × (v ≡ c ∷ s) × (no_number c ≡ true))
    ⊎ ((ds : Bytes) × (s : Bytes) × (v ≡ ds ++ 13 ∷ s)
        × (all_digits ds ≡ true)
        × (2 ^ 64 ≤ digits_value ds))

header_number-no_number : (c : ℕ) (s : Bytes) → no_number c ≡ true → header_number (c ∷ s) ≡ none
unfolding header_number skip_blanks up_to_line_end stoull trim_left unsigned leading_digits
header_number-no_number c s h = ground arith

header_number-large :
    (ds s : Bytes)
    → all_digits ds ≡ true
    → 2 ^ 64 ≤ digits_value ds
    → header_number (ds ++ 13 ∷ s) ≡ none
unfolding header_number skip_blanks all_digits
header_number-large [] s h large = absurd (omega (arith, large))
header_number-large (c ∷ ds) s h large =
    ground (arith, up_to_line_end-digits (c ∷ ds) s h, stoull-large (c ∷ ds) h large)

header_number-IsNoNumber : (v : Bytes) → IsNoNumber v → header_number v ≡ none
header_number-IsNoNumber v (inl (c, s, e, h)) = ap header_number e ∙ header_number-no_number c s h
header_number-IsNoNumber v (inr (ds, s, e, h, large)) =
    ap header_number e ∙ header_number-large ds s h large

-- Spaces and tabs.
unfoldable pub all_blanks : Bytes → Bool
all_blanks [] = true
all_blanks (c ∷ r) = (c == b' ' || c == 9) && all_blanks r

header_number-blanks :
    (b v : Bytes) → all_blanks b ≡ true → header_number (b ++ v) ≡ header_number v
unfolding header_number skip_blanks all_blanks
header_number-blanks [] v h = refl
header_number-blanks (c ∷ b) v h = ground (arith, header_number-blanks b v)

-- A request that has come in whole, whose `Content-Length:` is followed by any blanks and no number: an
-- exception leaves the handler of the read.
pub handle_read-no_number :
    (q name b v body : Bytes)
    → lower name ≡ content_length_name
    → length name ≡ 15
    → apart content_length_name (lower q) ≡ true
    → all_blanks b ≡ true
    → IsNoNumber v
    → apart blank_line (q ++ (name ++ (b ++ v))) ≡ true
    → length (message (q ++ (name ++ (b ++ v))) body) ≤ max_request_size
    → handle_read no_error (message (q ++ (name ++ (b ++ v))) body) [] ≡ escapes
unfolding handle_headers handle_request
handle_read-no_number q name b v body named long one blanks bad blank fits =
    let h = q ++ (name ++ (b ++ v)) in
    let number =
      content_length-found q name (b ++ v) named long one
      ∙ header_number-blanks b v blanks
      ∙ header_number-IsNoNumber v bad in
    handle_read-fits (message h body) [] (omega arith)
    ∙ rw (find_headers-message h body blank, handle_request)
        (rw (take_exact h (blank_line ++ body), number, handle_headers))
