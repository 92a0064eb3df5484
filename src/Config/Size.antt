-- ===== src/Config/Size.antt =====
-- config_types.h, `parse_size`: "10MB" into bytes. The arithmetic is that of a 64-bit `size_t`.
use supervisorcpp.Prelude.{
  lower, is_digit, is_space, trim_left, all_digits, value_from, digits_value, ℕ, ◌-◌, ◌*◌, ◌%◌, ◌^◌,
  ◌<◌, Bool, true, false, not, ◌||◌, [], ◌∷◌, ◌++◌, Option, none, some, leb, ltb, if◌then◌else◌,
  bytes_eq, Bytes, codes, length, take, drop, ◌≡◌, ◌≢◌, refl, arith, length-append, take_exact,
  drop_exact,
}

pub data SizeResult : Type 0 where
  size : ℕ → SizeResult
  invalid_format out_of_range : SizeResult

-- `boost::iequals`.
abbrev iequals : Bytes → Bytes → Bool
iequals a b = bytes_eq (lower a) (lower b)

-- Drops the space behind the last other byte.
unfoldable pub trim_right : Bytes → Bytes
trim_right [] = []
trim_right (c ∷ r) = elim (trim_right r) [
  | [] ↦ if is_space c then [] else c ∷ []
  | x ∷ s ↦ c ∷ x ∷ s
]

-- The suffix, and the multiplier that it stands for.
unfoldable pub multiplier : Bytes → Option ℕ
unfolding lower
multiplier suffix =
    if iequals suffix (codes "kB")
    then some 1024
    else if iequals suffix (codes "MB")
    then some 1048576
    else if iequals suffix (codes "gB")
    then some 1073741824
    else none

abbrev is_nil : Bytes → Bool
is_nil [] = true
is_nil (_ ∷ _) = false

-- The `try` block: `stoull` throws `out_of_range` from 2 ^ 64 on, and the product wraps.
unfoldable pub parse_number : Bytes → ℕ → SizeResult
unfolding trim_left trim_right all_digits value_from
parse_number num_str times =
    let trimmed = trim_right (trim_left num_str) in
    if is_nil trimmed || not (all_digits trimmed)
    then invalid_format
    else if leb (2 ^ 64) (digits_value trimmed)
    then out_of_range
    else size (digits_value trimmed * times % 2 ^ 64)

unfoldable pub parse_size : Bytes → SizeResult
unfolding parse_number multiplier
parse_size size_str =
    if is_nil size_str
    then size 0
    else if ltb (length size_str) 2
    then parse_number size_str 1
    else (let front = length size_str - 2 in
        elim (multiplier (drop front size_str)) [
          | none ↦ parse_number size_str 1
          | some times ↦ parse_number (take front size_str) times
        ])

digit_not_space : (c : ℕ) → is_digit c ≡ true → is_space c ≡ false
digit_not_space c h = ground arith

trim_left-digits : (ds : Bytes) → all_digits ds ≡ true → trim_left ds ≡ ds
unfolding trim_left all_digits
trim_left-digits [] h = refl
trim_left-digits (c ∷ r) h = ground arith

trim_right-digits : (ds : Bytes) → all_digits ds ≡ true → trim_right ds ≡ ds
unfolding trim_right all_digits
trim_right-digits [] h = refl
trim_right-digits (c ∷ []) h = ground arith
trim_right-digits (c ∷ x ∷ r) h = ground (arith, trim_right-digits (x ∷ r))

parse_number-digits :
    (ds : Bytes) (times : ℕ)
    → all_digits ds ≡ true
    → ds ≢ []
    → digits_value ds < 2 ^ 64
    → parse_number ds times ≡ size (digits_value ds * times % 2 ^ 64)
unfolding parse_number
parse_number-digits [] times h n small = absurd (n refl)
parse_number-digits (c ∷ r) times h n small =
    rw (trim_left-digits (c ∷ r) h, trim_right-digits (c ∷ r) h, h, parse_number) (ground arith)

not_nil : (ds suffix : Bytes) → ds ≢ [] → is_nil (ds ++ suffix) ≡ false
not_nil [] suffix n = absurd (n refl)
not_nil (c ∷ r) suffix n = refl

-- A decimal number below 2 ^ 64 with one of the three suffixes, in either case, is the number times
-- the suffix's multiplier, modulo 2 ^ 64: a product out of range wraps and is not reported.
parse_size-suffix :
    (ds suffix : Bytes) (times : ℕ)
    → all_digits ds ≡ true
    → ds ≢ []
    → digits_value ds < 2 ^ 64
    → length suffix ≡ 2
    → multiplier suffix ≡ some times
    → parse_size (ds ++ suffix) ≡ size (digits_value ds * times % 2 ^ 64)
unfolding parse_size
parse_size-suffix ds suffix times h n small two e =
    let total = length-append ds suffix in
    let long : ltb (length (ds ++ suffix)) 2 ≡ false = ground arith in
    let front : length (ds ++ suffix) - 2 ≡ length ds = omega arith in
    rw (not_nil ds suffix n, long, front, drop_exact ds suffix, e, parse_size)
      (rw (front, take_exact ds suffix) (parse_number-digits ds times h n small))
