-- ===== src/Prelude/Decimal.antt =====
-- Decimal numbers as the standard library prints and reads them.
use Prim.Native.Nat.{ℕ, zero, suc, ◌+◌, ◌-◌, ◌*◌, ◌/◌, ◌%◌, ◌^◌, ◌≤◌, ◌<◌}
use mathlib.Core.Path.{◌≡◌, refl, ap, ◌∙◌}
use mathlib.Core.Logic.{◌≢◌, inl, inr}
use mathlib.Core.Bool.{Bool, true, ◌&&◌, ◌||◌}
use mathlib.Core.Option.{Option, none, some}
use mathlib.Core.List.{[], ◌∷◌, ◌++◌}
use native.Mathlib.Omega.{arith}
use supervisorcpp.Prelude.Tests.{ltb, leb, ◌==◌, if◌then◌else◌, Bool-cases}
use supervisorcpp.Prelude.Text.{Bytes}

abbrev pub is_digit : ℕ → Bool
is_digit c = leb b'0' c && leb c b'9'

-- `isspace` in the C locale.
abbrev pub is_space : ℕ → Bool
is_space c = c == b' ' || (leb 9 c && leb c 13)

unfoldable pub trim_left : Bytes → Bytes
trim_left [] = []
trim_left (c ∷ r) = if is_space c then trim_left r else c ∷ r

unfoldable pub all_digits : Bytes → Bool
all_digits [] = true
all_digits (c ∷ r) = is_digit c && all_digits r

-- The decimal value, before any check of its range.
unfoldable pub value_from : ℕ → Bytes → ℕ
value_from acc [] = acc
value_from acc (c ∷ r) = value_from (acc * 10 + (c - b'0')) r

abbrev pub digits_value : Bytes → ℕ
digits_value = value_from 0

-- The digits that the text begins with.
unfoldable pub leading_digits : Bytes → Bytes
leading_digits [] = []
leading_digits (c ∷ r) = if is_digit c then c ∷ leading_digits r else []

-- Digits from the start of the text, below 2 ^ 64.
unfoldable pub unsigned : Bytes → Option ℕ
unfolding leading_digits value_from
unsigned s = elim (leading_digits s) [
  | [] ↦ none
  | c ∷ r ↦ if ltb (digits_value (c ∷ r)) (2 ^ 64) then some (digits_value (c ∷ r)) else none
]

-- The negative of an unsigned number, as `strtoull` takes it.
abbrev wrap_negative : Option ℕ → Option ℕ
wrap_negative none = none
wrap_negative (some n) = some ((2 ^ 64 - n) % 2 ^ 64)

-- `std::stoull`; `none` where it throws. It skips space, takes a sign, and stops at the first byte
-- that is no digit.
unfoldable pub stoull : Bytes → Option ℕ
unfolding trim_left unsigned
stoull s = elim (trim_left s) [
  | [] ↦ none
  | c ∷ r ↦
      if c == b'-'
      then wrap_negative (unsigned r)
      else if c == b'+'
      then unsigned r
      else unsigned (c ∷ r)
]

-- `fuel` digits are enough below `10 ^ fuel`.
unfoldable pub decimal_from : ℕ → ℕ → Bytes
decimal_from zero n = (b'0' + n % 10) ∷ []
decimal_from (suc fuel) n =
    let rest = decimal_from fuel (n / 10) in
    if ltb n 10 then (b'0' + n) ∷ [] else rest ++ (b'0' + n % 10) ∷ []

-- `std::to_string`, and `<<` on an unsigned number.
unfoldable pub decimal : ℕ → Bytes
unfolding decimal_from
decimal n = decimal_from n n

all_digits-append :
    (a b : Bytes) → all_digits a ≡ true → all_digits b ≡ true → all_digits (a ++ b) ≡ true
unfolding all_digits
all_digits-append [] b h k = k
all_digits-append (c ∷ a) b h k = ground (arith, all_digits-append a b)

value_from-append :
    (acc : ℕ) (a : Bytes) (d : ℕ)
    → value_from acc (a ++ d ∷ []) ≡ value_from acc a * 10 + (d - b'0')
unfolding value_from
value_from-append acc [] d = refl
value_from-append acc (c ∷ a) d = value_from-append (acc * 10 + (c - b'0')) a d

one_digit : (n : ℕ) → n < 10 → all_digits ((b'0' + n) ∷ []) ≡ true
unfolding all_digits
one_digit n h = ground arith

decimal_from-all_digits : (fuel n : ℕ) → n ≤ fuel → all_digits (decimal_from fuel n) ≡ true
unfolding decimal_from
decimal_from-all_digits zero n h = one_digit (n % 10) (omega arith)
decimal_from-all_digits (suc fuel) n h = elim (Bool-cases (ltb n 10)) [
  | inl few ↦ rw few (one_digit n (ground arith))
  | inr many ↦ rw many (
      all_digits-append (decimal_from fuel (n / 10)) ((b'0' + n % 10) ∷ [])
        (decimal_from-all_digits fuel (n / 10) (ground arith)) (one_digit (n % 10) (omega arith)))
]

decimal_from-value : (fuel n : ℕ) → n ≤ fuel → digits_value (decimal_from fuel n) ≡ n
unfolding decimal_from value_from
decimal_from-value zero n h = omega arith
decimal_from-value (suc fuel) n h = elim (Bool-cases (ltb n 10)) [
  | inl few ↦ rw few (omega arith)
  | inr many ↦ rw many (
      value_from-append 0 (decimal_from fuel (n / 10)) (b'0' + n % 10)
      ∙ ground (arith, decimal_from-value fuel (n / 10) (ground arith)))
]

append-not_nil : (a : Bytes) (d : ℕ) → a ++ d ∷ [] ≢ []
append-not_nil [] d e = cc
append-not_nil (c ∷ a) d e = cc

decimal_from-not_nil : (fuel n : ℕ) → decimal_from fuel n ≢ []
unfolding decimal_from
decimal_from-not_nil zero n = λ e. cc
decimal_from-not_nil (suc fuel) n = elim (Bool-cases (ltb n 10)) [
  | inl few ↦ rw few (λ e. cc)
  | inr many ↦ rw many (append-not_nil (decimal_from fuel (n / 10)) (b'0' + n % 10))
]

pub decimal-all_digits : (n : ℕ) → all_digits (decimal n) ≡ true
unfolding decimal
decimal-all_digits n = decimal_from-all_digits n n (omega arith)

pub decimal-not_nil : (n : ℕ) → decimal n ≢ []
unfolding decimal
decimal-not_nil n = decimal_from-not_nil n n

decimal-value : (n : ℕ) → digits_value (decimal n) ≡ n
unfolding decimal
decimal-value n = decimal_from-value n n (omega arith)

-- Digits are followed by something that is none.
leading_digits-append :
    (ds r : Bytes) → all_digits ds ≡ true → leading_digits r ≡ [] → leading_digits (ds ++ r) ≡ ds
unfolding all_digits leading_digits
leading_digits-append [] r h k = k
leading_digits-append (c ∷ ds) r h k = ground (arith, leading_digits-append ds r)

unsigned-digits :
    (ds r : Bytes)
    → all_digits ds ≡ true
    → ds ≢ []
    → leading_digits r ≡ []
    → digits_value ds < 2 ^ 64
    → unsigned (ds ++ r) ≡ some (digits_value ds)
unfolding unsigned
unsigned-digits [] r h n k small = absurd (n refl)
unsigned-digits (c ∷ ds) r h n k small =
    rw (leading_digits-append (c ∷ ds) r h k, unsigned) (ground arith)

stoull-digits :
    (ds r : Bytes)
    → all_digits ds ≡ true
    → ds ≢ []
    → leading_digits r ≡ []
    → digits_value ds < 2 ^ 64
    → stoull (ds ++ r) ≡ some (digits_value ds)
unfolding stoull all_digits
stoull-digits [] r h n k small = absurd (n refl)
stoull-digits (c ∷ ds) r h n k small = ground (arith, unsigned-digits (c ∷ ds) r h n k small)

-- A number that was printed is read back, whatever follows that is no digit.
pub stoull-decimal :
    (n : ℕ) (r : Bytes) → n < 2 ^ 64 → leading_digits r ≡ [] → stoull (decimal n ++ r) ≡ some n
stoull-decimal n r small k =
    stoull-digits (decimal n) r (decimal-all_digits n) (decimal-not_nil n) k
      (omega (arith, decimal-value n))
    ∙ ap some (decimal-value n)

leading_digits-digits : (ds : Bytes) → all_digits ds ≡ true → leading_digits ds ≡ ds
unfolding all_digits leading_digits
leading_digits-digits [] h = refl
leading_digits-digits (c ∷ ds) h = ground (arith, leading_digits-digits ds)

unsigned-large : (ds : Bytes) → all_digits ds ≡ true → 2 ^ 64 ≤ digits_value ds → unsigned ds ≡ none
unfolding unsigned
unsigned-large [] h large = refl
unsigned-large (c ∷ ds) h large = rw (leading_digits-digits (c ∷ ds) h, unsigned) (ground arith)

-- Digits of a number that is out of range.
pub stoull-large : (ds : Bytes) → all_digits ds ≡ true → 2 ^ 64 ≤ digits_value ds → stoull ds ≡ none
unfolding stoull all_digits
stoull-large [] h large = refl
stoull-large (c ∷ ds) h large = ground (arith, unsigned-large (c ∷ ds) h large)

stoull-space : (r : Bytes) → stoull (b' ' ∷ r) ≡ stoull r
unfolding stoull
stoull-space r = refl
