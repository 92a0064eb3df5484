-- ===== src/Config/Values.antt =====
-- ptree_ext.h, `pt_get`; log_levels.cpp, `parse_log_level`; the values of the configuration file.
use supervisorcpp.Prelude.{
  ℕ, ◌+◌, ◌-◌, ◌*◌, ◌%◌, ◌^◌, Bool, true, false, ◌&&◌, ◌||◌, List, [], ◌∷◌, none, some, ltb, leb,
  ◌==◌, if◌then◌else◌, ℤ, pos, negate, Bytes, codes, lower, bytes_eq, all_digits, digits_value,
  value_from, trim_left,
}
use supervisorcpp.PropertyTree.{PropertyTree}
use supervisorcpp.Util.Secure.{Checked, valid, refused}
use supervisorcpp.Config.Chain.{◌>>=◌}
use supervisorcpp.Config.Size.{size, invalid_format, out_of_range, parse_size}
use supervisorcpp.Config.Types.{LogLevel, trace, debug, info, warn, error, ignore}

unfoldable pub parse_log_level : Bytes → Checked LogLevel
unfolding lower bytes_eq
parse_log_level level_str =
    let s = lower level_str in
    if bytes_eq s (codes "trace")
    then valid trace
    else if bytes_eq s (codes "debug")
    then valid debug
    else if bytes_eq s (codes "info")
    then valid info
    else if bytes_eq s (codes "warn") || bytes_eq s (codes "warning")
    then valid warn
    else if bytes_eq s (codes "error")
    then valid error
    else if bytes_eq s (codes "ignore")
    then valid ignore
    else refused

unfoldable pub checked_size : Bytes → Checked ℕ
unfolding parse_size
checked_size s = elim (parse_size s) [
  | size n ↦ valid n
  | invalid_format ↦ refused
  | out_of_range ↦ refused
]

unfoldable pub parse_bool : Bytes → Checked Bool
unfolding lower bytes_eq
parse_bool s =
    let val = lower s in
    if bytes_eq val (codes "true") || (bytes_eq val (codes "yes") || bytes_eq val (codes "1"))
    then valid true
    else if bytes_eq val (codes "false") || (bytes_eq val (codes "no") || bytes_eq val (codes "0"))
    then valid false
    else refused

-- `from_chars` of an `int` over the whole text: digits behind an optional minus sign.
unfoldable pub from_chars : Bytes → Checked ℤ
unfolding all_digits value_from
from_chars [] = refused
from_chars (c ∷ []) = if all_digits (c ∷ []) then valid (pos (digits_value (c ∷ []))) else refused
from_chars (c ∷ (d ∷ r)) =
    if c == b'-' && all_digits (d ∷ r)
    then (if leb (digits_value (d ∷ r)) (2 ^ 31)
        then valid (negate (digits_value (d ∷ r)))
        else refused)
    else if all_digits (c ∷ (d ∷ r)) && ltb (digits_value (c ∷ (d ∷ r))) (2 ^ 31)
    then valid (pos (digits_value (c ∷ (d ∷ r))))
    else refused

abbrev is_octal : ℕ → Bool
is_octal c = leb b'0' c && leb c b'7'

unfoldable pub leading_octal : Bytes → List ℕ
leading_octal [] = []
leading_octal (c ∷ r) = if is_octal c then c ∷ leading_octal r else []

unfoldable pub octal_from : ℕ → Bytes → ℕ
octal_from acc [] = acc
octal_from acc (c ∷ r) = octal_from (acc * 8 + (c - b'0')) r

unfoldable pub unsigned_octal : Bytes → Checked ℕ
unfolding leading_octal octal_from
unsigned_octal s = elim (leading_octal s) [
  | [] ↦ refused
  | c ∷ r ↦ if ltb (octal_from 0 (c ∷ r)) (2 ^ 64) then valid (octal_from 0 (c ∷ r)) else refused
]

-- `static_cast<mode_t>(std::stoul(s, nullptr, 8))`: what stands behind the digits is left out.
unfoldable pub parse_umask : Bytes → Checked ℕ
unfolding trim_left unsigned_octal
parse_umask s = elim (trim_left s) [
  | [] ↦ refused
  | c ∷ r ↦
      if c == b'-'
      then unsigned_octal r >>= (λ n. valid ((2 ^ 64 - n) % 2 ^ 64 % 2 ^ 32))
      else (if c == b'+' then unsigned_octal r else unsigned_octal (c ∷ r))
        >>= (λ n. valid (n % 2 ^ 32))
]

module _ (t : PropertyTree) where
  open t use {Tree, get_string}

  -- `pt_get` of a text: what stood there stays where the name is not set.
  unfoldable pub pt_get_text : Bytes → Tree → Bytes → Bytes
  pt_get_text name tree value = elim (get_string name tree) [ none ↦ value | some s ↦ s ]

  -- `pt_get` with a function, and of a `bool` or an `int`.
  unfoldable pub pt_get {ℓ} : {V : Type ℓ} → Bytes → Tree → V → (Bytes → Checked V) → Checked V
  pt_get name tree value func = elim (get_string name tree) [ none ↦ valid value | some s ↦ func s ]
