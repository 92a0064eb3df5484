-- ===== src/Tests/Texts.antt =====
-- Escaping, paths, sizes, comments and variables.
use supervisorcpp.Prelude.{
  value_from, digits_value, all_digits, lower, ℕ, ◌+◌, true, false, List, [], ◌∷◌, some, none,
  codes, ◌≡◌, refl, Bytes, bytes_eq,
}
use supervisorcpp.Util.Escape.{escape_xml, escape_xml_lem, decode_xml, all_char_data}
use supervisorcpp.Util.Secure.{
  validate_path_in_allowed_dirs, valid, starts_with, validate_canonicalize_path,
}
use supervisorcpp.Config.Size.{parse_size, size, multiplier}
use supervisorcpp.Config.Text.{has_comment}
use supervisorcpp.Rpc.Server.{result, Handler}

half_gig : parse_size (codes " 512 mB") ≡ size 536870912
unfolding parse_size bytes_eq
half_gig = refl

abbrev markup : Bytes
markup = codes "a<b & c"

escape_xml_lem_example :
    (all_char_data (escape_xml markup) ≡ true) × (decode_xml none (escape_xml markup) ≡ markup)
escape_xml_lem_example = escape_xml_lem markup

abbrev two_entries : List (Bytes × Bytes)
two_entries = (codes "PATH", codes "/bin") ∷ (codes "A B", codes "x") ∷ []

abbrev dirs : List Bytes
dirs = codes "/tmp" ∷ codes "/var/log" ∷ []

accepted :
    validate_path_in_allowed_dirs (some (codes "/var/log/a")) dirs ≡ valid (codes "/var/log/a")
unfolding validate_path_in_allowed_dirs validate_canonicalize_path starts_with
accepted = refl

five_digits : all_digits (codes "5") ≡ true
unfolding all_digits
five_digits = refl

five : digits_value (codes "5") ≡ 5
unfolding value_from
five = refl

kilobytes : multiplier (codes "KB") ≡ some 1024
unfolding multiplier bytes_eq lower
kilobytes = refl

no_comment : has_comment b'k' (codes "ey=v") ≡ false
unfolding has_comment
no_comment = refl

abbrev template : Bytes
template = codes "/log/%(program_name)s.log"

-- A handler that counts its calls.
abbrev counts : Handler ℕ
counts params n = (n + 1, result (codes "ok"))
