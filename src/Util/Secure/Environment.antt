-- ===== src/Util/Secure/Environment.antt =====
-- util/secure.cpp, `sanitize_environment`: what passes.
use supervisorcpp.Prelude.{
  Bool, false, not, ◌&&◌, ◌||◌, List, [], ◌∷◌, bytes_eq, bytes_eq_iff, Bytes, ◌≡◌, refl, arith,
}
use supervisorcpp.Util.Secure.{sanitize_environment, is_valid_key, has_null}

unfoldable pub has_entry : Bytes → Bytes → List (Bytes × Bytes) → Bool
has_entry key value [] = false
has_entry key value ((k, v) ∷ r) = (bytes_eq k key && bytes_eq v value) || has_entry key value r

-- Exactly the entries pass whose name is not empty and has only letters, digits and underscores,
-- and whose value has no null byte.
sanitize_environment-has_entry :
    (key value : Bytes) (env : List (Bytes × Bytes))
    → has_entry key value (sanitize_environment env)
      ≡ (has_entry key value env && (is_valid_key key && not (has_null value)))
unfolding has_entry sanitize_environment is_valid_key
sanitize_environment-has_entry key value [] = refl
sanitize_environment-has_entry key value ((k, v) ∷ r) =
    ground
      (arith, sanitize_environment-has_entry key value r, bytes_eq_iff k key, bytes_eq_iff v value)
