-- ===== src/Util/Secure.antt =====
-- util/secure.cpp: the checks of signal names, environments and paths. What `stat`, `lstat` and
-- `fs::canonical` answer is an argument. The text of an error message is left out.
pub mod Environment
pub mod Paths
use supervisorcpp.Prelude.{
  ℕ, zero, suc, ◌+◌, ◌-◌, Bool, true, false, not, ◌&&◌, ◌||◌, List, [], ◌∷◌, ◌++◌, Option, none,
  some, ◌==◌, leb, if◌then◌else◌, bytes_eq, bytes_eq_iff, bytes_eq_refl, Bytes, codes, ◌≡◌, ◌≢◌,
  ◌↔◌, ◌⊎◌, refl, sym, ap, ◌∙◌, arith, inl, inr, Option-cases, Bool-cases, All,
}

pub data Checked {ℓ} (A : Type ℓ) : Type ℓ where
  valid : A → Checked A
  -- A `SecurityError`, or the `invalid_argument` of `validate_signal`.
  refused : Checked A

unfoldable pub any_equal : Bytes → List Bytes → Bool
unfolding bytes_eq
any_equal name [] = false
any_equal name (x ∷ r) = bytes_eq x name || any_equal name r

abbrev pub valid_signals : List Bytes
valid_signals =
    codes "TERM"
    ∷ codes "HUP"
    ∷ codes "INT"
    ∷ codes "QUIT"
    ∷ codes "KILL"
    ∷ codes "USR1"
    ∷ codes "USR2"
    ∷ codes "ABRT"
    ∷ codes "ALRM"
    ∷ codes "CONT"
    ∷ codes "STOP"
    ∷ []

-- `validate_signal`; the caller goes on with the name.
unfoldable pub validate_signal : Bytes → Checked Bytes
unfolding any_equal
validate_signal name = if any_equal name valid_signals then valid name else refused

-- `std::isalnum` in the C locale.
abbrev pub is_alnum : ℕ → Bool
is_alnum c =
    (leb b'0' c && leb c b'9') || ((leb b'A' c && leb c b'Z') || (leb b'a' c && leb c b'z'))

unfoldable pub all_key_bytes : Bytes → Bool
all_key_bytes [] = true
all_key_bytes (c ∷ r) = (is_alnum c || c == b'_') && all_key_bytes r

unfoldable pub is_valid_key : Bytes → Bool
unfolding all_key_bytes
is_valid_key [] = false
is_valid_key (c ∷ r) = all_key_bytes (c ∷ r)

-- `value.find('\0') != npos`.
unfoldable pub has_null : Bytes → Bool
has_null [] = false
has_null (c ∷ r) = c == 0 || has_null r

-- The map in the order of its keys; what stays keeps its place.
unfoldable pub sanitize_environment : List (Bytes × Bytes) → List (Bytes × Bytes)
unfolding is_valid_key has_null
sanitize_environment [] = []
sanitize_environment ((key, value) ∷ r) =
    let rest = sanitize_environment r in
    if not (is_valid_key key) then rest else if has_null value then rest else (key, value) ∷ rest

-- What `lstat` or `stat` reports of a file.
pub record FileStat : Type 0 where
  pub is_regular : Bool
  pub is_symlink : Bool
  pub is_directory : Bool
  pub owner : ℕ
  pub world_writable : Bool
  -- Any of the three execute bits.
  pub executable : Bool

-- `validate_config_file_security`, on the answers of `exists`, `lstat` and `getuid`.
unfoldable pub validate_config_file_security : Bool → Option FileStat → ℕ → Checked (Unit {0})
validate_config_file_security there status uid = if not there then refused else elim status [
  | none ↦ refused
  | some st ↦
      if not st.is_regular
      then refused
      else if not (st.owner == uid)
      then refused
      else if st.world_writable
      then refused
      else valid tt
]

-- `command.substr(0, command.find(' '))`.
unfoldable pub first_token : Bytes → Bytes
first_token [] = []
first_token (c ∷ r) = if c == b' ' then [] else c ∷ first_token r

abbrev pub is_absolute : Bytes → Bool
is_absolute [] = false
is_absolute (c ∷ r) = c == b'/'

-- `validate_command_path`; `stat` is asked about the first token.
unfoldable pub validate_command_path : (Bytes → Option FileStat) → Bytes → Checked (Unit {0})
unfolding first_token
validate_command_path stat command =
    let path = first_token command in
    if not (is_absolute path) then refused else elim (stat path) [
      | none ↦ refused
      | some st ↦
          if not st.is_regular && not st.is_symlink
          then refused
          else if not st.executable
          then refused
          else valid tt
    ]

-- `validate_socket_directory`, on the answer of `stat` for the parent directory.
unfoldable pub validate_socket_directory : Option FileStat → Checked (Unit {0})
validate_socket_directory none = refused
validate_socket_directory (some st) =
    if not st.is_directory then refused else if st.world_writable then refused else valid tt

-- `canonical_str.find(prefix_str) == 0`.
unfoldable pub starts_with : Bytes → Bytes → Bool
starts_with [] s = true
starts_with (p ∷ ps) [] = false
starts_with (p ∷ ps) (c ∷ s) = p == c && starts_with ps s

-- `validate_canonicalize_path` behind the resolution of the path, which is `none` where neither
-- the path nor its parent resolves.
unfoldable pub validate_canonicalize_path : Option Bytes → Bytes → Checked Bytes
unfolding starts_with
validate_canonicalize_path none allowed_prefix = refused
validate_canonicalize_path (some canonical) allowed_prefix =
    if starts_with allowed_prefix canonical then valid canonical else refused

-- `validate_path_in_allowed_dirs`: the first directory that accepts.
unfoldable pub validate_path_in_allowed_dirs : Option Bytes → List Bytes → Checked Bytes
unfolding validate_canonicalize_path
validate_path_in_allowed_dirs resolved [] = refused
validate_path_in_allowed_dirs resolved (d ∷ r) = elim (validate_canonicalize_path resolved d) [
  | valid p ↦ valid p
  | refused ↦ validate_path_in_allowed_dirs resolved r
]
