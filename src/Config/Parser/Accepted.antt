-- ===== src/Config/Parser/Accepted.antt =====
-- config_parser.cpp: what is checked of a program.
use supervisorcpp.Prelude.{
  true, false, List, [], ◌∷◌, Option, none, some, Bytes, codes, All, ◌≡◌, refl, sym, subst, inl,
  inr, Bool-cases, Option-cases, ◌||◌, arith,
}
use supervisorcpp.PropertyTree.{PropertyTree}
use supervisorcpp.Process.Types.{ProgramConfig}
use supervisorcpp.Util.Secure.{
  Checked, valid, any_equal, valid_signals, validate_signal, sanitize_environment, is_valid_key,
  has_null, validate_command_path, first_token, is_absolute, FileStat,
}
use supervisorcpp.Util.Secure.Paths.{HasPrefix, validate_path-HasPrefix}
use supervisorcpp.Config.Chain.{Ensures, Ensures-bind, Ensures-any, Ensures-imp, Ensures-self}
use supervisorcpp.Config.Outside.{Outside}
use supervisorcpp.Config.Text.{substitute_variables}
use supervisorcpp.Config.Values.{pt_get}
use supervisorcpp.Config.Program.{
  check_program, validate_log_file, validate_log_path, allowed_log_dirs, read_program,
  parse_environment,
}

-- The path of a log file, where there is one, begins with the text of an allowed directory's path. That
-- is less than to stand under it: with `/var/log` allowed, `/var/logs` begins so too.
abbrev pub BeginsAllowed : Outside → Option Bytes → Type 0
BeginsAllowed o none = Unit
BeginsAllowed o (some path) = HasPrefix (allowed_log_dirs o) path

-- The command up to its first space is an absolute path, and `stat` finds a file or a link there that
-- may be executed.
abbrev pub IsExecutable : Outside → Bytes → Type 0
IsExecutable o command =
    (is_absolute (first_token command) ≡ true)
    × ((st : FileStat) × (o.stat (first_token command) ≡ some st)
        × ((st.is_regular || st.is_symlink) ≡ true)
        × (st.executable ≡ true))

-- A name of letters, digits and underscores, and a value without null bytes.
abbrev pub IsSafeEntry : Bytes × Bytes → Type 0
IsSafeEntry (key, value) = (is_valid_key key ≡ true) × (has_null value ≡ false)

-- What the parser promises of a program.
pub record IsAccepted (o : Outside) (p : ProgramConfig) : Type 0 where
  pub command_executable : IsExecutable o p.command
  pub signal_known : any_equal p.stopsignal valid_signals ≡ true
  pub environment_safe : All IsSafeEntry p.environment
  pub stdout_allowed : BeginsAllowed o p.stdout_log.file
  pub stderr_allowed : BeginsAllowed o p.stderr_log.file

validate_command_path-IsExecutable :
    (o : Outside) (command : Bytes)
    → validate_command_path o.stat command ≡ valid tt
    → IsExecutable o command
unfolding validate_command_path
validate_command_path-IsExecutable o command e =
    elim (Option-cases (o.stat (first_token command))) [
      | inl absent ↦ absurd (ground (arith, e, absent))
      | inr (st, found) ↦ (
        ground (arith, e, found),
        (st, found, ground (arith, e, found), ground (arith, e, found)),
      )
    ]

validate_log_file-allowed :
    (o : Outside) (file : Option Bytes) → Ensures (BeginsAllowed o) (validate_log_file o file)
unfolding validate_log_file validate_log_path
validate_log_file-allowed o none = tt
validate_log_file-allowed o (some path) =
    Ensures-bind (HasPrefix (allowed_log_dirs o)) (BeginsAllowed o) (validate_log_path o path)
      (λ p. valid (some p))
      (Ensures-imp (λ p. validate_log_path o path ≡ valid p) (HasPrefix (allowed_log_dirs o))
        (validate_log_path o path) (λ p e. (validate_path-HasPrefix (allowed_log_dirs o) _ p e).1)
        (Ensures-self (validate_log_path o path)))
      (λ p h. h)

sanitize_environment-All : (env : List (Bytes × Bytes)) → All IsSafeEntry (sanitize_environment env)
unfolding sanitize_environment
sanitize_environment-All [] = tt
sanitize_environment-All ((key, value) ∷ r) = elim (Bool-cases (is_valid_key key)) [
  | inr bad ↦ rw bad (sanitize_environment-All r)
  | inl good ↦ elim (Bool-cases (has_null value)) [
    | inl null ↦ rw (good, null) (sanitize_environment-All r)
    | inr clean ↦ safe_head good clean (sanitize_environment-All r)
  ]
]
  where
    safe_head :
        is_valid_key key ≡ true
        → has_null value ≡ false
        → All IsSafeEntry (sanitize_environment r)
        → All IsSafeEntry (sanitize_environment ((key, value) ∷ r))
    safe_head good clean rest =
        let kept : sanitize_environment ((key, value) ∷ r) ≡ (key, value) ∷ sanitize_environment r =
          ground arith in
        subst (All IsSafeEntry) (sym kept) ((good, clean), rest)

-- What holds before the command and the log files are checked.
abbrev pub IsRead : ProgramConfig → Type 0
IsRead p = (any_equal p.stopsignal valid_signals ≡ true) × All IsSafeEntry p.environment

validate_signal-known :
    (name : Bytes) → Ensures (λ s. any_equal s valid_signals ≡ true) (validate_signal name)
unfolding validate_signal
validate_signal-known name = elim (Bool-cases (any_equal name valid_signals)) [
  | inl known ↦ rw known known
  | inr unknown ↦ rw unknown tt
]

module _ (t : PropertyTree) (o : Outside) where
  open t use {Tree, get_string}

  pt_get-Ensures :
      {V : Type 0} (P : V → Type 0) (name : Bytes) (tree : Tree) (value : V)
      (func : Bytes → Checked V)
      → P value
      → ((s : Bytes) → Ensures P (func s))
      → Ensures P (pt_get t name tree value func)
  unfolding pt_get
  pt_get-Ensures P name tree value func h k =
      elim (get_string name tree)
        as (λ g. Ensures P (elim g [ none ↦ valid value | some s ↦ func s ])) [
          | none ↦ h
          | some s ↦ k s
        ]

  parse_environment-safe : (s : Bytes) → Ensures (All IsSafeEntry) (parse_environment t o s)
  unfolding parse_environment
  parse_environment-safe s = Ensures-any (All IsSafeEntry) _ _ (λ env. sanitize_environment-All env)

  pub read_program-IsRead :
      (name : Bytes) (tree : Tree) → Ensures IsRead (read_program t o name tree)
  unfolding read_program any_equal
  read_program-IsRead name tree = Ensures-any IsRead _ _ λ command. Ensures-any IsRead _ _ λ given.
      Ensures-bind (All IsSafeEntry) IsRead _ _
        (pt_get-Ensures (All IsSafeEntry) _ tree [] (parse_environment t o) tt
          parse_environment-safe)
        λ environment safe. Ensures-any IsRead _ _ λ autorestart.
          Ensures-any IsRead _ _ λ redirect_stderr. Ensures-any IsRead _ _ λ startretries.
            Ensures-any IsRead _ _ λ startsecs. Ensures-any IsRead _ _ λ stderr_maxbytes.
              Ensures-any IsRead _ _ λ stderr_backups. Ensures-any IsRead _ _ λ stdout_maxbytes.
                Ensures-any IsRead _ _ λ stdout_backups.
                  Ensures-bind (λ s. any_equal s valid_signals ≡ true) IsRead _ _
                    (pt_get-Ensures (λ s. any_equal s valid_signals ≡ true) _ tree (codes "TERM")
                      validate_signal refl validate_signal-known)
                    λ stopsignal known.
                      Ensures-any IsRead _ _
                        λ stopwaitsecs. Ensures-any IsRead _ _ λ umask. (known, safe)

  pub check_program-IsAccepted :
      (p : ProgramConfig) → IsRead p → Ensures (IsAccepted o) (check_program o p)
  unfolding check_program
  check_program-IsAccepted p (known, safe) =
      Ensures-bind
        (λ u. validate_command_path o.stat (substitute_variables p.name p.command) ≡ valid u)
        (IsAccepted o) _ _ (Ensures-self _)
        λ u checked.
          Ensures-bind (BeginsAllowed o) (IsAccepted o) _ _
            (validate_log_file-allowed o p.stdout_log.file)
            λ out out_allowed.
              Ensures-bind (BeginsAllowed o) (IsAccepted o) _ _
                (validate_log_file-allowed o p.stderr_log.file)
                λ err err_allowed. record {
                  command_executable =
                      validate_command_path-IsExecutable o (substitute_variables p.name p.command)
                        checked;
                  signal_known = known;
                  environment_safe = safe;
                  stdout_allowed = out_allowed;
                  stderr_allowed = err_allowed;
                }
