-- ===== src/Config/Program.antt =====
-- config_parser.cpp, a `program:` section; secure.cpp, the paths that may be written to. The text of an
-- error is left out.
use supervisorcpp.Prelude.{
  ℕ, true, false, not, List, [], ◌∷◌, Option, none, some, if◌then◌else◌, pos, Bytes, codes,
}
use supervisorcpp.PropertyTree.{PropertyTree}
use supervisorcpp.Util.Secure.{
  Checked, valid, refused, is_absolute, sanitize_environment, validate_signal,
  validate_command_path, validate_path_in_allowed_dirs,
}
use supervisorcpp.Process.Types.{ProgramConfig, Log}
use supervisorcpp.Config.Chain.{◌>>=◌, of_option}
use supervisorcpp.Config.Outside.{Outside}
use supervisorcpp.Config.Text.{substitute_variables}
use supervisorcpp.Config.Values.{
  checked_size, parse_bool, from_chars, parse_umask, pt_get_text, pt_get,
}

abbrev pub default_log : Log
default_log = record { file = none; file_maxbytes = 52428800; file_backups = pos 10 }

abbrev pub default_program : Bytes → ProgramConfig
default_program name = record {
  name = name;
  command = [];
  environment = [];
  directory = none;
  autorestart = true;
  user = codes "root";
  stdout_log = default_log;
  stderr_log = default_log;
  redirect_stderr = false;
  startsecs = pos 1;
  startretries = pos 3;
  stopwaitsecs = pos 10;
  stopsignal = codes "TERM";
  umask = none;
}

abbrev not_empty : Bytes → Checked (Unit {0})
not_empty [] = refused
not_empty (_ ∷ _) = valid tt

-- `validate_canonicalize_path`: the path itself, or its parent with the name.
unfoldable pub resolve_path : Outside → Bytes → Option Bytes
resolve_path o path = elim (o.canonical path) [
  | some p ↦ some p
  | none ↦
      let parent = o.parent_path path in
      elim (o.canonical (elim parent [ [] ↦ o.current_path | c ∷ r ↦ c ∷ r ])) [
        | none ↦ none
        | some p ↦ some (o.join p (o.filename path))
      ]
]

abbrev pub allowed_log_dirs : Outside → List Bytes
allowed_log_dirs o =
    o.first_weakly_canonical (codes "/var/log")
    ∷ o.first_weakly_canonical (codes "/tmp")
    ∷ o.first_weakly_canonical o.first_temp_directory_path
    ∷ []

unfoldable pub validate_log_path : Outside → Bytes → Checked Bytes
unfolding resolve_path validate_path_in_allowed_dirs
validate_log_path o path = validate_path_in_allowed_dirs (resolve_path o path) (allowed_log_dirs o)

abbrev pub allowed_pidfile_dirs : Outside → List Bytes
allowed_pidfile_dirs o =
    o.first_weakly_canonical (codes "/run")
    ∷ o.first_weakly_canonical (codes "/var/run")
    ∷ o.first_weakly_canonical (codes "/tmp")
    ∷ o.first_weakly_canonical o.first_temp_directory_path
    ∷ []

unfoldable pub validate_pidfile_path : Outside → Bytes → Checked Bytes
unfolding resolve_path validate_path_in_allowed_dirs
validate_pidfile_path o path =
    if not (is_absolute path)
    then refused
    else validate_path_in_allowed_dirs (resolve_path o path) (allowed_pidfile_dirs o)

-- The log file of a program, where one is set.
unfoldable pub validate_log_file : Outside → Option Bytes → Checked (Option Bytes)
unfolding validate_log_path
validate_log_file o none = valid none
validate_log_file o (some path) = do p ← validate_log_path o path; valid (some p)

unfoldable pub program_umask : Bytes → Checked (Option ℕ)
unfolding parse_umask
program_umask s = do n ← parse_umask s; valid (some n)

-- What follows the reading of a program's values.
unfoldable pub check_program : Outside → ProgramConfig → Checked ProgramConfig
unfolding substitute_variables validate_command_path validate_log_file
check_program o prog = do
  _ ← validate_command_path o.stat (substitute_variables prog.name prog.command)
  out ← validate_log_file o prog.stdout_log.file
  err ← validate_log_file o prog.stderr_log.file
  valid (record prog {
    command = substitute_variables prog.name prog.command;
    stdout_log = record prog.stdout_log { file = out };
    stderr_log = record prog.stderr_log { file = err };
  })

module _ (t : PropertyTree) (o : Outside) where
  open t use {Tree, get_string}

  -- The text is the map of the grammar; the unsafe entries are left out.
  unfoldable pub parse_environment : Bytes → Checked (List (Bytes × Bytes))
  unfolding sanitize_environment
  parse_environment s = do
    parsed_env ← of_option (o.environment_list s)
    valid (sanitize_environment parsed_env)

  abbrev optional_path : Bytes → Tree → (Bytes → Bytes) → Option Bytes
  optional_path name tree f = elim (get_string name tree) [ none ↦ none | some s ↦ some (f s) ]

  -- The values of a program, before they are checked.
  unfoldable pub read_program : Bytes → Tree → Checked ProgramConfig
  unfolding parse_environment pt_get_text pt_get substitute_variables validate_signal program_umask
  read_program name tree = do
    command ← of_option (get_string (codes "command") tree)
    _ ← not_empty command
    environment ← pt_get t (codes "environment") tree [] parse_environment
    autorestart ← pt_get t (codes "autorestart") tree true parse_bool
    redirect_stderr ← pt_get t (codes "redirect_stderr") tree false parse_bool
    startretries ← pt_get t (codes "startretries") tree (pos 3) from_chars
    startsecs ← pt_get t (codes "startsecs") tree (pos 1) from_chars
    stderr_maxbytes ← pt_get t (codes "stderr_logfile_maxbytes") tree 52428800 checked_size
    stderr_backups ← pt_get t (codes "stderr_logfile_backups") tree (pos 10) from_chars
    stdout_maxbytes ← pt_get t (codes "stdout_logfile_maxbytes") tree 52428800 checked_size
    stdout_backups ← pt_get t (codes "stdout_logfile_backups") tree (pos 10) from_chars
    stopsignal ← pt_get t (codes "stopsignal") tree (codes "TERM") validate_signal
    stopwaitsecs ← pt_get t (codes "stopwaitsecs") tree (pos 10) from_chars
    umask ← pt_get t (codes "umask") tree none program_umask
    valid (record (default_program name) {
      command = command;
      environment = environment;
      autorestart = autorestart;
      directory = optional_path (codes "directory") tree (λ s. s);
      redirect_stderr = redirect_stderr;
      startretries = startretries;
      startsecs = startsecs;
      stderr_log = record {
        file = optional_path (codes "stderr_logfile") tree (substitute_variables name);
        file_maxbytes = stderr_maxbytes;
        file_backups = stderr_backups;
      };
      stdout_log = record {
        file = optional_path (codes "stdout_logfile") tree (substitute_variables name);
        file_maxbytes = stdout_maxbytes;
        file_backups = stdout_backups;
      };
      stopsignal = stopsignal;
      stopwaitsecs = stopwaitsecs;
      umask = umask;
      user = pt_get_text t (codes "user") tree (codes "root");
    })
