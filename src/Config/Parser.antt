-- ===== src/Config/Parser.antt =====
-- config_parser.cpp: the configuration from its files. An error is a `ConfigParseError`; its text
-- is left out, and so is the log line for an included file.
pub mod Accepted
pub mod Kept
pub mod Names
pub mod Returned
use supervisorcpp.Prelude.{
  ℕ, zero, suc, ◌-◌, Bool, not, ◌&&◌, List, [], ◌∷◌, ◌++◌, Option, none, some, ◌==◌, if◌then◌else◌,
  pos, Bytes, codes, drop, bytes_eq, begins, is_space,
}
use supervisorcpp.PropertyTree.{PropertyTree}
use supervisorcpp.Util.Secure.{Checked, valid, refused, any_equal, validate_config_file_security}
use supervisorcpp.Util.Escape.{glob_to_regex}
use supervisorcpp.Process.Types.{ProgramConfig}
use supervisorcpp.Config.Program.{read_program, check_program}
use supervisorcpp.Config.Chain.{◌>>=◌, of_option, of_tried}
use supervisorcpp.Config.Outside.{Outside}
use supervisorcpp.Config.Text.{strip_inline_comment}
use supervisorcpp.Config.Types.{Configuration, SupervisordConfig, UnixHttpServerConfig, info}
use supervisorcpp.Config.Values.{
  parse_log_level, checked_size, from_chars, parse_umask, pt_get_text, pt_get,
}

abbrev pub max_depth : ℕ
max_depth = 10

abbrev pub default_configuration : Configuration
default_configuration = record {
  config_file = [];
  unix_http_server = record { socket_file = codes "/run/supervisord.sock" };
  supervisord = record {
    logfile = codes "/var/log/supervisord.log";
    logfile_maxbytes = 52428800;
    logfile_backups = pos 10;
    loglevel = info;
    user = codes "root";
    childlogdir = codes "/var/log/supervisor";
    pidfile = [];
    umask = 18;
  };
  programs = [];
  included = [];
}

-- `CommentStrippingBuf`: the stream without its comments, from the line so far and what is left.
unfoldable pub strip_lines : Bytes → Bytes → Bytes
unfolding strip_inline_comment
strip_lines [] [] = []
strip_lines (c ∷ line) [] = strip_inline_comment (c ∷ line) ++ 10 ∷ []
strip_lines line (c ∷ r) =
    let longer = strip_lines (line ++ c ∷ []) r in
    let next = strip_lines [] r in
    if c == 10 then strip_inline_comment line ++ (10 ∷ next) else longer

-- The loop over `iss >> pattern`: the word so far, and what is left.
unfoldable pub split_words : Bytes → Bytes → List Bytes
split_words [] [] = []
split_words (c ∷ word) [] = (c ∷ word) ∷ []
split_words word (c ∷ r) =
    let longer = split_words (word ++ c ∷ []) r in
    let next = split_words [] r in
    if is_space c then (elim word [ [] ↦ next | x ∷ w ↦ (x ∷ w) ∷ next ]) else longer

-- The patterns of the directory's names.
unfoldable pub matching : Outside → Bytes → List (Bytes × Bool) → List Bytes
matching o file_regex [] = []
matching o file_regex ((path, regular) ∷ r) =
    let rest = matching o file_regex r in
    if regular && o.regex_match (o.filename path) file_regex then path ∷ rest else rest

unfoldable pub expand_glob : Outside → Bytes → Bytes → List Bytes
unfolding matching begins glob_to_regex
expand_glob o base_dir pattern =
    let search_path = if begins (codes "/") pattern then pattern else o.join base_dir pattern in
    let dir = o.parent_path search_path in
    let file_regex = glob_to_regex (o.filename search_path) in
    if o.exists dir && o.is_directory dir
    then o.sort (matching o file_regex (o.directory_iterator dir))
    else o.sort []

-- `parse_single_file_` for each of the files.
unfoldable pub include_files :
    (Bytes → Configuration → Checked Configuration)
    → List Bytes
    → Configuration
    → Checked Configuration
include_files include [] config = valid config
include_files include (file ∷ r) config = do
  config' ← include file config
  include_files include r config'

unfoldable pub parse_includes :
    Outside
    → (Bytes → Configuration → Checked Configuration)
    → Bytes
    → List Bytes
    → Configuration
    → Checked Configuration
unfolding expand_glob include_files
parse_includes o include base_dir [] config = valid config
parse_includes o include base_dir (pattern ∷ r) config = do
  config' ← include_files include (expand_glob o base_dir pattern) config
  parse_includes o include base_dir r config'

unfoldable pub validate_programs : List ProgramConfig → Checked (Unit {0})
validate_programs [] = valid tt
validate_programs (p ∷ r) = elim p.command [ [] ↦ refused | c ∷ s ↦ validate_programs r ]

-- The socket, the log file, and the programs.
unfoldable pub validate_settings : Bytes → Bytes → List ProgramConfig → Checked (Unit {0})
unfolding validate_programs
validate_settings [] logfile programs = refused
validate_settings (_ ∷ _) [] programs = refused
validate_settings (_ ∷ _) (_ ∷ _) programs = validate_programs programs

unfoldable pub validate_config : Configuration → Checked (Unit {0})
unfolding validate_settings
validate_config config =
    validate_settings config.unix_http_server.socket_file config.supervisord.logfile config.programs

module _ (t : PropertyTree) (o : Outside) where
  open t use {Tree, read_ini, get_child_optional, get_value, children}

  -- The loop over the sections; those of the programs begin with `program:`.
  unfoldable pub parse_programs : List (Bytes × Tree) → Configuration → Checked Configuration
  unfolding read_program check_program begins
  parse_programs [] config = valid config
  parse_programs ((key, value) ∷ r) config =
      let rest = λ (c : Configuration). parse_programs r c in
      if begins (codes "program:") key
      then (do
        read ← read_program t o (drop 8 key) value
        prog ← check_program o read
        rest (record config { programs = config.programs ++ prog ∷ [] }))
      else rest config

  unfoldable pub parse_unix_http_server : Option Tree → UnixHttpServerConfig → UnixHttpServerConfig
  unfolding pt_get_text
  parse_unix_http_server none c = c
  parse_unix_http_server (some section) c = record c {
    socket_file = pt_get_text t (codes "file") section c.socket_file;
  }

  unfoldable pub parse_supervisord : Option Tree → SupervisordConfig → Checked SupervisordConfig
  unfolding pt_get_text pt_get parse_log_level parse_umask
  parse_supervisord none c = valid c
  parse_supervisord (some section) c = do
    maxbytes ← pt_get t (codes "logfile_maxbytes") section c.logfile_maxbytes checked_size
    backups ← pt_get t (codes "logfile_backups") section c.logfile_backups from_chars
    level ← pt_get t (codes "loglevel") section c.loglevel parse_log_level
    umask ← pt_get t (codes "umask") section c.umask parse_umask
    valid (record {
      childlogdir = pt_get_text t (codes "childlogdir") section c.childlogdir;
      logfile = pt_get_text t (codes "logfile") section c.logfile;
      logfile_maxbytes = maxbytes;
      logfile_backups = backups;
      loglevel = level;
      pidfile = pt_get_text t (codes "pidfile") section c.pidfile;
      umask = umask;
      user = pt_get_text t (codes "user") section c.user;
    })

  -- The patterns of the `files` keys.
  unfoldable pub include_patterns : List (Bytes × Tree) → List Bytes
  unfolding split_words bytes_eq
  include_patterns [] = []
  include_patterns ((key, value) ∷ r) =
      let rest = include_patterns r in
      if bytes_eq key (codes "files") then split_words [] (get_value value) ++ rest else rest

  unfoldable pub parse_include_section :
      (Bytes → Configuration → Checked Configuration)
      → Bytes
      → Option Tree
      → Configuration
      → Checked Configuration
  unfolding include_patterns parse_includes
  parse_include_section include base_dir none config = valid config
  parse_include_section include [] (some section) config = valid config
  parse_include_section include (c ∷ base_dir) (some section) config =
      parse_includes o include (c ∷ base_dir) (include_patterns (children section)) config

  -- `parse_stream_` below the limit of the depth; `include` is `parse_single_file_` one level down.
  unfoldable pub parse_stream :
      (Bytes → Configuration → Checked Configuration)
      → Bytes
      → Bytes
      → Configuration
      → Checked Configuration
  unfolding strip_lines parse_unix_http_server parse_supervisord parse_include_section
      parse_programs
  parse_stream include text base_dir config = do
    tree ← of_tried (read_ini (strip_lines [] text))
    supervisord ←
        parse_supervisord (get_child_optional (codes "supervisord") tree) config.supervisord
    config' ←
        parse_include_section include base_dir (get_child_optional (codes "include") tree)
          (record config {
            unix_http_server =
                parse_unix_http_server (get_child_optional (codes "unix_http_server") tree)
                  config.unix_http_server;
            supervisord = supervisord;
          })
    parse_programs (children tree) config'

  -- `config.included.insert`, which must be new.
  unfoldable pub insert_included : Bytes → Configuration → Checked Configuration
  unfolding any_equal
  insert_included file config =
      if any_equal (o.weakly_canonical file) config.included
      then refused
      else valid (record config { included = o.weakly_canonical file ∷ config.included })

  -- `parse_single_file_`, with the depth counted down from its limit: `MAX_DEPTH - depth`.
  unfoldable pub parse_single_file : ℕ → Bytes → Configuration → Checked Configuration
  unfolding insert_included validate_config_file_security parse_stream
  parse_single_file zero file config = refused
  parse_single_file (suc depth) file config = do
    config' ← insert_included file config
    _ ← validate_config_file_security (o.exists file) (o.lstat file) o.getuid
    text ← of_option (o.contents file)
    parse_stream (λ f c. parse_single_file depth f c) text (o.parent_path file) config'

  unfoldable pub parse_file : Bytes → Checked Configuration
  unfolding parse_single_file validate_config
  parse_file file = if not (o.exists file) then refused else (do
    config ←
        parse_single_file max_depth file
          (record default_configuration { config_file = o.weakly_canonical file })
    _ ← validate_config config
    valid config)

  unfoldable pub parse_string : Bytes → Checked Configuration
  unfolding parse_single_file validate_config parse_stream
  parse_string text = do
    config ← parse_stream (parse_single_file (max_depth - 1)) text [] default_configuration
    _ ← validate_config config
    valid config
