-- ===== src/Daemon/Start.antt =====
-- supervisord.cpp, `supervisord_main`: from the arguments to the exit code.
use supervisorcpp.Prelude.{
  ℕ, Bool, true, false, List, [], ◌∷◌, ◌++◌, Option, none, some, if◌then◌else◌, Bytes, codes,
  decimal, bytes_eq, Tried, returns, throws,
}
use supervisorcpp.PropertyTree.{PropertyTree}
use supervisorcpp.Args.{Given, ParsedArgs, parse_args, value_of}
use supervisorcpp.Logger.Levels.{Levels}
use supervisorcpp.Logger.Sinks.{init_file_logging}
use supervisorcpp.Logger.Writer.{is_empty}
use supervisorcpp.Util.Secure.{Checked, valid, refused, validate_socket_directory}
use supervisorcpp.Util.PidFile.{Files, create_guard, destroy_guard}
use supervisorcpp.Config.Outside.{Outside}
use supervisorcpp.Config.Types.{Configuration}
use supervisorcpp.Config.Program.{validate_pidfile_path}
use supervisorcpp.Config.Parser.{parse_file}
use supervisorcpp.Manager.Table.{Os}
use supervisorcpp.Manager.Control.{LogFiles, stop_all}
use supervisorcpp.Rpc.Listener.{SocketFile, RpcServer, create_server, stop}
use supervisorcpp.Daemon.{Supervisord, create_supervisord}
use supervisorcpp.Daemon.Run.{Occurrence, run}

-- What the run of one instance meets.
pub record Surroundings : Type 0 where
  -- Boost.Program_options.
  pub parse_options : List Bytes → Tried Given
  pub outside : Outside
  pub os : Os
  pub files : ℕ → LogFiles
  pub pid : ℕ
  -- Whether the file of the log opens, and the pid file opens and is written.
  pub log_opens : Bool
  pub pid_opens : Bool
  pub pid_writes : Bool
  -- What stands at the path of the socket, and how the calls for it end.
  pub socket_file : Bytes → Option SocketFile
  pub binds : Bool
  pub permits : Bool
  -- The accepts and the occurrences of the run.
  pub failed : List Bool
  pub occurrences : List Occurrence

-- What an instance changes outside of its daemon: the levels of its log, its umask, and the pid files
-- by their paths.
pub record Shared : Type 0 where
  pub levels : Levels
  pub umask : ℕ
  pub pid_files : Bytes → Files

-- Whether the directory of the socket passes its check.
unfoldable pub directory_checked : Outside → Bytes → Bool
unfolding validate_socket_directory
directory_checked o socket_path =
    elim (validate_socket_directory (o.stat (o.parent_path socket_path))) [
      | valid _ ↦ true
      | refused ↦ false
    ]

-- The exit code, and the daemon and its server at their end, where they were created.
pub record Finished : Type 0 where
  pub code : ℕ
  pub shared : Shared
  pub daemon : Option Supervisord
  pub server : Option RpcServer

abbrev pub ends_with : ℕ → Shared → Finished
ends_with code s = record { code = code; shared = s; daemon = none; server = none }

abbrev pub set_files : Bytes → Files → Shared → Shared
set_files path f s = record s { pid_files = λ q. if bytes_eq path q then f else s.pid_files q }

-- The destructor, which destroys the server, and then the manager.
unfoldable pub destroy_supervisord : Os → RpcServer × Supervisord → RpcServer × Supervisord
unfolding stop
destroy_supervisord os (s, d) =
    (stop s, record d { process_manager = stop_all os d.process_manager })

-- The path of the command line, or that of the configuration, or none.
unfoldable pub pid_path : ParsedArgs → Configuration → Option Bytes
unfolding value_of
pid_path a config = elim (value_of (codes "pidfile") a.values) [
  | some path ↦ some path
  | none ↦ if is_empty config.supervisord.pidfile then none else some config.supervisord.pidfile
]

module _ (t : PropertyTree) (e : Surroundings) where
  -- `Supervisord{config}.run()`: the server and the daemon behind the destructor, and the exit code.
  unfoldable pub supervise : Configuration → (RpcServer × Supervisord) × ℕ
  unfolding create_supervisord run destroy_supervisord directory_checked
  supervise config =
      let socket_path = config.unix_http_server.socket_file in
      let (s, (d, ended)) =
        run t e.os e.files e.pid (directory_checked e.outside socket_path) e.binds e.permits
          e.failed e.occurrences (create_server (e.socket_file socket_path))
          (create_supervisord e.os e.files config) in
      (destroy_supervisord e.os (s, d), if ended then 0 else 1)

  abbrev pub supervised : Shared → (RpcServer × Supervisord) × ℕ → Finished
  supervised s ((server, d), code) = record {
    code = code;
    shared = s;
    daemon = some d;
    server = some server;
  }

  -- From the pid file on, the path of which was checked.
  unfoldable pub run_guarded : Configuration → Shared → Bytes → Files × Option ℕ → Finished
  unfolding supervise destroy_guard
  run_guarded config s path (f, none) = ends_with 1 (set_files path f s)
  run_guarded config s path (f, some i) =
      supervised (set_files path (destroy_guard i f) s) (supervise config)

  unfoldable pub with_pid_file : Configuration → Shared → Option Bytes → Finished
  unfolding run_guarded validate_pidfile_path create_guard
  with_pid_file config s none = supervised s (supervise config)
  with_pid_file config s (some path) = elim (validate_pidfile_path e.outside path) [
    | refused ↦ ends_with 1 s
    | valid p ↦
        run_guarded config s p
          (create_guard e.pid_opens e.pid_writes (decimal e.pid ++ 10 ∷ []) (s.pid_files p))
  ]

  -- From the configuration on.
  unfoldable pub with_config : ParsedArgs → Shared → Checked Configuration → Finished
  unfolding init_file_logging with_pid_file pid_path
  with_config a s refused = ends_with 1 s
  with_config a s (valid config) =
      let (levels, opened) =
        init_file_logging e.log_opens config.supervisord.logfile config.supervisord.loglevel
          s.levels in
      let s' = record s { levels = levels; umask = config.supervisord.umask } in
      if opened then with_pid_file config s' (pid_path a config) else ends_with 1 s'

  unfoldable pub supervisord_main : List Bytes → Shared → Finished
  unfolding parse_args with_config parse_file
  supervisord_main args s =
      let (levels, parsed) = parse_args e.parse_options args s.levels in
      let s' = record s { levels = levels } in
      elim parsed [
        | throws what ↦ ends_with 1 s'
        | returns none ↦ ends_with 0 s'
        | returns (some a) ↦ with_config a s' (parse_file t e.outside a.configuration)
      ]
