-- ===== src/Tests/Runs.antt =====
-- Runs of the daemon: its event loop with a request, and instances that share a pid file.
use supervisorcpp.Prelude.{
  if◌then◌else◌, bytes_eq, ◌||◌, inl, leb, min, ◌-◌, find_from, begins, true, false, List, [], ◌∷◌,
  ◌++◌, none, some, ◌≤◌, bytes_eq, codes, Bytes, apart, lower, returns, ◌≡◌, refl, arith,
}
use mathlib.Core.List.{Memᴰ}
use supervisorcpp.Args.{Given, ParsedArgs, parse_given, parse_args, value_of, parse_given_lem}
use supervisorcpp.Config.Program.{validate_pidfile_path}
use supervisorcpp.Logger.Levels.{
  Levels, create_level, TrivialSeverity, console_shows, level_number, severity_number,
}
use supervisorcpp.Config.Types.{info}
use supervisorcpp.Manager.Loop.{has_running_processes}
use supervisorcpp.Manager.Table.{find, sweep, set}
use supervisorcpp.Rpc.Connection.{blank_line, content_length_name, read_all, content_length}
use supervisorcpp.Rpc.Connection.Framing.{message}
use supervisorcpp.Rpc.Connection.Numbers.{all_blanks}
use supervisorcpp.Rpc.Handlers.{Replying, register_process_handlers}
use supervisorcpp.Util.PidFile.{Files, is_locked}
use supervisorcpp.Util.Secure.{FileStat, valid}
use supervisorcpp.Daemon.{Supervisord, create_supervisord, begin_run, parsed_file, reload_config}
use supervisorcpp.Rpc.Server.{dispatch_method, find_handler, register_handler}
use supervisorcpp.Daemon.Handlers.{register_rpc_handlers, on_managers, shutdown_handler}
use supervisorcpp.Manager.Shape.{config_of}
use supervisorcpp.Process.Life.{start}
use supervisorcpp.Process.Types.{create_process}
use supervisorcpp.Process.Spawn.{spawn}
use supervisorcpp.Manager.Control.{start_all, add_process}
use supervisorcpp.Config.Parser.{parse_file}
use supervisorcpp.Config.Chain.{◌>>=◌}
use supervisorcpp.Manager.Sync.{
  sync_processes, sync_programs, sync_program, remove_stale, names_program, config_eq, program_eq,
  environment_eq, option_eq, bool_eq, control_eq, log_eq, umask_eq,
}
use supervisorcpp.Daemon.InSync.{Matches}
use supervisorcpp.Daemon.Accepted.{asked, AcceptedOn, event_loop-config_of}
use supervisorcpp.Daemon.Run.{
  Occurrence, terminated, connects, turns_to_posted, hung_up, event_loop, occurs, serve_connection,
}
use supervisorcpp.Daemon.Serving.{event_loop-Matches}
use supervisorcpp.Daemon.Shutdown.{event_loop-shutdown}
use supervisorcpp.Daemon.Escaping.{event_loop-no_number}
use supervisorcpp.Daemon.Start.{Surroundings, Shared, supervisord_main}
use supervisorcpp.Daemon.Instances.{IsClean, supervisord_main-IsClean}
use supervisorcpp.Daemon.Exclusive.{Chooses, IsRefused, supervisord_main-locked}
use supervisorcpp.Tests.Data.{os, files, web}
use supervisorcpp.Tests.Configs
use supervisorcpp.Tests.Configs.{
  reader, system, of_file, config_path, file_parsed, find_node, listed,
}
use supervisorcpp.Tests.Daemons.{configuration}

-- Numbers are not printed.
abbrev replying : Replying
replying = record { show = λ z. []; now = 1; system_now = 1 }

abbrev request : Bytes
request = codes "POST / HTTP/1.1\r\nContent-Length: 5\r\n\r\n<xml>"

-- A request, a reload, SIGTERM, and a request that comes too late.
abbrev busy : List Occurrence
busy =
    connects replying system (request ∷ [])
    ∷ hung_up system
    ∷ terminated
    ∷ connects replying system (request ∷ [])
    ∷ []

event_loop-Matches_example :
    let d =
      (event_loop reader os
        (λ n. files)
        7
        busy
        (begin_run os (create_supervisord os (λ n. files) (configuration (web ∷ []))))).0 in
    Matches d.process_manager.process_map d.config.programs
event_loop-Matches_example =
    event_loop-Matches reader os (λ n. files) 7 (configuration (web ∷ [])) busy

-- A reload of the same file.
abbrev reloaded : Supervisord
reloaded =
    (event_loop reader os (λ n. files) 7 (hung_up system ∷ [])
      (begin_run os (create_supervisord os (λ n. files) of_file))).0

web_reloaded : config_of (codes "web") reloaded.process_manager.process_map ≡ some Configs.web
unfolding event_loop occurs begin_run create_supervisord find start_all sweep add_process set
    bytes_eq start create_process spawn reload_config parsed_file parse_file ◌>>=◌ find_node listed
    begins find_from sync_processes sync_programs sync_program remove_stale names_program config_eq
    program_eq environment_eq option_eq bool_eq control_eq log_eq umask_eq
web_reloaded = refl

event_loop-config_of_example : AcceptedOn (system ∷ asked (hung_up system ∷ [])) Configs.web
event_loop-config_of_example =
    event_loop-config_of reader os (λ n. files) 7 system config_path of_file (hung_up system ∷ [])
      (codes "web") Configs.web file_parsed web_reloaded

abbrev in_loop : Supervisord
in_loop = create_supervisord os (λ n. files) (configuration (web ∷ []))

not_over : in_loop.is_over ≡ false
unfolding create_supervisord
not_over = refl

-- The posted task comes behind another request.
abbrev then_posted : List Occurrence
then_posted = connects replying system (request ∷ []) ∷ turns_to_posted ∷ []

abbrev called : Supervisord
called =
    (dispatch_method (register_rpc_handlers (parsed_file reader system) os (λ n. files) 7 replying)
      (codes "supervisor.shutdown") [] in_loop).0

loop_returns : (event_loop reader os (λ n. files) 7 then_posted called).1 ≡ true
unfolding event_loop occurs create_supervisord dispatch_method find_handler register_handler
    register_rpc_handlers bytes_eq register_process_handlers on_managers shutdown_handler
    serve_connection read_all content_length lower
loop_returns = refl

event_loop-shutdown_example :
    let (ended, returned) = event_loop reader os (λ n. files) 7 then_posted called in
    (ended.is_over ≡ true)
    × (has_running_processes ended.process_manager.process_map ≡ false)
    × (event_loop reader os (λ n. files) 7 (then_posted ++ busy) called ≡ (ended, returned))
event_loop-shutdown_example =
    event_loop-shutdown reader os (λ n. files) 7 (parsed_file reader system) replying [] then_posted
      busy in_loop not_over (Memᴰ.tail (Memᴰ.head refl)) loop_returns

abbrev first_line : Bytes
first_line = codes "POST / HTTP/1.1\r\n"

no_length_there : apart content_length_name (lower first_line) ≡ true
unfolding apart lower
no_length_there = refl

named : lower (codes "Content-Length:") ≡ content_length_name
unfolding lower
named = refl

no_blank_line :
    apart blank_line (first_line ++ (codes "Content-Length:" ++ (codes " " ++ codes "many"))) ≡ true
unfolding apart
no_blank_line = refl

one_blank : all_blanks (codes " ") ≡ true
unfolding all_blanks
one_blank = refl

event_loop-no_number_example :
    event_loop reader os
      (λ n. files)
      7
      (connects replying system
          (message (first_line ++ (codes "Content-Length:" ++ (codes " " ++ codes "many"))) [] ∷ [])
        ∷ [])
      in_loop
    ≡ (in_loop, false)
event_loop-no_number_example =
    event_loop-no_number reader os (λ n. files) 7 first_line (codes "Content-Length:") (codes " ")
      (codes "many") [] replying system [] in_loop named refl no_length_there one_blank
      (inl (b'm', codes "any", refl, refl)) no_blank_line (omega arith) not_over

-- Three verbosity flags and a pid file.
abbrev given : Given
given = record {
  has_version = false;
  has_help = false;
  configuration = some config_path;
  verbose_flags = 3;
  values = (codes "pidfile", codes "/run/d.pid") ∷ [];
  unrecognized = [];
}

abbrev levels : Levels
levels = record { console_sev = create_level info; file_sev = create_level info }

in_step : level_number info ≤ 4
unfolding level_number
in_step = omega arith

three_flags :
    ((given.has_version || given.has_help) ≡ true → parse_given given levels ≡ (levels, none))
    × ((given.has_version || given.has_help) ≡ false
        → (console_shows (parse_given given levels).0 none TrivialSeverity.trace
            ≡ leb (min 4 (level_number info - 3)) (severity_number TrivialSeverity.trace))
          × ((parse_given given levels).1
              ≡ some (record { configuration = config_path; values = given.values; args = [] })))
three_flags = parse_given_lem given levels TrivialSeverity.trace refl in_step

abbrev alone : Surroundings
alone = record {
  parse_options = λ args. returns given;
  outside = system;
  os = os;
  files = λ n. files;
  pid = 7;
  log_opens = true;
  pid_opens = true;
  pid_writes = true;
  socket_file = λ path. none;
  binds = true;
  permits = true;
  failed = false ∷ [];
  occurrences = busy;
}

-- The pid file of another instance, which has locked it.
abbrev held : Files
held = record { at_path = some 0; next = 1; locked = 0 ∷ []; contents = λ i. codes "9\n" }

abbrev beside : Shared
beside = record { levels = levels; umask = 18; pid_files = λ path. held }

abbrev unlocked : Shared
unlocked = record beside { pid_files = λ path. record held { locked = [] } }

-- Where the directory of the socket is one, the instance ends as its event loop does.
abbrev directory : FileStat
directory = record {
  is_regular = false;
  is_symlink = false;
  is_directory = true;
  owner = 0;
  world_writable = false;
  executable = true;
}

abbrev served : Surroundings
served = record alone {
  outside = record system {
    stat = λ path. if bytes_eq path (codes "/etc") then some directory else system.stat path;
  };
}

supervisord_main-IsClean_example : IsClean unlocked (supervisord_main reader served [] unlocked)
supervisord_main-IsClean_example = supervisord_main-IsClean reader served [] unlocked

returns_zero : (supervisord_main reader served [] unlocked).code ≡ 0
unfolding supervisord_main ◌>>=◌ find_node listed content_length parsed_file
returns_zero = refl

-- Where it is none, the server does not start, and the exit code is 1.
returns_one : (supervisord_main reader alone [] unlocked).code ≡ 1
unfolding supervisord_main ◌>>=◌ find_node listed content_length parsed_file
returns_one = refl

abbrev parsed : ParsedArgs
parsed = record { configuration = config_path; values = given.values; args = [] }

args_parsed : (parse_args alone.parse_options [] levels).1 ≡ returns (some parsed)
unfolding parse_args
args_parsed = refl

path_chosen : Chooses parsed of_file (codes "/run/d.pid")
unfolding value_of bytes_eq
path_chosen = inl refl

path_checked : validate_pidfile_path system (codes "/run/d.pid") ≡ valid (codes "/run/d.pid")
unfolding validate_pidfile_path
path_checked = refl

is_held : is_locked 0 held.locked ≡ true
unfolding is_locked
is_held = refl

supervisord_main-locked_example : IsRefused (supervisord_main reader alone [] beside)
supervisord_main-locked_example =
    supervisord_main-locked reader alone [] beside parsed of_file (codes "/run/d.pid")
      (codes "/run/d.pid") 0 args_parsed file_parsed path_chosen path_checked refl is_held
