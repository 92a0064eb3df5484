-- ===== src/Lib.antt =====
-- A verification library for supervisorcpp, a process control daemon in C++.
--
-- The program keeps a table of configured programs, starts each as a child process, captures its
-- output into rotated logs, restarts it with a growing delay when it dies, and answers XML-RPC
-- calls that list, start and stop the processes. A reload reads the configuration again and
-- brings the table in line with it. Paths below are those of the repository; LIB stands for
-- supervisor-lib/src and APP for supervisor-app/src.
--
-- - Logger/Writer: LIB/logger/log_writer.cpp. The state is `LogWriter`, its files the `Disk`,
--   what the file system answers during a call the `Io`. Methods keep their names (`writeNL_` is
--   `write_nl`, split into `make_room` and `append_nl`). Lines and WholeLines are about the
--   pending buffer, Rotation about the backups, Bounds about the bytes and sizes.
-- - Process: LIB/process/process.cpp. Types has the class's fields; Spawn is `spawn_` in the
--   parent and Child the part of the child up to `execvp`, as the list of the system calls made;
--   Life has `start`, `stop`, `kill`, `on_exit` and `update`; Command is `parse_command_`;
--   Capture the asynchronous reads of stdout and stderr, which differ in nothing but the stream.
--   Invariant and Reach treat the operations as steps; Backoff, Stopping and Descriptors are
--   about delays, signals and file descriptors.
-- - Manager: LIB/process/process_manager.cpp. Table has the map of processes, Loop the SIGCHLD
--   handler, the timer and `reap_until_`, Control the operations on one and on all processes,
--   Sync the reload. The other files are proofs: Lookup, Shape and Steady about the map,
--   Consistency and Operations about its processes, Reload, Reaping, Waiting, Stopped and
--   Shutdown about what the names say.
-- - Util: LIB/util/string.cpp (Escape), LIB/util/secure.cpp (Secure), LIB/util/pidfile.h (PidFile;
--   its moves in Moves) and LIB/util/platform.cpp (Platform).
-- - PropertyTree: what the code uses of Boost's property trees, as a record of operations.
-- - Config: LIB/config/config_types.h (Types; Size; `substitute_variables` in Text),
--   LIB/config/ini_reader.h (Text), LIB/config/ptree_ext.h and `parse_log_level` (Values), and
--   LIB/config/config_parser.cpp (Program has one section, Parser the files), over what the file
--   system answers (Outside). Chain has the steps that may refuse; Accepted, Kept, Returned and
--   Names are about what the parser returns.
-- - Rpc: LIB/rpc/xmlrpc.cpp (Xmlrpc), LIB/rpc/rpc_server.cpp (Server, the table of handlers, and
--   Listener, the socket), LIB/rpc/rpc_connection.cpp (Connection; Lifetime has the object with
--   the operations that are pending; Framing, Numbers and Bounded are about how requests are cut
--   out of the bytes, OneAnswer about the object) and APP/daemon/rpc_handlers.h (Handlers; Replies is
--   about its replies).
-- - Daemon: APP/daemon/supervisord.cpp and daemon_state.h. Daemon has the constructor, reloads and
--   shutdowns, Handlers every call that `register_rpc_handlers_` registers, Run the method `run`
--   with its event loop, Start `supervisord_main`. InSync takes what the daemon does as events, Calls
--   says which of them a call may be made of, Serving, Accepted, Ending, Shutdown and Escaping are
--   about the event loop, Instances and Exclusive about `supervisord_main`.
-- - Ctl: APP/ctl/supervisorctl.h, the control program: Http is what it sends and reads, Call the
--   call of a method and its faults, Infos what it shows of processes, Commands the commands and
--   the interactive mode over the world of Worlds, Client its start in APP/ctl/supervisorctl.cpp,
--   Socket the call with its operations on the socket. RoundTrip, EndToEnd and Started are about
--   both ends of a connection, Reading, Faults, Outcomes, Restart and Uninterrupted about how calls
--   and commands end.
-- - Main: APP/main.cpp. Args: APP/args_parser.cpp. Logger/Levels, Sinks and Names:
--   LIB/logger/logger.cpp and log_levels.cpp, the levels of the sinks, their set-up and names.
-- - Prelude: shared names, comparisons, integers over the native naturals, and texts as bytes.
-- - Tests: runs on concrete input.
--
-- The parts meet as in the program: a `Process` owns two `LogWriter`s, the `Manager` owns the
-- processes, the handlers are functions over the daemon, which owns the manager and lifts the
-- handlers that need nothing else. A request of the control program passes through a `Connection`,
-- whose dispatcher looks in the handlers; the event loop takes one `Occurrence` after the other, a
-- connection with all its reads as one. Whatever the operating system decides is an argument: `Io` for files, `SpawnAnswers`
-- and `ChildAnswers` for processes, and `Os`, which gives the n-th question of the manager its
-- own answer. Times are nanoseconds of the steady clock. Bytes are numbers.
--
-- Bounds and fuel. `size_t` sums wrap at 2 ^ 64. `1 << retry_count_` from 32 on is undefined in
-- C++ and a parameter, `wide_shift`; `int` counters are not bounded otherwise. The loop of
-- `substitute_variables` runs on fuel, the length of the text, since each round consumes the
-- sixteen bytes of a variable. A wait of the manager runs over the turns that the environment
-- takes until the deadline.
--
-- The depth of includes counts down from the parser's own limit of ten, so nothing is cut off by
-- it but what the code refuses.
--
-- Not modelled: messages to the log, the mutex of the writer (a call is one step), RPC calls that
-- the event loop serves while the manager waits, how Boost.Asio schedules, the INI and XML readers,
-- the grammar of the environment and the splitting of the command line into options, which are
-- Boost libraries and arguments of the definitions, the sinks of the log, which are Boost.Log's,
-- and the help that is shown. The texts of the parser's errors are left out. During its run an
-- instance is taken to be the only one that touches its pid file and its socket.
pub mod Prelude
pub mod PropertyTree
pub mod Logger
pub mod Process
pub mod Manager
pub mod Util
pub mod Config
pub mod Rpc
pub mod Daemon
pub mod Ctl
pub mod Main
pub mod Args
pub mod Tests
