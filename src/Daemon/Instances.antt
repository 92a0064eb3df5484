-- ===== src/Daemon/Instances.antt =====
-- supervisord.cpp, `supervisord_main`: what an instance leaves behind, and instances with one pid file.
use supervisorcpp.Prelude.{
  ℕ, Bool, false, List, [], Option, none, some, Bytes, bytes_eq, bytes_eq_iff, if-either, not, map,
  ◌≢◌, Tried, returns, throws, ◌≡◌, refl, ap, subst, ◌∙◌, inl, inr, Bool-cases,
}
use supervisorcpp.PropertyTree.{PropertyTree}
use supervisorcpp.Args.{ParsedArgs, parse_args}
use supervisorcpp.Logger.Sinks.{init_file_logging}
use supervisorcpp.Util.Secure.{Checked, valid, refused}
use supervisorcpp.Util.PidFile.Released.{released, create_guard-released}
use supervisorcpp.Util.PidFile.{Files, destroy_guard, close_guard, remove_file}
use supervisorcpp.Config.Types.{Configuration}
use supervisorcpp.Config.Program.{validate_pidfile_path}
use supervisorcpp.Config.Parser.{parse_file}
use supervisorcpp.Manager.Table.{Os}
use supervisorcpp.Manager.Control.{LogFiles}
use supervisorcpp.Manager.Loop.{has_running_processes}
use supervisorcpp.Manager.Shutdown.{stop_all-has_running_processes}
use supervisorcpp.Rpc.Listener.{
  RpcServer, listening, create_server, start, happen, accepts, IsServing, start-IsServing,
  stop-IsServing, stop-closed, happen-kept, happen-IsServing,
}
use supervisorcpp.Daemon.{Supervisord, create_supervisord, begin_run}
use supervisorcpp.Daemon.Run.{Occurrence, event_loop, run}
use supervisorcpp.Daemon.Start.{
  directory_checked, Surroundings, Shared, Finished, ends_with, set_files, pid_path, supervise,
  run_guarded, with_pid_file, with_config, supervisord_main, destroy_supervisord,
}

-- What is left behind: the locks of every pid file as they were, no child that is tracked, and no server
-- that listens.
pub record IsClean (s : Shared) (r : Finished) : Type 0 where
  pub locks_kept : (q : Bytes) → (r.shared.pid_files q).locked ≡ (s.pid_files q).locked
  pub no_child :
      (d : Supervisord)
      → r.daemon ≡ some d
      → has_running_processes d.process_manager.process_map ≡ false
  pub not_listening : (server : RpcServer) → r.server ≡ some server → server.acceptor ≢ listening

set_files-locked :
    (path q : Bytes) (f : Files) (s : Shared)
    → f.locked ≡ (s.pid_files path).locked
    → ((set_files path f s).pid_files q).locked ≡ (s.pid_files q).locked
set_files-locked path q f s h = elim (Bool-cases (bytes_eq path q)) [
  | inl same ↦ rw same (h ∙ ap (λ p. (s.pid_files p).locked) ((bytes_eq_iff path q).0 same))
  | inr other ↦ rw other refl
]

some_only : {A : Type 0} (x y : A) → some x ≡ some y → x ≡ y
some_only x y h = cc h

-- The server through `run`.
run-IsServing :
    (t : PropertyTree) (os : Os) (files : ℕ → LogFiles) (pid : ℕ) (directory binds permits : Bool)
    (failed : List Bool) (l : List Occurrence) (s : RpcServer) (d : Supervisord)
    → IsServing s
    → IsServing (run t os files pid directory binds permits failed l s d).0
unfolding run
run-IsServing t os files pid directory binds permits failed l s d i =
    let s' = (start directory binds permits s).0 in
    let i' = start-IsServing directory binds permits s i in
    let i'' = happen-kept (map accepts failed) s' i' in
    if-either (λ (x : RpcServer × (Supervisord × Bool)). IsServing x.0)
      (not (start directory binds permits s).1) _ _ i'
      (if-either IsServing (event_loop t os files pid l (begin_run os d)).1 _ _
        (stop-IsServing _ i'') i'')

module _ (t : PropertyTree) (e : Surroundings) where
  supervise-no_child :
      (config : Configuration)
      → has_running_processes (supervise t e config).0.1.process_manager.process_map ≡ false
  unfolding supervise destroy_supervisord
  supervise-no_child config = stop_all-has_running_processes e.os _

  supervise-not_listening :
      (config : Configuration) → (supervise t e config).0.0.acceptor ≢ listening
  unfolding supervise destroy_supervisord happen
  supervise-not_listening config =
      let file = e.socket_file config.unix_http_server.socket_file in
      stop-closed _ (
        run-IsServing t e.os e.files e.pid
          (directory_checked e.outside config.unix_http_server.socket_file) e.binds e.permits
          e.failed e.occurrences (create_server file) (create_supervisord e.os e.files config)
          (happen-IsServing file []))

  -- An end with these shared things, whose daemon, where there was one, is the one that ran.
  ends_with-IsClean :
      (code : ℕ) (s r : Shared)
      → ((q : Bytes) → (r.pid_files q).locked ≡ (s.pid_files q).locked)
      → IsClean s (ends_with code r)
  ends_with-IsClean code s r h = record {
    locks_kept = h;
    no_child = λ d none_there. absurd (cc none_there);
    not_listening = λ server none_there. absurd (cc none_there);
  }

  supervised-IsClean :
      (config : Configuration) (s r : Shared)
      → ((q : Bytes) → (r.pid_files q).locked ≡ (s.pid_files q).locked)
      → IsClean s (record {
        code = (supervise t e config).1;
        shared = r;
        daemon = some (supervise t e config).0.1;
        server = some (supervise t e config).0.0;
      })
  supervised-IsClean config s r h = record {
    locks_kept = h;
    no_child = λ d there.
        subst (λ x. has_running_processes x.process_manager.process_map ≡ false)
          (some_only (supervise t e config).0.1 d there) (supervise-no_child config);
    not_listening = λ server there.
        subst (λ x. x.acceptor ≢ listening) (some_only (supervise t e config).0.0 server there)
          (supervise-not_listening config);
  }

  run_guarded-IsClean :
      (config : Configuration) (s : Shared) (path : Bytes) (x : Files × Option ℕ)
      → released x ≡ (s.pid_files path).locked
      → IsClean s (run_guarded t e config s path x)
  unfolding run_guarded destroy_guard close_guard remove_file
  run_guarded-IsClean config s path (f, none) h =
      ends_with-IsClean 1 s (set_files path f s) (λ q. set_files-locked path q f s h)
  run_guarded-IsClean config s path (f, some i) h =
      supervised-IsClean config s (set_files path (destroy_guard i f) s)
        (λ q. set_files-locked path q (destroy_guard i f) s h)

  with_pid_file-IsClean :
      (config : Configuration) (s : Shared) (path : Option Bytes)
      → IsClean s (with_pid_file t e config s path)
  unfolding with_pid_file
  with_pid_file-IsClean config s none = supervised-IsClean config s s (λ q. refl)
  with_pid_file-IsClean config s (some path) = go (validate_pidfile_path e.outside path) refl
    where
      go :
          (c : Checked Bytes)
          → validate_pidfile_path e.outside path ≡ c
          → IsClean s (with_pid_file t e config s (some path))
      go refused h = rw (h, with_pid_file) (ends_with-IsClean 1 s s (λ q. refl))
      go (valid p) h =
          rw (h, with_pid_file)
            (run_guarded-IsClean config s p _ (create_guard-released e.pid_opens e.pid_writes _ _))

  with_config-IsClean :
      (a : ParsedArgs) (s : Shared) (c : Checked Configuration) → IsClean s (with_config t e a s c)
  unfolding with_config
  with_config-IsClean a s refused = ends_with-IsClean 1 s s (λ q. refl)
  with_config-IsClean a s (valid config) =
      let logs =
        init_file_logging e.log_opens config.supervisord.logfile config.supervisord.loglevel
          s.levels in
      let s' = record s { levels = logs.0; umask = config.supervisord.umask } in
      let guarded = with_pid_file-IsClean config s' (pid_path a config) in
      if-either (IsClean s) logs.1 _ _
        (record {
          locks_kept = guarded.locks_kept;
          no_child = guarded.no_child;
          not_listening = guarded.not_listening;
        })
        (ends_with-IsClean 1 s s' (λ q. refl))

  -- However `supervisord_main` returns, by its arguments, its configuration, the log file, the pid file,
  -- the socket, an exception in its event loop or a shutdown: the locks of all pid files are what they
  -- were before, and where a daemon was created, no process of its table has a child that is tracked and
  -- its server does not listen. A signal that kills the daemon is no return, and a child that a start in
  -- STOPPING replaced is not tracked.
  pub supervisord_main-IsClean :
      (args : List Bytes) (s : Shared) → IsClean s (supervisord_main t e args s)
  unfolding supervisord_main
  supervisord_main-IsClean args s = go (parse_args e.parse_options args s.levels).1 refl
    where
      go :
          (m : Tried (Option ParsedArgs))
          → (parse_args e.parse_options args s.levels).1 ≡ m
          → IsClean s (supervisord_main t e args s)
      go (throws what) h = rw (h, supervisord_main) (ends_with-IsClean 1 s _ (λ q. refl))
      go (returns none) h = rw (h, supervisord_main) (ends_with-IsClean 0 s _ (λ q. refl))
      go (returns (some a)) h =
          let s' = record s { levels = (parse_args e.parse_options args s.levels).0 } in
          let clean = with_config-IsClean a s' (parse_file t e.outside a.configuration) in
          rw (h, supervisord_main)
            (record {
              locks_kept = clean.locks_kept;
              no_child = clean.no_child;
              not_listening = clean.not_listening;
            })
