-- ===== src/Daemon/Exclusive.antt =====
-- supervisord.cpp and pidfile.h: a start beside an instance that runs, and a request that ends one.
use supervisorcpp.Prelude.{
  ℕ, Bool, true, false, List, Option, none, some, Bytes, returns, if-either, ◌⊎◌, inl, inr, codes,
  ◌≡◌, refl, sym, ap, subst, ◌∙◌,
}
use supervisorcpp.PropertyTree.{PropertyTree}
use supervisorcpp.Args.{ParsedArgs, parse_args, value_of}
use supervisorcpp.Logger.Writer.{is_empty}
use supervisorcpp.Logger.Sinks.{init_file_logging}
use supervisorcpp.Util.Secure.{valid}
use supervisorcpp.Util.PidFile.{Files, create_guard, is_locked, open_at, lock_file}
use supervisorcpp.Config.Types.{Configuration}
use supervisorcpp.Config.Program.{validate_pidfile_path}
use supervisorcpp.Config.Parser.{parse_file}
use supervisorcpp.Daemon.Start.{
  Surroundings, Shared, Finished, pid_path, run_guarded, with_pid_file, with_config,
  supervisord_main, ends_with,
}

-- The path is that of the command line, or else that of the configuration, where it is not empty.
abbrev pub Chooses : ParsedArgs → Configuration → Bytes → Type 0
Chooses a config path =
    (value_of (codes "pidfile") a.values ≡ some path)
    ⊎ ((value_of (codes "pidfile") a.values ≡ none)
        × ((config.supervisord.pidfile ≡ path) × (is_empty path ≡ false)))

pid_path-Chooses :
    (a : ParsedArgs) (config : Configuration) (path : Bytes)
    → Chooses a config path
    → pid_path a config ≡ some path
unfolding pid_path
pid_path-Chooses a config path (inl given) = rw (given, pid_path) refl
pid_path-Chooses a config path (inr (none_given, (e, there))) =
    rw (none_given, pid_path) (rw (e, there) refl)

-- The exit code is 1, and no daemon was created.
abbrev pub IsRefused : Finished → Type 0
IsRefused r = (r.code ≡ 1) × (r.daemon ≡ none)

create_guard-locked :
    (opens writes : Bool) (text : Bytes) (f : Files) (i : ℕ)
    → f.at_path ≡ some i
    → is_locked i f.locked ≡ true
    → (create_guard opens writes text f).1 ≡ none
unfolding create_guard open_at lock_file
create_guard-locked false writes text f i there taken = refl
create_guard-locked true writes text f i there taken =
    ap (λ p. (lock_file writes text (open_at p f).0 (open_at p f).1).1) there ∙ rw taken refl

module _ (t : PropertyTree) (e : Surroundings) where
  run_guarded-none :
      (config : Configuration) (s : Shared) (path : Bytes) (x : Files × Option ℕ)
      → x.1 ≡ none
      → IsRefused (run_guarded t e config s path x)
  unfolding run_guarded
  run_guarded-none config s path (f, none) h = (refl, refl)
  run_guarded-none config s path (f, some i) h = absurd (cc h)

  with_pid_file-locked :
      (config : Configuration) (s : Shared) (path p : Bytes) (i : ℕ)
      → validate_pidfile_path e.outside path ≡ valid p
      → (s.pid_files p).at_path ≡ some i
      → is_locked i (s.pid_files p).locked ≡ true
      → IsRefused (with_pid_file t e config s (some path))
  unfolding with_pid_file
  with_pid_file-locked config s path p i checked there taken =
      rw (checked, with_pid_file)
        (run_guarded-none config s p _
          (create_guard-locked e.pid_opens e.pid_writes _ (s.pid_files p) i there taken))

  -- While another instance has locked the file that stands at the path of the pid file, by the command
  -- line or else by the configuration, an instance that got as far as its configuration ends with the
  -- exit code 1 and creates no daemon.
  pub supervisord_main-locked :
      (args : List Bytes) (s : Shared) (a : ParsedArgs) (config : Configuration) (path p : Bytes)
      (i : ℕ)
      → (parse_args e.parse_options args s.levels).1 ≡ returns (some a)
      → parse_file t e.outside a.configuration ≡ valid config
      → Chooses a config path
      → validate_pidfile_path e.outside path ≡ valid p
      → (s.pid_files p).at_path ≡ some i
      → is_locked i (s.pid_files p).locked ≡ true
      → IsRefused (supervisord_main t e args s)
  unfolding supervisord_main with_config
  supervisord_main-locked args s a config path p i parsed read chosen checked there taken =
      let levels = (parse_args e.parse_options args s.levels).0 in
      let logs =
        init_file_logging e.log_opens config.supervisord.logfile config.supervisord.loglevel
          levels in
      let s' = record s { levels = logs.0; umask = config.supervisord.umask } in
      rw (parsed, read, supervisord_main)
        (if-either IsRefused logs.1 _ (ends_with 1 s')
          (subst (λ (q : Option Bytes). IsRefused (with_pid_file t e config s' q))
            (sym (pid_path-Chooses a config path chosen))
            (with_pid_file-locked config s' path p i checked there taken))
          (refl, refl))
