-- ===== src/Daemon.antt =====
-- supervisor-app/src/daemon/supervisord.cpp and daemon_state.h: the daemon over its manager.
-- Reading the configuration file is an argument, `none` where `parse_file` throws.
pub mod Handlers
pub mod InSync
pub mod Calls
pub mod Run
pub mod Serving
pub mod Ending
pub mod Shutdown
pub mod Start
pub mod Instances
pub mod Exclusive
pub mod Escaping
pub mod Accepted
use supervisorcpp.Prelude.{
  ℕ, ◌-◌, Bool, true, false, List, [], ◌∷◌, Option, none, some, ℤ, pos, minus_one, if◌then◌else◌,
  Bytes, codes,
}
use supervisorcpp.Process.Types.{ProgramConfig}
use supervisorcpp.Logger.Writer.{is_empty}
use supervisorcpp.PropertyTree.{PropertyTree}
use supervisorcpp.Util.Secure.{Checked, valid, refused}
use supervisorcpp.Config.Outside.{Outside}
use supervisorcpp.Config.Parser.{parse_file}
use supervisorcpp.Config.Types.{Configuration}
use supervisorcpp.Manager.Table.{Manager, Os}
use supervisorcpp.Manager.Control.{LogFiles, add_process, start_all, stop_all}
use supervisorcpp.Manager.Sync.{sync_processes}
use supervisorcpp.Rpc.Xmlrpc.{int, text, show_struct}

pub data DaemonState : Type 0 where
  shutdown restarting running fatal : DaemonState

unfoldable pub daemon_state_code : DaemonState → ℤ
daemon_state_code shutdown = minus_one
daemon_state_code restarting = pos 0
daemon_state_code running = pos 1
daemon_state_code fatal = pos 2

unfoldable pub daemon_state_name : DaemonState → Bytes
daemon_state_name fatal = codes "FATAL"
daemon_state_name running = codes "RUNNING"
daemon_state_name restarting = codes "RESTARTING"
daemon_state_name shutdown = codes "SHUTDOWN"

abbrev pub is_restarting : DaemonState → Bool
is_restarting restarting = true
is_restarting _ = false

pub record Supervisord : Type 0 where
  pub config : Configuration
  pub process_manager : Manager
  pub daemon_state : DaemonState
  -- The shutdowns that were posted to the event loop and have not run.
  pub posted : ℕ
  -- `io_context_.stop()` was called.
  pub is_over : Bool

unfoldable pub add_programs : Os → (ℕ → LogFiles) → List ProgramConfig → Manager → Manager
add_programs os files [] m = m
add_programs os files (c ∷ r) m = add_programs os files r (add_process os (files m.asked) c m)

-- The constructor.
unfoldable pub create_supervisord : Os → (ℕ → LogFiles) → Configuration → Supervisord
unfolding add_programs
create_supervisord os files config = record {
  config = config;
  process_manager =
      add_programs os files config.programs (record { process_map = []; sent = []; asked = 0 });
  daemon_state = running;
  posted = 0;
  is_over = false;
}

-- The start of `run`, up to the event loop.
unfoldable pub begin_run : Os → Supervisord → Supervisord
begin_run os d = record d { process_manager = start_all os d.process_manager }

-- The handler of SIGTERM and SIGINT.
unfoldable pub on_shutdown_signal : Os → Supervisord → Supervisord
on_shutdown_signal os d = record d {
  daemon_state = shutdown;
  process_manager = stop_all os d.process_manager;
  is_over = true;
}

-- A task that the handler of `supervisor.shutdown` posted to the event loop.
unfoldable pub rpc_shutdown : Os → Supervisord → Supervisord
rpc_shutdown os d = record d {
  process_manager = stop_all os d.process_manager;
  posted = d.posted - 1;
  is_over = true;
}

unfoldable pub reload_config :
    (Bytes → Option Configuration) → Os → (ℕ → LogFiles) → Supervisord → Supervisord
reload_config parse os files d =
    if is_empty d.config.config_file
    then d
    else if is_restarting d.daemon_state
    then d
    else elim (parse d.config.config_file) [
      | none ↦ record d { daemon_state = running }
      | some new_config ↦ record d {
        config = new_config;
        process_manager = sync_processes os files new_config.programs d.process_manager;
        daemon_state = running;
      }
    ]

abbrev pub to_option {ℓ} : {A : Type ℓ} → Checked A → Option A
to_option (valid a) = some a
to_option refused = none

-- `parse_file` as `reload_config_` calls it, on what the file system answers at the time.
unfoldable pub parsed_file : PropertyTree → Outside → Bytes → Option Configuration
unfolding parse_file
parsed_file t o file = to_option (parse_file t o file)

-- The handler of `supervisor.getState`.
unfoldable pub get_state : (ℤ → Bytes) → Supervisord → Bytes
get_state show d = show_struct show (
    record { name = codes "statecode"; value = int (daemon_state_code d.daemon_state) }
    ∷ record { name = codes "statename"; value = text (daemon_state_name d.daemon_state) }
    ∷ [])
