-- ===== src/Process/Types.antt =====
-- config_types.h, `ProgramConfig`; process.h, `State` and the fields of `Process`.
use supervisorcpp.Prelude.{
  ℕ, ◌-◌, ◌/◌, Bool, true, false, List, [], Option, none, some, ℤ, pos, minus_one, Bytes, codes,
  ltb_ℤ,
}
use supervisorcpp.Logger.Writer.{LogWriter, Io, Disk, create}

-- `ProgramConfig::Log`.
pub record Log : Type 0 where
  pub file : Option Bytes
  pub file_maxbytes : ℕ
  pub file_backups : ℤ

pub record ProgramConfig : Type 0 where
  pub name : Bytes
  pub command : Bytes
  -- The map, in the order of its keys.
  pub environment : List (Bytes × Bytes)
  pub directory : Option Bytes
  pub autorestart : Bool
  pub user : Bytes
  pub stdout_log : Log
  pub stderr_log : Log
  pub redirect_stderr : Bool
  pub startsecs : ℤ
  pub startretries : ℤ
  pub stopwaitsecs : ℤ
  pub stopsignal : Bytes
  pub umask : Option ℕ

pub data State : Type 0 where
  stopped starting running backoff stopping exited fatal : State

-- `operator<<(std::ostream&, State)`.
unfoldable pub state_name : State → Bytes
state_name State.stopped = codes "STOPPED"
state_name State.starting = codes "STARTING"
state_name State.running = codes "RUNNING"
state_name State.backoff = codes "BACKOFF"
state_name State.stopping = codes "STOPPING"
state_name State.exited = codes "EXITED"
state_name State.fatal = codes "FATAL"

-- The enumerators' values, as `static_cast<int>` shows them.
unfoldable pub state_code : State → ℕ
state_code State.stopped = 0
state_code State.starting = 10
state_code State.running = 20
state_code State.backoff = 30
state_code State.stopping = 40
state_code State.exited = 100
state_code State.fatal = 200

abbrev pub state_eq : State → State → Bool
state_eq State.stopped State.stopped = true
state_eq State.starting State.starting = true
state_eq State.running State.running = true
state_eq State.backoff State.backoff = true
state_eq State.stopping State.stopping = true
state_eq State.exited State.exited = true
state_eq State.fatal State.fatal = true
state_eq _ _ = false

-- A file descriptor of the parent's end of a pipe; `none` where the stream is null or closed.
pub record Process : Type 0 where
  pub config : ProgramConfig
  pub state : State
  pub pid : ℤ
  pub exitstatus : ℤ
  pub retry_count : ℕ
  pub spawn_error : Bytes
  pub start_time : ℕ
  pub stop_time : ℕ
  pub state_change_time : ℕ
  pub stdout_log_writer : Option LogWriter
  pub stderr_log_writer : Option LogWriter
  pub stdout_stream : Option ℕ
  pub stderr_stream : Option ℕ

-- `pid_ > 0`.
abbrev pub has_pid : Process → Bool
has_pid p = ltb_ℤ (pos 0) p.pid

-- `duration_cast<seconds>(now - since).count()`; the steady clock does not run backwards.
abbrev pub elapsed_seconds : ℕ → ℕ → ℕ
elapsed_seconds now since = (now - since) / 1000000000

-- The lambda of the constructor: a writer if a log file is configured.
unfoldable pub create_writer : Io → Disk → Log → Option LogWriter
create_writer io d log = elim log.file [
  | none ↦ none
  | some _ ↦ some (create io log.file_maxbytes log.file_backups d)
]

-- The constructor of `Process`, over the files that stand at the two log paths.
unfoldable pub create_process : Io → Disk → Disk → ℕ → ProgramConfig → Process
unfolding create_writer
create_process io out_disk err_disk now config = record {
  config = config;
  state = State.stopped;
  pid = minus_one;
  exitstatus = pos 0;
  retry_count = 0;
  spawn_error = [];
  start_time = 0;
  stop_time = 0;
  state_change_time = now;
  stdout_log_writer = create_writer io out_disk config.stdout_log;
  stderr_log_writer = create_writer io err_disk config.stderr_log;
  stdout_stream = none;
  stderr_stream = none;
}
