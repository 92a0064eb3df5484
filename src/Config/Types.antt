-- ===== src/Config/Types.antt =====
-- config_types.h, log_levels.h: the configuration as a whole.
use supervisorcpp.Prelude.{ℕ, List, ℤ, Bytes}
use supervisorcpp.Process.Types.{ProgramConfig}

pub data LogLevel : Type 0 where
  trace debug info warn error ignore : LogLevel

pub record UnixHttpServerConfig : Type 0 where
  pub socket_file : Bytes

pub record SupervisordConfig : Type 0 where
  pub logfile : Bytes
  pub logfile_maxbytes : ℕ
  pub logfile_backups : ℤ
  pub loglevel : LogLevel
  pub user : Bytes
  pub childlogdir : Bytes
  pub pidfile : Bytes
  pub umask : ℕ

pub record Configuration : Type 0 where
  pub config_file : Bytes
  pub unix_http_server : UnixHttpServerConfig
  pub supervisord : SupervisordConfig
  pub programs : List ProgramConfig
  -- The set of included files, the last first.
  pub included : List Bytes
