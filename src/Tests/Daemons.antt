-- ===== src/Tests/Daemons.antt =====
-- The daemon, and a call of a handler.
use supervisorcpp.Prelude.{List, [], ◌∷◌, some, ◌≡◌, refl, pos, codes, bytes_eq}
use supervisorcpp.Config.Types.{Configuration, info}
use supervisorcpp.Rpc.Handlers.{Replying, start_handler}
use supervisorcpp.Rpc.Replies.{Answered, start_handler-Answered}
use supervisorcpp.Process.Types.{ProgramConfig}
use supervisorcpp.Daemon.{
  Supervisord, create_supervisord, begin_run, reload_config, on_shutdown_signal, parsed_file,
}
use supervisorcpp.Manager.Shape.{config_of}
use supervisorcpp.Manager.Table.{find, sweep, set}
use supervisorcpp.Manager.Control.{start_all, add_process}
use supervisorcpp.Process.Life.{start}
use supervisorcpp.Process.Types.{create_process}
use supervisorcpp.Process.Spawn.{spawn}
use supervisorcpp.Tests.Configs
use supervisorcpp.Tests.Configs.{reader, system, of_file, config_path, file_parsed}
use supervisorcpp.Tests.Data.{web, web_process, web_manager, os, files}

abbrev pub configuration : List ProgramConfig → Configuration
configuration l = record {
  config_file = codes "/etc/supervisord.conf";
  unix_http_server = record { socket_file = codes "/run/supervisord.sock" };
  supervisord = record {
    logfile = codes "/var/log/supervisord.log";
    logfile_maxbytes = 1000;
    logfile_backups = pos 10;
    loglevel = info;
    user = codes "root";
    childlogdir = codes "/var/log/supervisor";
    pidfile = [];
    umask = 18;
  };
  programs = l;
  included = [];
}

abbrev created : Supervisord
created = create_supervisord os (λ n. files) (configuration (web ∷ []))

-- The file has another program.
abbrev ended : Supervisord
ended =
    on_shutdown_signal os
      (reload_config (parsed_file reader system) os (λ n. files) (begin_run os created))

abbrev started : Supervisord
started = begin_run os (create_supervisord os (λ n. files) of_file)

web_there : config_of (codes "web") started.process_manager.process_map ≡ some Configs.web
unfolding begin_run create_supervisord find start_all sweep add_process set bytes_eq start
    create_process spawn
web_there = refl

-- Numbers are not printed.
abbrev replying : Replying
replying = record { show = λ z. []; now = 1; system_now = 1 }

start_handler-Answered_example :
    Answered replying
      (codes "web")
      (web_manager web_process)
      (start_handler os replying (codes "web" ∷ []) (web_manager web_process))
start_handler-Answered_example =
    start_handler-Answered os replying (codes "web") [] (web_manager web_process)
