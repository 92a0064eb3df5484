-- ===== src/Daemon/Handlers.antt =====
-- supervisord.cpp, `register_rpc_handlers_`: every call that the daemon answers.
use supervisorcpp.Prelude.{ℕ, suc, [], ◌∷◌, ◌++◌, Option, Bytes, codes, pos}
use supervisorcpp.Config.Types.{Configuration}
use supervisorcpp.Manager.Table.{Manager, Os}
use supervisorcpp.Manager.Control.{LogFiles}
use supervisorcpp.Rpc.Server.{result, Handler, Handlers, register_handler}
use supervisorcpp.Rpc.Handlers.{Replying, is_true, register_process_handlers}
use supervisorcpp.Daemon.{Supervisord, reload_config, get_state}

-- A handler that captures `process_manager_`, as one over the daemon.
abbrev pub on_manager : Handler Manager → Handler Supervisord
on_manager h params d =
    let (m, reply) = h params d.process_manager in (record d { process_manager = m }, reply)

unfoldable pub on_managers : Handlers Manager → Handlers Supervisord
on_managers [] = []
on_managers ((name, h) ∷ l) = (name, on_manager h) ∷ on_managers l

unfoldable pub state_handler : Replying → Handler Supervisord
unfolding get_state
state_handler r params d = (d, result (get_state r.show d))

-- The shutdown itself is posted, so that the reply goes out before.
unfoldable pub shutdown_handler : Replying → Handler Supervisord
shutdown_handler r params d = (record d { posted = suc d.posted }, is_true r)

unfoldable pub reload_handler :
    (Bytes → Option Configuration) → Os → (ℕ → LogFiles) → Replying → Handler Supervisord
unfolding reload_config
reload_handler parse os files r params d = (reload_config parse os files d, is_true r)

unfoldable pub api_version : Handler Supervisord
api_version params d = (d, result (codes "<string>3.0</string>"))

unfoldable pub identification : Handler Supervisord
identification params d = (d, result (codes "<string>supervisor</string>"))

unfoldable pub process_id : Replying → ℕ → Handler Supervisord
process_id r pid params d = (d, result (codes "<int>" ++ (r.show (pos pid) ++ codes "</int>")))

-- The handlers behind `register_rpc_handlers_`, which starts from none.
unfoldable pub register_rpc_handlers :
    (Bytes → Option Configuration) → Os → (ℕ → LogFiles) → ℕ → Replying → Handlers Supervisord
register_rpc_handlers parse os files pid r =
    register_handler (codes "supervisor.getPID") (process_id r pid) (
      register_handler (codes "supervisor.getIdentification") identification (
        register_handler (codes "supervisor.getAPIVersion") api_version (
          register_handler (codes "supervisor.getSupervisorVersion") api_version (
            register_handler (codes "supervisor.getVersion") api_version (
              register_handler (codes "supervisor.reloadConfig") (reload_handler parse os files r) (
                register_handler (codes "supervisor.shutdown") (shutdown_handler r) (
                  register_handler (codes "supervisor.getState") (state_handler r)
                    (on_managers (register_process_handlers os r [])))))))))
