-- ===== src/Daemon/Run.antt =====
-- supervisord.cpp, `run`: the server, the processes and the event loop with its connections.
use supervisorcpp.Prelude.{ℕ, Bool, true, false, not, List, [], ◌∷◌, ltb, if◌then◌else◌, map, Bytes}
use supervisorcpp.PropertyTree.{PropertyTree}
use supervisorcpp.Config.Outside.{Outside}
use supervisorcpp.Manager.Table.{Os, Turn}
use supervisorcpp.Manager.Loop.{take_turn}
use supervisorcpp.Manager.Control.{LogFiles}
use supervisorcpp.Rpc.Server.{dispatch_method}
use supervisorcpp.Rpc.Connection.{
  read_all, process_request, too_large_response, processes, too_large, reads_on, drops, escapes,
}
use supervisorcpp.Rpc.Handlers.{Replying}
use supervisorcpp.Rpc.Listener.{RpcServer, start, stop, happen, accepts}
use supervisorcpp.Daemon.{
  Supervisord, begin_run, on_shutdown_signal, rpc_shutdown, reload_config, parsed_file,
}
use supervisorcpp.Daemon.Handlers.{register_rpc_handlers}

-- What the event loop runs, one at a time.
pub data Occurrence : Type 0 where
  -- SIGTERM or SIGINT.
  terminated : Occurrence
  -- SIGHUP, with what the file system answers then.
  hung_up : Outside → Occurrence
  -- A task that was posted.
  turns_to_posted : Occurrence
  -- A timer or an exit of children.
  takes : Turn → Occurrence
  -- A connection, with the chunks that its reads bring.
  connects : Replying → Outside → List Bytes → Occurrence

-- What becomes of a connection.
pub data Served : Type 0 where
  responds : Bytes → Served
  no_response exception : Served

abbrev pub is_exception : Served → Bool
is_exception exception = true
is_exception _ = false

module _ (t : PropertyTree) (os : Os) (files : ℕ → LogFiles) (pid : ℕ) where
  -- A connection, with the dispatcher of the server.
  unfoldable pub serve_connection :
      Replying → Outside → List Bytes → Supervisord → Supervisord × Served
  unfolding read_all process_request dispatch_method register_rpc_handlers too_large_response
  serve_connection r o chunks d = elim (read_all chunks []) [
    | processes request ↦
        let (d', response) =
          process_request t r.show
            (dispatch_method (register_rpc_handlers (parsed_file t o) os files pid r)) request d in
        (d', responds response)
    | too_large ↦ (d, responds (too_large_response r.show))
    | reads_on _ ↦ (d, no_response)
    | drops ↦ (d, no_response)
    | escapes ↦ (d, exception)
  ]

  -- The state behind an occurrence, and whether its handler returns.
  unfoldable pub occurs : Occurrence → Supervisord → Supervisord × Bool
  unfolding serve_connection on_shutdown_signal reload_config rpc_shutdown
  occurs terminated d = (on_shutdown_signal os d, true)
  occurs (hung_up o) d = (reload_config (parsed_file t o) os files d, true)
  occurs turns_to_posted d = (if ltb 0 d.posted then rpc_shutdown os d else d, true)
  occurs (takes turn) d = (record d { process_manager = take_turn os turn d.process_manager }, true)
  occurs (connects r o chunks) d =
      let (d', served) = serve_connection r o chunks d in (d', not (is_exception served))

  -- `io_context_.run()`, over the occurrences of its time, and whether it returns; an exception of a
  -- handler leaves it.
  unfoldable pub event_loop : List Occurrence → Supervisord → Supervisord × Bool
  unfolding occurs
  event_loop [] d = (d, true)
  event_loop (x ∷ l) d =
      let (d', goes_on) = occurs x d in
      let rest = event_loop l d' in
      if d.is_over then (d, true) else if goes_on then rest else (d', false)

  -- `run`; the server's own calls turn out as the three tests say, and `failed` has the accepts of
  -- the run. It gives whether it returns, then with 0.
  unfoldable pub run :
      Bool
      → Bool
      → Bool
      → List Bool
      → List Occurrence
      → RpcServer
      → Supervisord
      → RpcServer × (Supervisord × Bool)
  unfolding start begin_run event_loop happen stop
  run directory binds permits failed l s d =
      let (s', started) = start directory binds permits s in
      if not started
      then (s', (d, false))
      else (let (d', ended) = event_loop l (begin_run os d) in
          let s'' = happen (map accepts failed) s' in
          (if ended then stop s'' else s'', (d', ended)))
