-- ===== src/Daemon/Shutdown.antt =====
-- supervisord.cpp, `run`: the end of the event loop behind a call of `shutdown`.
use supervisorcpp.Prelude.{
  ℕ, suc, ◌++◌, true, false, List, Option, Bytes, codes, bytes_eq, ◌≡◌, refl, sym, subst, ◌∙◌,
  arith, inr,
}
use mathlib.Core.List.{Memᴰ}
use supervisorcpp.PropertyTree.{PropertyTree}
use supervisorcpp.Config.Types.{Configuration}
use supervisorcpp.Manager.Table.{Os}
use supervisorcpp.Manager.Loop.{has_running_processes}
use supervisorcpp.Manager.Control.{LogFiles}
use supervisorcpp.Rpc.Server.{Reply, dispatch_method, find_handler, register_handler}
use supervisorcpp.Rpc.Handlers.{Replying, register_process_handlers}
use supervisorcpp.Daemon.{Supervisord}
use supervisorcpp.Daemon.Handlers.{register_rpc_handlers, shutdown_handler, on_managers}
use supervisorcpp.Daemon.Run.{Occurrence, turns_to_posted, event_loop}
use supervisorcpp.Daemon.Ending.{event_loop-IsQuiet, event_loop-IsDone, event_loop-append}

module _ (t : PropertyTree) (os : Os) (files : ℕ → LogFiles) (pid : ℕ) where
  shutdown-handled :
      (parse : Bytes → Option Configuration) (r : Replying) (params : List Bytes) (d : Supervisord)
      → dispatch_method
          (register_rpc_handlers parse os files pid r)
          (codes "supervisor.shutdown")
          params
          d
        ≡ shutdown_handler r params d
  unfolding dispatch_method find_handler register_handler register_rpc_handlers bytes_eq
      register_process_handlers on_managers
  shutdown-handled parse r params d = refl

  -- Once the call `supervisor.shutdown` was answered, in a loop that was not told to stop before, and
  -- the loop comes to the task that the call posted and returns, so that no exception leaves it: it was
  -- told to stop, whatever else happened, no process of the table has a child that is tracked, and
  -- whatever would happen afterwards changes nothing. A child that a start in STOPPING replaced is not
  -- tracked.
  pub event_loop-shutdown :
      (parse : Bytes → Option Configuration) (r : Replying) (params : List Bytes)
      (l more : List Occurrence) (d : Supervisord)
      → d.is_over ≡ false
      → Memᴰ turns_to_posted l
      → (let called =
            (dispatch_method
              (register_rpc_handlers parse os files pid r)
              (codes "supervisor.shutdown")
              params
              d).0 in
          (event_loop t os files pid l called).1 ≡ true)
      → let called =
          (dispatch_method
            (register_rpc_handlers parse os files pid r)
            (codes "supervisor.shutdown")
            params
            d).0 in
        let ended = (event_loop t os files pid l called).0 in
        (ended.is_over ≡ true)
        × (has_running_processes ended.process_manager.process_map ≡ false)
        × (event_loop t os files pid (l ++ more) called ≡ event_loop t os files pid l called)
  unfolding shutdown_handler
  event_loop-shutdown parse r params l more d on later =
      subst
        (λ (y : Supervisord × Reply).
          (event_loop t os files pid l y.0).1 ≡ true
          → let ended = (event_loop t os files pid l y.0).0 in
            (ended.is_over ≡ true)
            × (has_running_processes ended.process_manager.process_map ≡ false)
            × (event_loop t os files pid (l ++ more) y.0 ≡ event_loop t os files pid l y.0))
        (sym (shutdown-handled parse r params d))
        (λ returned.
          let posted = record d { posted = suc d.posted } in
          let over = event_loop-IsDone t os files pid l posted later (inr (omega arith)) returned in
          (
            over,
            event_loop-IsQuiet t os files pid l posted (λ o. absurd (cc (sym on ∙ o))) over,
            event_loop-append t os files pid l more posted over,
          ))
