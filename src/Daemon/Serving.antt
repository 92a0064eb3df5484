-- ===== src/Daemon/Serving.antt =====
-- supervisord.cpp, `run`: the table and the programs of the daemon at any time of its event loop.
use supervisorcpp.Prelude.{
  ℕ, if-either, Bool, List, [], ◌∷◌, ltb, Bytes, ◌≡◌, refl, inl, inr, Bool-cases,
}
use supervisorcpp.PropertyTree.{PropertyTree}
use supervisorcpp.Config.Outside.{Outside}
use supervisorcpp.Config.Types.{Configuration}
use supervisorcpp.Manager.Table.{Os}
use supervisorcpp.Manager.Control.{LogFiles}
use supervisorcpp.Rpc.Server.{dispatch_method}
use supervisorcpp.Rpc.Connection.{Step, read_all, processes, too_large, reads_on, drops, escapes}
use supervisorcpp.Rpc.Connection.OneAnswer.{process_request-leads}
use supervisorcpp.Rpc.Handlers.{Replying}
use supervisorcpp.Daemon.{Supervisord, create_supervisord, begin_run, parsed_file}
use supervisorcpp.Daemon.Handlers.{register_rpc_handlers}
use supervisorcpp.Daemon.InSync.{
  Matches, Runs, Runs-join, Runs-Matches, unchanged, and_then, runs, terminates, shuts_down,
  reloads, turns, starts_one, stops_one, stops_all, posts,
}
use supervisorcpp.Daemon.Calls.{AllowsCalls, dispatch_method-AllowsCalls}
use supervisorcpp.Daemon.Run.{
  Occurrence, terminated, hung_up, turns_to_posted, takes, connects, serve_connection, occurs,
  event_loop,
}

-- A connection changes the state at most as one call does.
pub serve_connection-leads :
    (t : PropertyTree) (os : Os) (files : ℕ → LogFiles) (pid : ℕ)
    (R : Supervisord → Supervisord → Type 0) (o : Outside)
    → AllowsCalls t os files o R
    → (r : Replying) (chunks : List Bytes) (d : Supervisord)
    → R d (serve_connection t os files pid r o chunks d).0
unfolding serve_connection
serve_connection-leads t os files pid R o allowed r chunks d = go (read_all chunks []) refl
  where
    go : (x : Step) → read_all chunks [] ≡ x → R d (serve_connection t os files pid r o chunks d).0
    go (processes request) e =
        rw (e, serve_connection)
          (process_request-leads t R r.show
            (dispatch_method (register_rpc_handlers (parsed_file t o) os files pid r)) allowed.same
            (dispatch_method-AllowsCalls t os files o R allowed pid r) request d)
    go too_large e = rw (e, serve_connection) (allowed.same d)
    go (reads_on _) e = rw (e, serve_connection) (allowed.same d)
    go drops e = rw (e, serve_connection) (allowed.same d)
    go escapes e = rw (e, serve_connection) (allowed.same d)

module _ (t : PropertyTree) (os : Os) (files : ℕ → LogFiles) (pid : ℕ) where
  Runs-AllowsCalls : (o : Outside) → AllowsCalls t os files o (Runs t os files)
  Runs-AllowsCalls o = record {
    same = λ d. unchanged;
    starts_all = λ d. and_then unchanged runs;
    stops_all = λ d. and_then unchanged stops_all;
    starts = λ name d. and_then unchanged (starts_one name);
    stops = λ name d. and_then unchanged (stops_one name);
    posts = λ d. and_then unchanged posts;
    reloads = λ d. and_then unchanged (reloads o);
  }

  occurs-Runs : (x : Occurrence) (d : Supervisord) → Runs t os files d (occurs t os files pid x d).0
  unfolding occurs
  occurs-Runs terminated d = and_then unchanged terminates
  occurs-Runs (hung_up o) d = and_then unchanged (reloads o)
  occurs-Runs turns_to_posted d = elim (Bool-cases (ltb 0 d.posted)) [
    | inl some_posted ↦ rw some_posted (and_then unchanged shuts_down)
    | inr nothing ↦ rw nothing unchanged
  ]
  occurs-Runs (takes turn) d = and_then unchanged (turns turn)
  occurs-Runs (connects r o chunks) d =
      serve_connection-leads t os files pid (Runs t os files) o (Runs-AllowsCalls o) r chunks d

  pub event_loop-Runs :
      (l : List Occurrence) (d : Supervisord) → Runs t os files d (event_loop t os files pid l d).0
  unfolding event_loop
  event_loop-Runs [] d = unchanged
  event_loop-Runs (x ∷ l) d =
      let one = occurs t os files pid x d in
      let leads = λ (y : Supervisord × Bool). Runs t os files d y.0 in
      if-either leads d.is_over _ _ unchanged (
        if-either leads one.1 _ _ (Runs-join (occurs-Runs x d) (event_loop-Runs l one.0))
          (occurs-Runs x d))

  -- From the constructor on, through the start of the processes and any sequence of signals, reloads,
  -- also failing ones, posted shutdowns, timers, exits of children and connections, whatever bytes
  -- come over them: the process table has exactly the names of the daemon's configuration, each with
  -- the configuration of the last program of that name.
  pub event_loop-Matches :
      (config : Configuration) (l : List Occurrence)
      → let d =
          (event_loop t os files pid l (begin_run os (create_supervisord os files config))).0 in
        Matches d.process_manager.process_map d.config.programs
  event_loop-Matches config l =
      Runs-Matches t os files config _ (Runs-join (and_then unchanged runs) (event_loop-Runs l _))
