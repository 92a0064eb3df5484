-- ===== src/Daemon/InSync.antt =====
-- supervisord.cpp: the process table and the configuration through the events of a run.
use supervisorcpp.Prelude.{
  ℕ, suc, List, [], ◌∷◌, Option, Bytes, ◌≡◌, refl, ◌∙◌, arith, inl, inr, Bool-cases, Option-cases,
}
use supervisorcpp.Process.Types.{ProgramConfig}
use supervisorcpp.Logger.Writer.{is_empty}
use supervisorcpp.PropertyTree.{PropertyTree}
use supervisorcpp.Config.Outside.{Outside}
use supervisorcpp.Config.Types.{Configuration}
use supervisorcpp.Manager.Table.{Table, Manager, Os, Turn, IsMap, find}
use supervisorcpp.Manager.Loop.{take_turn}
use supervisorcpp.Manager.Control.{LogFiles, add_process, start_process, stop_process, stop_all}
use supervisorcpp.Manager.Shape.{
  shape, config_of, shape-config_of, shape-IsMap, take_turn-shape, start_process-shape,
  stop_process-shape,
}
use supervisorcpp.Manager.Steady.{start_all-shape, stop_all-shape}
use supervisorcpp.Manager.Reload.{last_named, sync_processes-config_of, add_process-Sets, put_in}
use supervisorcpp.Daemon.{
  Supervisord, add_programs, create_supervisord, begin_run, on_shutdown_signal, rpc_shutdown,
  reload_config, is_restarting, parsed_file,
}

-- The table holds exactly the programs, each with its configuration.
abbrev pub Matches : Table → List ProgramConfig → Type 0
Matches t programs = ((j : Bytes) → config_of j t ≡ last_named j programs) × IsMap t

-- What the event loop and `run` do, the parts of the handlers of calls included.
pub data Event (t : PropertyTree) (os : Os) (files : ℕ → LogFiles) (d : Supervisord)
    : Supervisord → Type 0 where
  runs : Event t os files d (begin_run os d)
  terminates : Event t os files d (on_shutdown_signal os d)
  shuts_down : Event t os files d (rpc_shutdown os d)
  reloads : (o : Outside) → Event t os files d (reload_config (parsed_file t o) os files d)
  turns :
      (turn : Turn)
      → Event t os files d (record d { process_manager = take_turn os turn d.process_manager })
  starts_one :
      (name : Bytes)
      → Event t os files d
          (record d { process_manager = (start_process os name d.process_manager).0 })
  stops_one :
      (name : Bytes)
      → Event t os files d
          (record d { process_manager = (stop_process os name d.process_manager).0 })
  stops_all : Event t os files d (record d { process_manager = stop_all os d.process_manager })
  posts : Event t os files d (record d { posted = suc d.posted })

pub data Runs (t : PropertyTree) (os : Os) (files : ℕ → LogFiles) (d : Supervisord)
    : Supervisord → Type 0 where
  unchanged : Runs t os files d d
  and_then : {e f : Supervisord} → Runs t os files d e → Event t os files e f → Runs t os files d f

pub Runs-join :
    {t : PropertyTree} {os : Os} {files : ℕ → LogFiles} {d e f : Supervisord}
    → Runs t os files d e
    → Runs t os files e f
    → Runs t os files d f
Runs-join r unchanged = r
Runs-join r (and_then q s) = and_then (Runs-join r q) s

Matches-shape :
    (t u : Table) (l : List ProgramConfig) → shape u ≡ shape t → Matches t l → Matches u l
Matches-shape t u l e h = (λ j. shape-config_of j u t e ∙ h.0 j, shape-IsMap u t e h.1)

add_programs-config_of :
    (os : Os) (files : ℕ → LogFiles) (l : List ProgramConfig) (m : Manager)
    → IsMap m.process_map
    → ((j : Bytes)
        → config_of j (add_programs os files l m).process_map
          ≡ put_in (last_named j l) (config_of j m.process_map))
      × IsMap (add_programs os files l m).process_map
unfolding add_programs last_named
add_programs-config_of os files [] m h = (λ j. refl, h)
add_programs-config_of os files (c ∷ r) m h =
    let one = add_process-Sets os (files m.asked) c m h in
    let rest = add_programs-config_of os files r (add_process os (files m.asked) c m) one.1 in
    (λ j. rest.0 j ∙ ground (arith, one.0 j, Option-cases (last_named j r)), rest.1)

create_supervisord-Matches :
    (os : Os) (files : ℕ → LogFiles) (config : Configuration)
    → Matches (create_supervisord os files config).process_manager.process_map config.programs
unfolding create_supervisord find
create_supervisord-Matches os files config =
    let added =
      add_programs-config_of os files config.programs
        (record { process_map = []; sent = []; asked = 0 }) tt in
    (λ j. added.0 j ∙ ground (arith, Option-cases (last_named j config.programs)), added.1)

reload_config-Matches :
    (parse_file : Bytes → Option Configuration) (os : Os) (files : ℕ → LogFiles) (d : Supervisord)
    → Matches d.process_manager.process_map d.config.programs
    → Matches
        (reload_config parse_file os files d).process_manager.process_map
        (reload_config parse_file os files d).config.programs
unfolding reload_config
reload_config-Matches parse_file os files d h = elim (Bool-cases (is_empty d.config.config_file)) [
  | inl none_known ↦ rw none_known h
  | inr known ↦ elim (Bool-cases (is_restarting d.daemon_state)) [
    | inl busy ↦ rw (known, busy) h
    | inr free ↦ elim (Option-cases (parse_file d.config.config_file)) [
      | inl e ↦ rw (known, free, e) h
      | inr (c, e) ↦
          rw (known, free, e) (sync_processes-config_of os files c.programs d.process_manager h.1)
    ]
  ]
]

Event-Matches :
    {t : PropertyTree} {os : Os} {files : ℕ → LogFiles} {d e : Supervisord}
    → Event t os files d e
    → Matches d.process_manager.process_map d.config.programs
    → Matches e.process_manager.process_map e.config.programs
unfolding begin_run on_shutdown_signal rpc_shutdown
Event-Matches {os} {d} runs h =
    Matches-shape _ _ d.config.programs (start_all-shape os d.process_manager) h
Event-Matches {os} {d} terminates h =
    Matches-shape _ _ d.config.programs (stop_all-shape os d.process_manager) h
Event-Matches {os} {d} shuts_down h =
    Matches-shape _ _ d.config.programs (stop_all-shape os d.process_manager) h
Event-Matches {t} {os} {files} {d} (reloads o) h =
    reload_config-Matches (parsed_file t o) os files d h
Event-Matches {os} {d} (turns turn) h =
    Matches-shape _ _ d.config.programs (take_turn-shape os turn d.process_manager) h
Event-Matches {os} {d} (starts_one name) h =
    Matches-shape _ _ d.config.programs (start_process-shape os name d.process_manager) h
Event-Matches {os} {d} (stops_one name) h =
    Matches-shape _ _ d.config.programs (stop_process-shape os name d.process_manager) h
Event-Matches {os} {d} stops_all h =
    Matches-shape _ _ d.config.programs (stop_all-shape os d.process_manager) h
Event-Matches posts h = h

-- From the constructor on, through any sequence of starts, stops, exits, timers, reloads, also
-- failing ones, and shutdowns, the process table has exactly the names of the daemon's
-- configuration, each with the configuration of the last program of that name.
pub Runs-Matches :
    (t : PropertyTree) (os : Os) (files : ℕ → LogFiles) (config : Configuration) (d : Supervisord)
    → Runs t os files (create_supervisord os files config) d
    → Matches d.process_manager.process_map d.config.programs
Runs-Matches t os files config d unchanged =
    unfold create_supervisord in create_supervisord-Matches os files config
Runs-Matches t os files config d (and_then {e} r s) =
    Event-Matches s (Runs-Matches t os files config e r)
