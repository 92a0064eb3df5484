-- ===== src/Manager/Control.antt =====
-- process_manager.cpp: `add_process`, `start_all`, `stop_all`, `start_process`, `stop_process`,
-- `remove_process`, `get_process`.
use supervisorcpp.Prelude.{
  ℕ, ◌+◌, max, Bool, true, false, List, [], ◌∷◌, ◌++◌, Option, none, some, ℤ, pos_part,
  if◌then◌else◌, Bytes,
}
use supervisorcpp.Logger.Writer.{Io, Disk}
use supervisorcpp.Process.Types.{Process, ProgramConfig, has_pid, create_process}
use supervisorcpp.Process.Life.{Sent, start, stop, kill}
use supervisorcpp.Manager.Table.{Table, Manager, Os, find, set, replace, erase, sweep_all}
use supervisorcpp.Manager.Loop.{reap_until, has_running_processes}

-- The files that a new process finds at its log paths, and how opening them goes.
pub record LogFiles : Type 0 where
  pub io : Io
  pub stdout_disk : Disk
  pub stderr_disk : Disk

-- `~Process`, when the map drops its pointer: a child that is left is killed.
unfoldable pub destroy : ℕ → Option Process → List Sent
destroy now none = []
destroy now (some p) = (kill now p).1

unfoldable pub add_process : Os → LogFiles → ProgramConfig → Manager → Manager
unfolding destroy
add_process os files c m = record {
  process_map =
      set c.name (create_process files.io files.stdout_disk files.stderr_disk (os.now m.asked) c)
        m.process_map;
  sent = m.sent ++ destroy (os.now m.asked) (find c.name m.process_map);
  asked = m.asked + 1;
}

unfoldable pub start_all : Os → Manager → Manager
start_all os m = sweep_all (λ n p. ((start (os.spawns n) (os.now n) p).0, [])) m

-- The body of the first loop of `stop_all`.
unfoldable pub stop_live : Os → ℕ → Process → Process × List Sent
stop_live os n p =
    if has_pid p then (let r = stop (os.kill_ok n) (os.now n) p in (r.0, r.1)) else (p, [])

-- `max_wait`, an `int`; `stopwaitsecs` below 0 counts as 0.
unfoldable pub max_wait : Table → ℕ
max_wait [] = 0
max_wait ((_, p) ∷ r) =
    if has_pid p then max (pos_part p.config.stopwaitsecs) (max_wait r) else max_wait r

-- The body of the last loop of `stop_all`.
unfoldable pub force_kill : Os → ℕ → Process → Process × List Sent
force_kill os n p = kill (os.now n) p

unfoldable pub stop_all : Os → Manager → Manager
unfolding stop_live max_wait force_kill
stop_all os m =
    if has_running_processes m.process_map
    then (let signaled = sweep_all (stop_live os) m in
        sweep_all (force_kill os)
          (reap_until os (max_wait signaled.process_map + 1) has_running_processes signaled))
    else m

unfoldable pub start_process : Os → Bytes → Manager → Manager × Bool
start_process os name m = elim (find name m.process_map) [
  | none ↦ (m, false)
  | some p ↦
      let r = start (os.spawns m.asked) (os.now m.asked) p in
      (
        record { process_map = replace name r.0 m.process_map; sent = m.sent; asked = m.asked + 1 },
        r.1,
      )
]

-- Whether the process of this name has a child.
unfoldable pub is_alive : Bytes → Table → Bool
is_alive name t = elim (find name t) [ none ↦ false | some p ↦ has_pid p ]

-- `stopwaitsecs + 1` seconds; no time where that is below 0.
abbrev pub stop_wait : Process → ℕ
stop_wait p = elim p.config.stopwaitsecs [ ℤ.pos n ↦ n + 1 | ℤ.negsuc n ↦ 0 ]

unfoldable pub stop_process : Os → Bytes → Manager → Manager × Bool
unfolding is_alive
stop_process os name m = elim (find name m.process_map) [
  | none ↦ (m, false)
  | some p ↦
      let r = stop (os.kill_ok m.asked) (os.now m.asked) p in
      let m' = record m {
        process_map = replace name r.0 m.process_map;
        sent = m.sent ++ r.1;
        asked = m.asked + 1;
      } in
      if r.2 then (reap_until os (stop_wait p) (is_alive name) m', true) else (m', false)
]

unfoldable pub remove_process : Os → Bytes → Manager → Manager × Bool
unfolding destroy
remove_process os name m = elim (find name m.process_map) [
  | none ↦ (m, false)
  | some p ↦
      let m' = if has_pid p then (stop_process os name m).0 else m in
      (
        record {
          process_map = erase name m'.process_map;
          sent = m'.sent ++ destroy (os.now m'.asked) (find name m'.process_map);
          asked = m'.asked + 1;
        },
        true,
      )
]
